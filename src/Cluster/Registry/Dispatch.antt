-- ===== src/Cluster/Registry/Dispatch.antt =====
-- What a dispatch sends to the workers of the registry.
use fusillade.Prelude.{ok, err, ◌≡◌, refl, ap, none, some, [], ◌∷◌, Text, codes, arith, length, map}
use fusillade.Cluster.{
  WorkerInfo, WorkerRegistry, Channel, StartTest, dispatch_test_to_workers, send_all,
}

module _ (ch : Channel) (cmd : StartTest) where
  -- The sender after the command, if it takes it.
  abbrev pub delivered : ch.Sender → ch.Sender
  delivered s = elim (ch.try_send cmd s) [ none ↦ s | some s' ↦ s' ]

  abbrev pub deliver : Text × WorkerInfo ch.Sender → Text × WorkerInfo ch.Sender
  deliver (id, w) = (id, record w { sender = delivered w.sender })

  -- The workers whose channels take the command.
  abbrev pub reachable : WorkerRegistry ch.Sender → WorkerRegistry ch.Sender
  reachable [] = []
  reachable ((id, w) ∷ ws) = elim (ch.try_send cmd w.sender) [
    | none ↦ reachable ws
    | some s ↦ (id, w) ∷ reachable ws
  ]

  send_all_lem :
      (ws : WorkerRegistry ch.Sender) → send_all ch cmd ws ≡ (map deliver ws, length (reachable ws))
  unfolding send_all
  send_all_lem [] = refl
  send_all_lem ((id, w) ∷ ws) = ground (arith, send_all_lem ws)

  -- A dispatch fails only when no worker is in the registry. Otherwise each worker is offered the
  -- command once, and the result counts those whose channels take it, also if there are none.
  dispatch_lem :
      (w : Text × WorkerInfo ch.Sender) (ws : WorkerRegistry ch.Sender)
      → (dispatch_test_to_workers ch cmd [] ≡ ([], err (codes "No workers connected")))
        × (dispatch_test_to_workers ch cmd (w ∷ ws)
            ≡ (map deliver (w ∷ ws), ok (length (reachable (w ∷ ws)))))
  unfolding dispatch_test_to_workers
  dispatch_lem w ws = (refl, ap (λ p. (p.0, ok p.1)) (send_all_lem (w ∷ ws)))

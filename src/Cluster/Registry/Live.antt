-- ===== src/Cluster/Registry/Live.antt =====
-- Interleaved registrations: what the registry holds while the workers' names differ, and what a
-- second connection under the same name does to it.
use mathlib.Core.Path.{subst, fun_ext}
use fusillade.Prelude.{
  ℕ, ◌≡◌, ◌≢◌, refl, sym, ap, ◌∙◌, Bool, true, false, Option, none, some, List, [], ◌∷◌, Text,
  lookup, insert, erase, lookup-insert, lookup-erase, text_key, nat_key, arith, text_eq_refl, ◌==◌,
  if◌then◌else◌, ==_iff,
}
use fusillade.Cluster.{
  Cluster, WorkerInfo, Task, waiting, registered, Event, connected, message, closed, register,
  heartbeat, test_finished, unset, step, run, act, register_step,
}
use fusillade.Cluster.Registry.{IsLive, add-IsLive, remove-IsLive}

module _ {S : Type 0} where
  abbrev worker_of : Option (Task S) → Option (WorkerInfo S)
  worker_of (some (registered w)) = some w
  worker_of _ = none

  -- The worker of a connection that is registered.
  abbrev pub worker_at : Cluster S → ℕ → Option (WorkerInfo S)
  worker_at c n = worker_of (lookup n c.tasks)

  abbrev pub IsRight : Cluster S → Type 0
  IsRight c = IsLive (worker_at c) (λ id. lookup id c.workers)

  -- A new connection has a new number, and a worker registers under a name that no registered
  -- connection has.
  abbrev pub IsFresh : ℕ → Event S → Cluster S → Type 0
  IsFresh n (connected tx) c = lookup n c.tasks ≡ none
  IsFresh n (message (register id address cpus)) c =
      (m : ℕ) (w : WorkerInfo S) → worker_at c m ≡ some w → w.id ≢ id
  IsFresh n _ c = Unit

  abbrev pub AreFresh : List (ℕ × Event S) → Cluster S → Type 0
  AreFresh [] c = Unit
  AreFresh ((n, e) ∷ es) c = IsFresh n e c × AreFresh es (step n e c)

  IsLive-ext :
      (r r' : ℕ → Option (WorkerInfo S)) (g g' : Text → Option (WorkerInfo S))
      → ((m : ℕ) → r' m ≡ r m)
      → ((id : Text) → g' id ≡ g id)
      → IsLive r g
      → IsLive r' g'
  IsLive-ext r r' g g' h k l =
      subst (λ x. IsLive x g') (sym (fun_ext h)) (subst (λ x. IsLive r x) (sym (fun_ext k)) l)

  if-worker_of :
      (b : Bool) (x y : Option (Task S))
      → worker_of (if b then x else y) ≡ (if b then worker_of x else worker_of y)
  if-worker_of true x y = refl
  if-worker_of false x y = refl

  worker_at-insert :
      (n m : ℕ) (t : Task S) (c : Cluster S)
      → worker_of (lookup m (insert n t c.tasks))
        ≡ (if n == m then worker_of (some t) else worker_at c m)
  worker_at-insert n m t c =
      ap worker_of (lookup-insert n m t c.tasks) ∙ if-worker_of (n == m) (some t) (lookup m c.tasks)

  worker_at-erase :
      (n m : ℕ) (c : Cluster S)
      → worker_of (lookup m (erase n c.tasks)) ≡ (if n == m then none else worker_at c m)
  worker_at-erase n m c =
      ap worker_of (lookup-erase n m c.tasks) ∙ if-worker_of (n == m) none (lookup m c.tasks)

  -- a task that is not registered, before and after
  -- a task set or dropped that changes the worker of no connection
  quiet :
      (n : ℕ) (tasks : List (ℕ × Task S)) (o : Option (WorkerInfo S)) (c : Cluster S)
      → worker_at c n ≡ o
      → ((m : ℕ) → worker_of (lookup m tasks) ≡ (if n == m then o else worker_at c m))
      → IsRight c
      → IsRight (record c { tasks = tasks })
  quiet n tasks o c z h l =
      IsLive-ext (worker_at c) (worker_at (record c { tasks = tasks })) (λ id. lookup id c.workers)
        (λ id. lookup id c.workers) (λ m. h m ∙ ground (arith, ==_iff n m, z)) (λ id. refl) l

  act-IsRight :
      (n : ℕ) (o : Option (Task S)) (e : Event S) (c : Cluster S)
      → lookup n c.tasks ≡ o
      → IsFresh n e c
      → IsRight c
      → IsRight (act n o e c)
  unfolding act register_step
  act-IsRight n none e c q f l = l
  act-IsRight n (some (waiting tx)) (message (register id a k)) c q f l =
      let w : WorkerInfo S = record { id = id; address = a; available_cpus = k; sender = tx } in
      IsLive-ext _ _ _ _ (λ m. worker_at-insert n m (registered w) c)
        (λ j. lookup-insert id j w c.workers)
        (add-IsLive (worker_at c) (λ j. lookup j c.workers) n w l (ap worker_of q) f)
  act-IsRight n (some (waiting tx)) (message (heartbeat i)) c q f l =
      quiet n (erase n c.tasks) none c (ap worker_of q) (λ m. worker_at-erase n m c) l
  act-IsRight n (some (waiting tx)) (message (test_finished i)) c q f l =
      quiet n (erase n c.tasks) none c (ap worker_of q) (λ m. worker_at-erase n m c) l
  act-IsRight n (some (waiting tx)) (message unset) c q f l =
      quiet n (erase n c.tasks) none c (ap worker_of q) (λ m. worker_at-erase n m c) l
  act-IsRight n (some (waiting tx)) closed c q f l =
      quiet n (erase n c.tasks) none c (ap worker_of q) (λ m. worker_at-erase n m c) l
  act-IsRight n (some (registered w)) (message m) c q f l =
      quiet n (insert n (registered w) c.tasks) (some w) c (ap worker_of q)
        (λ j. worker_at-insert n j (registered w) c) l
  act-IsRight n (some (registered w)) closed c q f l =
      IsLive-ext _ _ _ _ (λ m. worker_at-erase n m c) (λ id. lookup-erase w.id id c.workers)
        (remove-IsLive (worker_at c) (λ id. lookup id c.workers) n w l (ap worker_of q))
  act-IsRight n (some (waiting ty)) (connected tx) c q f l =
      quiet n (insert n (waiting ty) c.tasks) none c (ap worker_of q)
        (λ j. worker_at-insert n j (waiting ty) c) l
  act-IsRight n (some (registered w)) (connected tx) c q f l =
      quiet n (insert n (registered w) c.tasks) (some w) c (ap worker_of q)
        (λ j. worker_at-insert n j (registered w) c) l

  step-IsRight :
      (n : ℕ) (e : Event S) (c : Cluster S) → IsFresh n e c → IsRight c → IsRight (step n e c)
  unfolding step
  step-IsRight n (connected tx) c f l =
      quiet n (insert n (waiting tx) c.tasks) none c (ap worker_of f)
        (λ j. worker_at-insert n j (waiting tx) c) l
  step-IsRight n (message m) c f l = act-IsRight n (lookup n c.tasks) (message m) c refl f l
  step-IsRight n closed c f l = act-IsRight n (lookup n c.tasks) closed c refl f l

  -- In any interleaving of the connections, in which each has a number of its own and no worker
  -- registers under the name of one that is still connected, a registry that is right stays so: it
  -- holds the workers of the registered connections, each under its name, and no other.
  pub run-IsRight :
      (es : List (ℕ × Event S)) (c : Cluster S) → AreFresh es c → IsRight c → IsRight (run es c)
  unfolding run
  run-IsRight [] c h l = l
  run-IsRight ((n, e) ∷ es) c h l = run-IsRight es (step n e c) h.1 (step-IsRight n e c h.0 l)

  abbrev pub empty : Cluster S
  empty = record { tasks = []; workers = [] }

  -- While the connection n of a worker is registered, a new connection m registers under the same name.
  -- When n ends then, m is still registered, but the registry has no worker of the name any more.
  pub reconnect-unlisted :
      (c : Cluster S) (n m : ℕ) (w : WorkerInfo S) (tx : S) (address : Text) (cpus : ℕ)
      → n ≢ m
      → lookup n c.tasks ≡ some (registered w)
      → lookup m c.tasks ≡ some (waiting tx)
      → let d = run ((m, message (register w.id address cpus)) ∷ (n, closed) ∷ []) c in
        (worker_at d m
          ≡ some (record { id = w.id; address = address; available_cpus = cpus; sender = tx }))
        × (lookup w.id d.workers ≡ none)
  unfolding run step act register_step
  reconnect-unlisted c n m w tx address cpus ne old new =
      let w' : WorkerInfo S = record {
        id = w.id;
        address = address;
        available_cpus = cpus;
        sender = tx;
      } in
      let e = message (register w.id address cpus) in
      let c1 = act m (some (waiting tx)) e c in
      let first : step m e c ≡ c1 = ap (λ o. act m o e c) new in
      let kept : lookup n c1.tasks ≡ some (registered w) =
        ground (arith, ne, old, lookup-insert m n (registered w') c.tasks, ==_iff m n) in
      let second : step n closed c1 ≡ act n (some (registered w)) closed c1 =
        ap (λ o. act n o closed c1) kept in
      let both : run ((m, e) ∷ (n, closed) ∷ []) c ≡ act n (some (registered w)) closed c1 =
        ap (step n closed) first ∙ second in
      rw both (
        ground (
          arith,
          ne,
          ==_iff n m,
          ==_iff m m,
          worker_at-erase n m c1,
          worker_at-insert m m (registered w') c,
        ),
        ground (arith, lookup-erase w.id w.id c1.workers, text_eq_refl w.id),
      )

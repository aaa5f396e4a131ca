-- ===== src/Http/Run/Hops.antt =====
-- What the two loops of src/bridge/http_sync.rs send: how many requests, and which.
use fusillade.Prelude.{
  ℕ, zero, suc, ◌+◌, ◌≤◌, ◌<◌, Bool, true, false, not, ◌&&◌, List, [], ◌∷◌, ◌++◌, Option, none,
  some, Text, codes, text_eq, ltb, ◌≡◌, refl, ap, ◌∙◌, ◌⊎◌, inl, inr, arith, All, byte_len, get_or,
  length, append_assoc, Bool-cases, ltb→lt, Option-cases, Result, ok, err,
}
use fusillade.Stats.Types.{Metric}
use fusillade.Http.{
  Net, Headers, Request, Response, without_content, redirect_target, header, estimate_request_size,
}
use fusillade.Http.Follow.{
  Hop, Worker, HyperResponse, UreqResponse, Clock, Call, follow, redirected, request_of, metric_of,
  failed_response,
}
use fusillade.Http.Run.{
  Round, stop, next, first_hop, rounds, go_on, unless, sending, bridge_answer, ureq_end,
  ureq_answer, bridge_round, ureq_round, run_bridge_request, execute_ureq_request,
}

-- The parts of the call, or what is left of them once a redirect has made it a GET.
abbrev pub IsPart : Text → Headers → Option Text → Hop → Type 0
IsPart method hs body h =
    ((h.method ≡ method) × (h.headers ≡ hs) × (h.body ≡ body))
    ⊎ ((h.method ≡ codes "GET") × (h.headers ≡ without_content hs) × (h.body ≡ none))

not_get :
    (method : Text) (collapse : Bool)
    → method ≡ codes "GET"
    → (collapse && not (text_eq method (codes "GET")) && not (text_eq method (codes "HEAD"))) ≡ true
    → ⊥
unfolding text_eq
not_get method true e c = let c' : false ≡ true = rw e at c in cc
not_get method false e c = cc

redirected-IsPart :
    (method : Text) (hs : Headers) (body : Option Text) (url : Text) (collapse : Bool) (h : Hop)
    → IsPart method hs body h
    → IsPart method hs body (redirected url collapse h)
unfolding redirected
redirected-IsPart method hs body url collapse h (inl p) =
    elim (Bool-cases
      (collapse && not (text_eq h.method (codes "GET")) && not (text_eq h.method (codes "HEAD")))) [
        | inl c ↦ rw c (inr (refl, ap without_content p.1, refl))
        | inr c ↦ rw c (inl p)
      ]
redirected-IsPart method hs body url collapse h (inr p) =
    elim (Bool-cases
      (collapse && not (text_eq h.method (codes "GET")) && not (text_eq h.method (codes "HEAD")))) [
        | inl c ↦ absurd (not_get h.method collapse p.0 c)
        | inr c ↦ rw c (inr p)
      ]

redirected-hops :
    (url : Text) (collapse : Bool) (h : Hop) → (redirected url collapse h).hops ≡ h.hops + 1
unfolding redirected
redirected-hops url collapse h = ground arith

-- A request that carries such parts, and the cookies that the jar has for its own address.
abbrev pub IsSent : (net : Net) → Text → Headers → Option Text → Request → Type 0
IsSent net method hs body r =
    (h : Hop) × (jar : net.Jar) × IsPart method hs body h × (r ≡ request_of net h jar)

-- The loop ended, within so many rounds; the metric is the one of the answer.
abbrev pub Ends :
    (net : Net) {F : Type 0}
    → Call
    → Text
    → Headers
    → Option Text
    → ℕ
    → Hop
    → Worker net.Jar
    → Option (Response × Metric F × Worker net.Jar)
    → Type 0
Ends net call method hs body fuel h w result =
    (r : Response) × (m : Metric _) × (w' : Worker net.Jar) × (more : List Request) × (result
      ≡ some (r, m, w'))
    × (w'.sent ≡ w.sent ++ (request_of net h w.jar ∷ more))
    × (length more < fuel)
    × All (IsSent net method hs body) more
    × ((error : Option Text) × (m ≡ metric_of call r.timings r.status error))

-- What one round may do: it sends the request of its hop, and ends with the metric of its answer, or
-- goes on to the next hop.
module _ (net : Net) (call : Call) where
  open net use {Jar}

  abbrev IsRound : {F : Type 0} → Hop → Worker Jar → Round F Jar → Type 0
  IsRound h w (stop r m w') =
      (w'.sent ≡ w.sent ++ (request_of net h w.jar ∷ []))
      × ((error : Option Text) × (m ≡ metric_of call r.timings r.status error))
  IsRound h w (next h' w') =
      (w'.sent ≡ w.sent ++ (request_of net h w.jar ∷ []))
      × (h.hops < call.max_redirects)
      × ((url : Text) × (collapse : Bool) × (h' ≡ redirected url collapse h))

  follow-some :
      (status : ℕ) (hs : Headers) (h h' : Hop)
      → follow net call.max_redirects status hs h ≡ some h'
      → (h.hops < call.max_redirects)
        × ((url : Text) × (collapse : Bool) × (h' ≡ redirected url collapse h))
  unfolding follow
  follow-some status hs h h' e = elim (Bool-cases (ltb h.hops call.max_redirects)) [
    | inr over ↦ absurd (cc (rw over at e))
    | inl more ↦
        elim (Option-cases
          (redirect_target net status (header (codes "location") hs) h.current_url)) [
            | inl nowhere ↦ absurd (cc (rw (more, nowhere) at e))
            | inr (t, there) ↦
                let e' : some (redirected t.0 t.1 h) ≡ some h' = rw (more, there) at e in
                (ltb→lt _ _ more, (t.0, t.1, cc))
          ]
  ]

  follow-cases :
      {F : Type 0} (h : Hop) (w w' : Worker Jar) (status : ℕ) (hs : Headers) (end : Round F Jar)
      → w'.sent ≡ w.sent ++ (request_of net h w.jar ∷ [])
      → IsRound h w end
      → IsRound h w (unless (follow net call.max_redirects status hs h) w' end)
  follow-cases h w w' status hs end s e =
      elim (Option-cases (follow net call.max_redirects status hs h)) [
        | inl end_here ↦ rw end_here e
        | inr (h', on) ↦
            rw on (s, (follow-some status hs h h' on).0, (follow-some status hs h h' on).1)
      ]

  module _ (F : Type 0) (clock : Clock) where
    bridge_answer-IsRound :
        (h : Hop) (w : Worker Jar) (answer : Result HyperResponse Text)
        → IsRound h w (bridge_answer {F = F} net clock call h (sending net h w) answer)
    unfolding bridge_answer failed_response
    bridge_answer-IsRound h w (err message) = (refl, (some message, refl))
    bridge_answer-IsRound h w (ok raw) = follow-cases h w _ _ _ _ refl (refl, (none, refl))

    ureq_answer-IsRound :
        (size : ℕ) (h : Hop) (w : Worker Jar) (answer : Result UreqResponse Text)
        → IsRound h w (ureq_answer {F = F} net clock call size h (sending net h w) answer)
    unfolding ureq_answer ureq_end failed_response
    ureq_answer-IsRound size h w (err message) = (refl, (some message, refl))
    ureq_answer-IsRound size h w (ok raw) = follow-cases h w _ _ _ _ refl (refl, (none, refl))

  -- As many rounds as redirects are left, and one more, end.
  module _ {F : Type 0} (round : Hop → Worker Jar → Round F Jar) (method : Text) (hs : Headers)
      (body : Option Text) where
    go_on-Ends :
        (fuel : ℕ) (h : Hop) (w : Worker Jar) (r : Round F Jar)
        (rest : Hop → Worker Jar → Option (Response × Metric F × Worker Jar))
        → ((h' : Hop) (w' : Worker Jar)
            → call.max_redirects < fuel + h'.hops
            → h'.hops ≤ call.max_redirects
            → IsPart method hs body h'
            → Ends net call method hs body fuel h' w' (rest h' w'))
        → call.max_redirects < suc fuel + h.hops
        → IsPart method hs body h
        → IsRound h w r
        → Ends net call method hs body (suc fuel) h w (go_on r rest)
    unfolding go_on
    go_on-Ends fuel h w (stop r m w') rest ih l p (s, error) =
        (r, m, w', [], refl, s, omega arith, tt, error)
    go_on-Ends fuel h w (next h' w') rest ih l p (s, below, (url, collapse, e)) =
        let part : IsPart method hs body h' =
          rw e (redirected-IsPart method hs body url collapse h p) in
        let count = ap (λ (x : Hop). x.hops) e ∙ redirected-hops url collapse h in
        let (r, m, w'', more, e', s', n, all, error) = ih h' w' (omega arith) (omega arith) part in
        (
          r,
          m,
          w'',
          request_of net h' w'.jar ∷ more,
          e',
          s' ∙ ap (λ l. l ++ (request_of net h' w'.jar ∷ more)) s ∙ append_assoc w.sent _ _,
          omega arith,
          ((h', w'.jar, part, refl), all),
          error,
        )

    rounds-Ends :
        ((h : Hop) (w : Worker Jar) → IsRound h w (round h w))
        → (fuel : ℕ) (h : Hop) (w : Worker Jar) → call.max_redirects < fuel + h.hops
        → h.hops ≤ call.max_redirects
        → IsPart method hs body h
        → Ends net call method hs body fuel h w (rounds round fuel h w)
    unfolding rounds
    rounds-Ends each zero h w l k p = absurd (omega arith)
    rounds-Ends each (suc fuel) h w l k p =
        go_on-Ends fuel h w (round h w) (rounds round fuel)
          (λ h' w' l' k' p'. rounds-Ends each fuel h' w' l' k' p') l p (each h w)

-- Both ways of sending a request end, for every server: after the request itself at most
-- `max_redirects` others go out. Each of them has the method, the headers and the body of the call, or is
-- a GET without a body and without the headers that speak of one, and has the cookies of its own
-- address only. One metric is returned, under the name of the call, with the status of the response.
pub requests-end :
    (F : Type 0) (net : Net) (clock : Clock) (call : Call)
    (bridge : List Request → Result HyperResponse Text)
    (agent : List Request → Result UreqResponse Text) (method : Text) (hs : Headers)
    (body : Option Text) (w : Worker net.Jar)
    → Ends net {F = F} call method hs body
        (suc call.max_redirects)
        (first_hop call method hs body)
        w
        (run_bridge_request net clock call bridge method hs body w)
      × Ends net {F = F} call method hs body
          (suc call.max_redirects)
          (first_hop call method hs body)
          w
          (execute_ureq_request net clock call agent method hs body w)
unfolding run_bridge_request execute_ureq_request bridge_round ureq_round
requests-end F net clock call bridge agent method hs body w = (
  rounds-Ends net call (bridge_round net clock call bridge) method hs body
      (λ h w. bridge_answer-IsRound net call F clock h w (bridge (sending net h w).sent))
      (suc call.max_redirects) (first_hop call method hs body) w (omega arith) (omega arith)
      (inl (refl, refl, refl)),
  let size = estimate_request_size method call.url hs (byte_len (get_or body [])) in
      rounds-Ends net call (ureq_round net clock call agent size) method hs body
        (λ h w. ureq_answer-IsRound net call F clock size h w (agent (sending net h w).sent))
        (suc call.max_redirects) (first_hop call method hs body) w (omega arith) (omega arith)
        (inl (refl, refl, refl)),
)

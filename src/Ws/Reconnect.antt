-- ===== src/Ws/Reconnect.antt =====
-- Reconnecting in src/bridge/ws.rs: how often it is tried, how long it takes, and when it is not tried.
use fusillade.Prelude.{
  ℕ, zero, suc, ◌+◌, ◌≤◌, ◌<◌, true, false, List, [], ◌∷◌, ◌++◌, none, some, Text, length, Result,
  ok, err, ◌≡◌, refl, ap, sym, ◌∙◌, arith, append_assoc, append-nil,
}
use fusillade.Ws.{
  Sockets, WebSocket, backoff_delay, attempts, attempt_reconnect, ensure_connected, read_result,
  read_on, recv,
}

-- the delays of so many attempts, from one on
abbrev pub delays : ℕ → ℕ → List ℕ
delays attempt zero = []
delays attempt (suc n) = backoff_delay attempt ∷ delays (attempt + 1) n

abbrev pub failures : {S : Type 0} → List Text → List (Result S Text) → List (Result S Text)
failures [] rest = rest
failures (e ∷ es) rest = err e ∷ failures es rest

module _ {F : Type 0} {lib : Sockets} (clock : ℕ → ℕ) where
  open lib use {S}

  attempts-found :
      (es : List Text) (s : S) (rest : List (Result S Text)) (left attempt : ℕ)
      (w : WebSocket F lib)
      → length es < left
      → ((attempts clock (failures es (ok s ∷ rest)) left attempt w).1 ≡ true)
        × ((attempts clock (failures es (ok s ∷ rest)) left attempt w).0.inner ≡ some s)
        × ((attempts clock (failures es (ok s ∷ rest)) left attempt w).0.outcomes ≡ rest)
        × ((attempts clock (failures es (ok s ∷ rest)) left attempt w).0.slept
            ≡ w.slept ++ delays attempt (suc (length es)))
  unfolding attempts
  attempts-found es s rest zero attempt w h = absurd (omega arith)
  attempts-found [] s rest (suc left) attempt w h = (refl, refl, refl, refl)
  attempts-found (e ∷ es) s rest (suc left) attempt w h =
      let (a, b, c, d) = attempts-found es s rest left (attempt + 1) _ (omega arith) in
      (a, b, c, d ∙ append_assoc w.slept (backoff_delay attempt ∷ []) _)

  attempts-exhausted :
      (es : List Text) (rest : List (Result S Text)) (left attempt : ℕ) (w : WebSocket F lib)
      → left ≤ length es
      → ((attempts clock (failures es rest) left attempt w).1 ≡ false)
        × ((attempts clock (failures es rest) left attempt w).0.inner ≡ w.inner)
        × ((attempts clock (failures es rest) left attempt w).0.slept
            ≡ w.slept ++ delays attempt left)
  unfolding attempts
  attempts-exhausted es rest zero attempt w h = (refl, refl, sym (append-nil w.slept))
  attempts-exhausted [] rest (suc left) attempt w h = absurd (omega arith)
  attempts-exhausted (e ∷ es) rest (suc left) attempt w h =
      let (a, b, c) = attempts-exhausted es rest left (attempt + 1) _ (omega arith) in
      (a, b, c ∙ append_assoc w.slept (backoff_delay attempt ∷ []) _)

  reconnect_lem :
      (w : WebSocket F lib) (outcomes : List (Result S Text))
      → w.inner ≡ none
      → w.reconnect ≡ true
      → w.outcomes ≡ outcomes
      → ensure_connected clock w ≡ attempts clock outcomes w.max_retries 0 w
  unfolding ensure_connected attempt_reconnect
  reconnect_lem w outcomes gone asked out =
      let e : ensure_connected clock w ≡ attempts clock w.outcomes w.max_retries 0 w =
        ground arith in
      e ∙ ap (λ o. attempts clock o w.max_retries 0 w) out

  connected_lem :
      (w : WebSocket F lib) (s : S) → w.inner ≡ some s → ensure_connected clock w ≡ (w, true)
  unfolding ensure_connected
  connected_lem w s there = ground arith

  recv-connected :
      (w : WebSocket F lib) (s : S)
      → w.inner ≡ some s
      → recv clock w ≡ read_result clock w (lib.read s)
  unfolding recv read_on
  recv-connected w s there = rw (connected_lem w s there, there) refl

-- A socket that is gone and may reconnect: where fewer attempts fail than are allowed, the next one's
-- socket is used, and the delays are those of the attempts up to it; where as many fail, the socket stays
-- gone, after the delays of all attempts that are allowed.
pub ensure_connected-tries :
    (F : Type 0) (lib : Sockets) (clock : ℕ → ℕ) (w : WebSocket F lib) (es : List Text) (s : lib.S)
    (rest : List (Result lib.S Text))
    → w.inner ≡ none
    → w.reconnect ≡ true
    → w.outcomes ≡ failures es (ok s ∷ rest)
    → let (w', connected) = ensure_connected clock w in
      (length es < w.max_retries
        → (connected ≡ true)
          × (w'.inner ≡ some s)
          × (w'.outcomes ≡ rest)
          × (w'.slept ≡ w.slept ++ delays 0 (suc (length es))))
      × (w.max_retries ≤ length es
          → (connected ≡ false)
            × (w'.inner ≡ none)
            × (w'.slept ≡ w.slept ++ delays 0 w.max_retries))
ensure_connected-tries F lib clock w es s rest gone asked out = (
  λ few.
      rw (reconnect_lem clock w (failures es (ok s ∷ rest)) gone asked out)
        (attempts-found clock es s rest w.max_retries 0 w few),
  λ many.
      let (a, b, c) = attempts-exhausted clock es (ok s ∷ rest) w.max_retries 0 w many in
      rw (reconnect_lem clock w (failures es (ok s ∷ rest)) gone asked out) (a, b ∙ gone, c),
)

-- A failed read leaves the socket in place: a script gets an exception, and the next call, of `send` or of
-- `recv`, takes the socket for connected and does not reconnect, even where that was asked for.
recv-failed :
    (F : Type 0) (lib : Sockets) (clock : ℕ → ℕ) (w : WebSocket F lib) (s s' : lib.S) (e : Text)
    → w.inner ≡ some s
    → lib.read s ≡ (s', err e)
    → ((recv clock w).1 ≡ none)
      × ((recv clock w).0.inner ≡ some s')
      × (ensure_connected clock (recv clock w).0 ≡ ((recv clock w).0, true))
unfolding read_result
recv-failed F lib clock w s s' e there failed =
    let end = recv-connected clock w s there ∙ ap (read_result clock w) failed in
    rw end (refl, refl, connected_lem clock _ s' refl)

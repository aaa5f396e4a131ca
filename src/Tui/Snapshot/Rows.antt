-- ===== src/Tui/Snapshot/Rows.antt =====
-- The rows that the dashboard of src/tui/mod.rs shows, and their order.
use mathlib.Core.List.Permᴰ
use mathlib.Core.List.{Permᴰ}
use fusillade.Prelude.{
  leb, map, erase, text_key, codes, Text, ℕ, Bool, true, false, List, [], ◌∷◌, ◌≡◌, refl, arith,
  All, Bool-cases, inl, inr,
}
use mathlib.Core.Path.{subst}
use fusillade.Float.{Float}
use fusillade.Stats.Types.{HistogramLib}
use fusillade.Stats.Report.{to_report, RequestReport}
use fusillade.Stats.Sharded.{Sharded, merge}
use fusillade.Tui.Snapshot.{
  EndpointRow, insert_by, sort_by, code_before, row_before, rows_of, snapshot_of, refresh_snapshot,
}

-- Each element may stand before all that follow.
abbrev pub IsSorted : {A : Type 0} → (A → A → Bool) → List A → Type 0
IsSorted before [] = Unit
IsSorted before (x ∷ xs) = All (λ y. before x y ≡ true) xs × IsSorted before xs

module _ (A : Type 0) (before : A → A → Bool)
    (total : (x y : A) → before x y ≡ false → before y x ≡ true)
    (transitive : (x y z : A) → before x y ≡ true → before y z ≡ true → before x z ≡ true) where
  All-weaken :
      (x y : A) (ys : List A)
      → before x y ≡ true
      → All (λ z. before y z ≡ true) ys
      → All (λ z. before x z ≡ true) ys
  All-weaken x y [] h k = tt
  All-weaken x y (z ∷ zs) h k = (transitive x y z h k.0, All-weaken x y zs h k.1)

  All-insert_by :
      (P : A → Type 0) (x : A) (ys : List A) → P x → All P ys → All P (insert_by before x ys)
  unfolding insert_by
  All-insert_by P x [] h k = (h, tt)
  All-insert_by P x (y ∷ ys) h k = elim (Bool-cases (before x y)) [
    | inl e ↦ rw e (h, k)
    | inr e ↦ rw e (k.0, All-insert_by P x ys h k.1)
  ]

  insert_by-IsSorted :
      (x : A) (ys : List A) → IsSorted before ys → IsSorted before (insert_by before x ys)
  unfolding insert_by
  insert_by-IsSorted x [] h = (tt, tt)
  insert_by-IsSorted x (y ∷ ys) h = elim (Bool-cases (before x y)) [
    | inl e ↦ rw e ((e, All-weaken x y ys e h.0), h)
    | inr e ↦
        rw e (
          All-insert_by (λ z. before y z ≡ true) x ys (total x y e) h.0,
          insert_by-IsSorted x ys h.1,
        )
  ]

  insert_by-Perm : (x : A) (ys : List A) → Permᴰ (insert_by before x ys) (x ∷ ys)
  unfolding insert_by
  insert_by-Perm x [] = Permᴰ.refl (x ∷ [])
  insert_by-Perm x (y ∷ ys) = elim (Bool-cases (before x y)) [
    | inl e ↦ rw e (Permᴰ.refl (x ∷ y ∷ ys))
    | inr e ↦ rw e (Permᴰ.trans (Permᴰ.cons refl (insert_by-Perm x ys)) (Permᴰ.swap refl refl))
  ]

  sort_by-IsSorted :
      (xs : List A) → IsSorted before (sort_by before xs) × Permᴰ (sort_by before xs) xs
  unfolding sort_by
  sort_by-IsSorted [] = (tt, Permᴰ.nil)
  sort_by-IsSorted (x ∷ xs) =
      let (sorted, same) = sort_by-IsSorted xs in
      (
        insert_by-IsSorted x (sort_by before xs) sorted,
        Permᴰ.trans (insert_by-Perm x (sort_by before xs)) (Permᴰ.cons refl same),
      )

row_total : (F : Type 0) (x y : EndpointRow F) → row_before x y ≡ false → row_before y x ≡ true
row_total F x y h = ground arith

row_trans :
    (F : Type 0) (x y z : EndpointRow F)
    → row_before x y ≡ true
    → row_before y z ≡ true
    → row_before x z ≡ true
row_trans F x y z h k = ground arith

code_total : (x y : ℕ × ℕ) → code_before x y ≡ false → code_before y x ≡ true
code_total x y h = ground arith

code_trans :
    (x y z : ℕ × ℕ) → code_before x y ≡ true → code_before y z ≡ true → code_before x z ≡ true
code_trans x y z h k = ground arith

-- The rows for endpoints, and how they and the status codes are to stand.
abbrev pub shown_rows : {F : Type 0} → List (Text × RequestReport F) → List (EndpointRow F)
shown_rows m =
    map
      (λ p. record {
        name = p.0;
        reqs = (p.1).total_requests;
        avg_ms = (p.1).avg_latency_ms;
        p95_ms = (p.1).p95_latency_ms;
        errors = (p.1).error_count;
      })
      m

abbrev pub is_busier : {F : Type 0} → EndpointRow F → EndpointRow F → Bool
is_busier a b = leb b.reqs a.reqs

abbrev pub is_lower : ℕ × ℕ → ℕ × ℕ → Bool
is_lower a b = leb a.0 b.0

rows_of-erase :
    (F : Type 0) (m : List (Text × RequestReport F))
    → rows_of m ≡ shown_rows (erase (codes "iteration") (erase (codes "iteration_total") m))
unfolding rows_of erase
rows_of-erase F [] = refl
rows_of-erase F ((name, r) ∷ m) = ground (arith, rows_of-erase F m)

-- The dashboard shows, of the merged shards, a row for each endpoint but those called "iteration" and
-- "iteration_total", with its name, requests, latencies and errors, none with fewer requests before one with
-- more; and every status code with its count, in increasing order.
pub refresh_snapshot-IsSorted :
    (fl : Float) (hl : HistogramLib) (elapsed : ℕ) (aggregator : Sharded fl hl)
    → let s = refresh_snapshot fl hl elapsed aggregator in
      let r = to_report fl hl (merge fl hl aggregator) in
      (IsSorted is_busier s.endpoints
        × Permᴰ s.endpoints (
            shown_rows
              (erase (codes "iteration") (erase (codes "iteration_total") r.grouped_requests))))
      × (IsSorted is_lower s.status_codes × Permᴰ s.status_codes r.status_codes)
unfolding refresh_snapshot snapshot_of
refresh_snapshot-IsSorted fl hl elapsed aggregator =
    let r = to_report fl hl (merge fl hl aggregator) in
    let (sorted, same) =
      sort_by-IsSorted (EndpointRow fl.F) row_before (row_total fl.F) (row_trans fl.F)
        (rows_of r.grouped_requests) in
    let shown =
      subst (Permᴰ (sort_by row_before (rows_of r.grouped_requests)))
        (rows_of-erase fl.F r.grouped_requests) same in
    ((sorted, shown), sort_by-IsSorted (ℕ × ℕ) code_before code_total code_trans r.status_codes)

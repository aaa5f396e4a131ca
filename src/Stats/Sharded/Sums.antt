-- ===== src/Stats/Sharded/Sums.antt =====
-- Sums over the shards in a commutative semigroup, and what `merge_map` does to one key.
use fusillade.Prelude.{
  ℕ, zero, suc, ◌≡◌, refl, sym, ◌∙◌, ap, List, [], ◌∷◌, some, arith, Key, lookup, update,
  lookup-update, opt_plus, IsCounts, All, Option-cases, inl, inr,
}
use fusillade.Stats.Sharded.{merge_map, modify, copies}

module _ {K V : Type 0} (k : Key K) (f : V → V → V) (d : V) where
  pub lookup-merge_map :
      (q : K) (s m : List (K × V))
      → IsCounts k f d s
      → lookup ⦃k = k⦄ q (merge_map ⦃k = k⦄ f d s m)
        ≡ opt_plus f (lookup ⦃k = k⦄ q m) (lookup ⦃k = k⦄ q s)
  unfolding merge_map lookup
  lookup-merge_map q [] m c = ground arith
  lookup-merge_map q ((j, w) ∷ s) m c = ground (
    arith,
    k.beq_iff j q,
    lookup-merge_map q s (update ⦃k = k⦄ j d (λ v. f v w) m) c.2,
    lookup-update ⦃k = k⦄ j q d (λ v. f v w) m,
  )

modify-zero :
    {S : Type 0} (g : S → S) (s : S) (ss : List S) {ss' : List S}
    → modify g zero (s ∷ ss) ≡ some ss'
    → g s ∷ ss ≡ ss'
unfolding modify
modify-zero g s ss e = ground arith

modify-suc :
    {S : Type 0} (g : S → S) (i : ℕ) (s : S) (ss : List S) {ss' : List S}
    → modify g (suc i) (s ∷ ss) ≡ some ss'
    → (ys : List S) × (modify g i ss ≡ some ys) × (s ∷ ys ≡ ss')
unfolding modify
modify-suc g i s ss e = elim (Option-cases (modify g i ss)) [
  | inl n ↦ absurd (ground arith)
  | inr (ys, h) ↦ (ys, h, ground arith)
]

module _ {S M : Type 0} (plus : M → M → M) (v : S → M) where
  unfoldable pub sum_from : M → List S → M
  sum_from u [] = u
  sum_from u (s ∷ ss) = sum_from (plus u (v s)) ss

  pub sum_from-copies :
      (u : M) (n : ℕ) (x : S) → plus u u ≡ u → v x ≡ u → sum_from u (copies n x) ≡ u
  unfolding sum_from copies
  sum_from-copies u zero x h e = refl
  sum_from-copies u (suc n) x h e =
      ap (λ y. sum_from y (copies n x)) (ap (plus u) e ∙ h) ∙ sum_from-copies u n x h e

module _ {S M : Type 0} (plus : M → M → M) (v : S → M)
    (assoc : (x y z : M) → plus (plus x y) z ≡ plus x (plus y z))
    (comm : (x y : M) → plus x y ≡ plus y x) where
  plus_swap : (x y z : M) → plus (plus x y) z ≡ plus (plus x z) y
  plus_swap x y z = assoc x y z ∙ ap (plus x) (comm y z) ∙ sym (assoc x z y)

  sum_from-plus :
      (u x : M) (ss : List S) → sum_from plus v (plus u x) ss ≡ plus (sum_from plus v u ss) x
  unfolding sum_from
  sum_from-plus u x [] = refl
  sum_from-plus u x (s ∷ ss) =
      ap (λ y. sum_from plus v y ss) (plus_swap u x (v s)) ∙ sum_from-plus (plus u (v s)) x ss

  pub sum_from-modify :
      (P : S → Type 0) (g : S → S) (δ : M)
      → ((s : S) → P s → v (g s) ≡ plus (v s) δ)
      → (i : ℕ) (u : M) (ss : List S) {ss' : List S} → modify g i ss ≡ some ss'
      → All P ss
      → sum_from plus v u ss' ≡ plus (sum_from plus v u ss) δ
  unfolding sum_from modify
  sum_from-modify P g δ h i u [] e p = cc
  sum_from-modify P g δ h zero u (s ∷ ss) e p = rw (← modify-zero g s ss e) (
      ap (λ y. sum_from plus v (plus u y) ss) (h s p.0)
      ∙ ap (λ y. sum_from plus v y ss) (sym (assoc u (v s) δ))
      ∙ sum_from-plus (plus u (v s)) δ ss)
  sum_from-modify P g δ h (suc i) u (s ∷ ss) e p =
      let (ys, m, e') = modify-suc g i s ss e in
      rw (← e') (sum_from-modify P g δ h i (plus u (v s)) ss m p.1)

-- ===== src/Prelude/Counts.antt =====
-- Maps that are merged by an operation `f` on their values, with the default `d`: what a merge does
-- to each key. The operation of the sums is associative and commutative.
use fusillade.Prelude.Maps.{Key, lookup, update, lookup-update}
use mathlib.Core.Path.{◌≡◌, refl}
use mathlib.Core.List.{List, [], ◌∷◌}
use mathlib.Core.Option.{Option, none, some}
use native.Mathlib.Omega.{arith}

abbrev pub opt_plus : {V : Type 0} → (V → V → V) → Option V → Option V → Option V
opt_plus f none y = y
opt_plus f (some x) none = some x
opt_plus f (some x) (some y) = some (f x y)

module _ {V : Type 0} (f : V → V → V) where
  pub opt_plus_assoc :
      ((x y z : V) → f (f x y) z ≡ f x (f y z))
      → (a b c : Option V) → opt_plus f (opt_plus f a b) c ≡ opt_plus f a (opt_plus f b c)
  opt_plus_assoc h (some x) (some y) (some z) = rw (h x y z)
  opt_plus_assoc h none b c = refl
  opt_plus_assoc h (some x) none c = refl
  opt_plus_assoc h (some x) (some y) none = refl

  pub opt_plus_comm :
      ((x y : V) → f x y ≡ f y x) → (a b : Option V) → opt_plus f a b ≡ opt_plus f b a
  opt_plus_comm h (some x) (some y) = rw (h x y)
  opt_plus_comm h none none = refl
  opt_plus_comm h none (some y) = refl
  opt_plus_comm h (some x) none = refl

module _ {K V : Type 0} (k : Key K) (f : V → V → V) (d : V) where
  -- The keys differ, and each value is one that the default does not change.
  abbrev pub IsCounts : List (K × V) → Type 0
  IsCounts [] = Unit
  IsCounts ((j, w) ∷ m) = (lookup ⦃k = k⦄ j m ≡ none) × (f d w ≡ w) × IsCounts m

  pub update-IsCounts :
      (q : K) (g : V → V) (m : List (K × V))
      → f d d ≡ d
      → ((v : V) → f d v ≡ v → f d (g v) ≡ g v)
      → IsCounts m
      → IsCounts (update ⦃k = k⦄ q d g m)
  unfolding update lookup
  update-IsCounts q g [] z h c = (refl, h d z, tt)
  update-IsCounts q g ((j, w) ∷ m) z h c = ground (
    arith,
    h w c.1,
    k.beq_iff j q,
    k.beq_iff q j,
    lookup-update ⦃k = k⦄ q j d g m,
    update-IsCounts q g m z h c.2,
  )

  pub lookup-normal :
      (q : K) (m : List (K × V)) (v : V) → lookup ⦃k = k⦄ q m ≡ some v → IsCounts m → f d v ≡ v
  unfolding lookup
  lookup-normal q [] v e c = cc
  lookup-normal q ((j, w) ∷ m) v e c = ground (arith, lookup-normal q m v)

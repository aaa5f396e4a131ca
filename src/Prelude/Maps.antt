-- ===== src/Prelude/Maps.antt =====
-- A `HashMap<String, V>` as an association list. The order of the entries stands for the order,
-- unspecified in Rust, in which the map is walked.
use Prim.Native.Nat.{ℕ}
use mathlib.Core.Path.{◌≡◌, refl}
use mathlib.Core.Bool.{Bool, true}
use mathlib.Core.List.{List, [], ◌∷◌}
use mathlib.Core.Option.{Option, none, some}
use native.Mathlib.Omega.{arith}
use fusillade.Prelude.Tests.{◌==◌, ==_iff, if◌then◌else◌}
use fusillade.Prelude.Texts.{Text, text_eq, text_eq_iff}

-- A type of keys with its `==`.
pub record Key {ℓ} (K : Type ℓ) : Type ℓ where
  pub beq : K → K → Bool
  pub beq_iff : (a b : K) → ((beq a b ≡ true) → a ≡ b) × (a ≡ b → beq a b ≡ true)

instance abbrev pub text_key : Key Text
text_key = record { beq = text_eq; beq_iff = text_eq_iff }

instance abbrev pub nat_key : Key ℕ
nat_key = record { beq = ◌==◌; beq_iff = ==_iff }

abbrev pub get_or {ℓ} : {V : Type ℓ} → Option V → V → V
get_or none d = d
get_or (some v) d = v

module _ {ℓ} {K : Type ℓ} {V : Type ℓ} ⦃k : Key K⦄ where
  -- `get`
  unfoldable pub lookup : K → List (K × V) → Option V
  lookup q [] = none
  lookup q ((j, v) ∷ m) = if k.beq j q then some v else lookup q m

  -- `insert`
  unfoldable pub insert : K → V → List (K × V) → List (K × V)
  insert q v [] = (q, v) ∷ []
  insert q v ((j, w) ∷ m) = if k.beq j q then (j, v) ∷ m else (j, w) ∷ insert q v m

  -- `remove`
  unfoldable pub erase : K → List (K × V) → List (K × V)
  erase q [] = []
  erase q ((j, w) ∷ m) = if k.beq j q then erase q m else (j, w) ∷ erase q m

  -- `*m.entry(q).or_insert(d) = f(…)`
  unfoldable pub update : K → V → (V → V) → List (K × V) → List (K × V)
  update q d f [] = (q, f d) ∷ []
  update q d f ((j, w) ∷ m) = if k.beq j q then (j, f w) ∷ m else (j, w) ∷ update q d f m

  pub lookup-insert :
      (q j : K) (v : V) (m : List (K × V))
      → lookup j (insert q v m) ≡ (if k.beq q j then some v else lookup j m)
  unfolding lookup insert
  lookup-insert q j v [] = refl
  lookup-insert q j v ((i, w) ∷ m) =
      ground (arith, k.beq_iff q j, k.beq_iff i q, k.beq_iff i j, lookup-insert q j v m)

  pub lookup-update :
      (q j : K) (d : V) (f : V → V) (m : List (K × V))
      → lookup j (update q d f m)
        ≡ (if k.beq q j then some (f (get_or (lookup q m) d)) else lookup j m)
  unfolding lookup update
  lookup-update q j d f [] = refl
  lookup-update q j d f ((i, w) ∷ m) =
      ground (arith, k.beq_iff q j, k.beq_iff i q, k.beq_iff i j, lookup-update q j d f m)

  pub lookup-erase :
      (q j : K) (m : List (K × V)) → lookup j (erase q m) ≡ (if k.beq q j then none else lookup j m)
  unfolding lookup erase
  lookup-erase q j [] = ground arith
  lookup-erase q j ((i, w) ∷ m) =
      ground (arith, k.beq_iff q j, k.beq_iff i q, k.beq_iff i j, lookup-erase q j m)

-- ===== src/Prelude/Numbers.antt =====
-- `str::parse` and `Display` of the unsigned integers.
use Prim.Native.Nat.{ℕ, zero, suc, ◌+◌, ◌-◌, ◌*◌, ◌/◌, ◌%◌, ◌<◌}
use mathlib.Core.Bool.{Bool, true, ◌&&◌}
use mathlib.Core.List.{[], ◌∷◌, ◌++◌}
use mathlib.Core.Logic.{inl, inr}
use mathlib.Core.Option.{Option, none, some}
use mathlib.Core.Path.{◌≡◌, refl, ap, sym, ◌∙◌}
use native.Mathlib.Omega.{arith}
use fusillade.Prelude.Tests.{ltb, leb, ◌==◌, if◌then◌else◌, u64_mod, Bool-cases}
use fusillade.Prelude.Lists.{All, All-append}
use fusillade.Prelude.Texts.{Text}

abbrev pub is_digit : ℕ → Bool
is_digit c = leb b'0' c && leb c b'9'

-- The digits of a `u64`, after those that make up `acc`; an overflow is an error.
unfoldable pub parse_digits : ℕ → Text → Option ℕ
parse_digits acc [] = some acc
parse_digits acc (c ∷ cs) =
    let n = acc * 10 + (c - b'0') in
    let rest = parse_digits n cs in if is_digit c && ltb n u64_mod then rest else none

-- `parse::<u64>`, and `parse::<usize>`: digits, which one plus sign may precede.
unfoldable pub parse_u64 : Text → Option ℕ
unfolding parse_digits
parse_u64 [] = none
parse_u64 (c ∷ []) = parse_digits 0 (c ∷ [])
parse_u64 (c ∷ d ∷ cs) = if c == b'+' then parse_digits 0 (d ∷ cs) else parse_digits 0 (c ∷ d ∷ cs)

-- `{}` of an integer: fuel above the number is enough for its digits.
unfoldable pub show_fuel : ℕ → ℕ → Text
show_fuel zero n = []
show_fuel (suc f) n =
    let rest = show_fuel f (n / 10) in
    if ltb n 10 then (b'0' + n) ∷ [] else rest ++ ((b'0' + n % 10) ∷ [])

unfoldable pub show_ℕ : ℕ → Text
unfolding show_fuel
show_ℕ n = show_fuel (suc n) n

abbrev pub bind {ℓ} : {A B : Type ℓ} → Option A → (A → Option B) → Option B
bind none f = none
bind (some a) f = f a

-- A text that begins with a digit has no sign to skip.
pub parse_first :
    (c : ℕ) (xs : Text) → is_digit c ≡ true → parse_u64 (c ∷ xs) ≡ parse_digits 0 (c ∷ xs)
unfolding parse_u64
parse_first c [] d = refl
parse_first c (x ∷ xs) d = ground arith

pub parse_digits-append :
    (xs ys : Text) (acc : ℕ)
    → parse_digits acc (xs ++ ys) ≡ bind (parse_digits acc xs) (λ n. parse_digits n ys)
unfolding parse_digits
parse_digits-append [] ys acc = refl
parse_digits-append (x ∷ xs) ys acc =
    ground (arith, parse_digits-append xs ys (acc * 10 + (x - b'0')))

parse-show_fuel : (f n : ℕ) → n < f → n < u64_mod → parse_digits 0 (show_fuel f n) ≡ some n
unfolding show_fuel parse_digits
parse-show_fuel zero n h b = absurd (omega arith)
parse-show_fuel (suc f) n h b = ground (
  arith,
  parse-show_fuel f (n / 10),
  parse_digits-append (show_fuel f (n / 10)) ((b'0' + n % 10) ∷ []) 0,
)

pub parse_digits-show : (n : ℕ) → n < u64_mod → parse_digits 0 (show_ℕ n) ≡ some n
unfolding show_ℕ
parse_digits-show n h = parse-show_fuel (suc n) n (omega arith) h

-- The text of a number ends in a digit, and begins with one.
pub show_ℕ-last :
    (n : ℕ) → (xs : Text) × (c : ℕ) × (show_ℕ n ≡ xs ++ (c ∷ [])) × (is_digit c ≡ true)
unfolding show_ℕ show_fuel
show_ℕ-last n = elim (Bool-cases (ltb n 10)) [
  | inl small ↦ ([], b'0' + n, rw small, ground arith)
  | inr large ↦ (show_fuel n (n / 10), b'0' + n % 10, rw large, ground arith)
]

show_fuel-first :
    (f n : ℕ) → n < f → (c : ℕ) × (xs : Text) × (show_fuel f n ≡ c ∷ xs) × (is_digit c ≡ true)
unfolding show_fuel
show_fuel-first zero n h = absurd (omega arith)
show_fuel-first (suc f) n h = elim (Bool-cases (ltb n 10)) [
  | inl small ↦ (b'0' + n, [], rw small, ground arith)
  | inr large ↦
      let (c, xs, e, d) = show_fuel-first f (n / 10) (ground arith) in
      (c, xs ++ ((b'0' + n % 10) ∷ []), rw (large, e), d)
]

pub show_ℕ-first : (n : ℕ) → (c : ℕ) × (xs : Text) × (show_ℕ n ≡ c ∷ xs) × (is_digit c ≡ true)
unfolding show_ℕ
show_ℕ-first n = show_fuel-first (suc n) n (omega arith)

-- Parsing undoes printing, for every value of the type.
pub parse-show : (n : ℕ) → n < u64_mod → parse_u64 (show_ℕ n) ≡ some n
unfolding parse_u64 show_ℕ
parse-show n h =
    let (c, xs, e, d) = show_fuel-first (suc n) n (omega arith) in
    rw e (parse_first c xs d ∙ ap (parse_digits 0) (sym e) ∙ parse_digits-show n h)

show_fuel-digits : (f n : ℕ) → All (λ c. is_digit c ≡ true) (show_fuel f n)
unfolding show_fuel
show_fuel-digits zero n = tt
show_fuel-digits (suc f) n = elim (Bool-cases (ltb n 10)) [
  | inl small ↦ rw small (ground arith, tt)
  | inr large ↦ rw large (
      All-append _ (show_fuel f (n / 10)) ((b'0' + n % 10) ∷ []) (show_fuel-digits f (n / 10))
        (ground arith, tt))
]

pub show_ℕ-digits : (n : ℕ) → All (λ c. is_digit c ≡ true) (show_ℕ n)
unfolding show_ℕ
show_ℕ-digits n = show_fuel-digits (suc n) n

-- ===== src/Scenario/Apart.antt =====
-- Why the endpoints of two scenarios are told apart by their prefixes.
use mathlib.Core.Path.{subst}
use fusillade.Prelude.{
  ℕ, ◌≡◌, ◌≢◌, refl, sym, ap, ◌∙◌, Bool, true, false, not, ◌&&◌, [], ◌∷◌, ◌++◌, Option, Text, codes,
  arith, ◌==◌, All, starts_with, append_assoc, append-nil, Bool-cases, inl, inr, ok, ==_iff,
}
use fusillade.Float.{Float}
use fusillade.Scenario.{check_characters, validate_scenario_name}
use fusillade.Stats.Add.{add, full_name, Agg, join_tags, sort_tags}
use fusillade.Stats.Threshold.{scenario_stats}
use fusillade.Stats.Threshold.Verdict.{scenario_stats-add_request}
use fusillade.Stats.Types.{RequestTimings, request, HistogramLib, Tags}

abbrev NoColon : Text → Type 0
NoColon = All (λ c. (c == b':') ≡ false)

starts_with-apart :
    (s t x : Text)
    → NoColon s
    → NoColon t
    → s ≢ t
    → starts_with (t ++ (b':' ∷ x)) (s ++ codes "::") ≡ false
unfolding starts_with
starts_with-apart [] [] x h k n = absurd (n refl)
starts_with-apart [] (d ∷ t) x h k n = ground (arith, k.0)
starts_with-apart (c ∷ s) [] x h k n = ground (arith, h.0)
starts_with-apart (c ∷ s) (d ∷ t) x h k n = elim (Bool-cases (d == c)) [
  | inl q ↦ rw q (starts_with-apart s t x h.1 k.1 (λ p. n (λ i. sym ((==_iff d c).0 q) i ∷ p i)))
  | inr q ↦ rw q
]

module _ (alphanumeric : ℕ → Bool) (no_colon : alphanumeric b':' ≡ false) where
  abbrev is_invalid : ℕ → Bool
  is_invalid c = not (alphanumeric c) && not (c == b'_') && not (c == b'-') && not (c == b'.')

  colon_free : (c : ℕ) → is_invalid c ≡ false → (c == b':') ≡ false
  colon_free c good = elim (Bool-cases (c == b':')) [
    | inl q ↦ absurd (colon_invalid (subst (λ d. is_invalid d ≡ false) ((==_iff c b':').0 q) good))
    | inr q ↦ q
  ]
    where
      colon_invalid : is_invalid b':' ≢ false
      colon_invalid e = ground (arith, no_colon, e)

  check_characters-NoColon :
      (name : Text) → check_characters alphanumeric name ≡ ok tt → NoColon name
  unfolding check_characters
  check_characters-NoColon [] e = tt
  check_characters-NoColon (c ∷ cs) e = elim (Bool-cases (is_invalid c)) [
    | inl bad ↦ absurd (ground (arith, bad, e))
    | inr good ↦ (colon_free c good, check_characters-NoColon cs (ground (arith, good, e)))
  ]

  valid-NoColon : (name : Text) → validate_scenario_name alphanumeric name ≡ ok tt → NoColon name
  unfolding validate_scenario_name
  valid-NoColon [] e = tt
  valid-NoColon (c ∷ cs) e = check_characters-NoColon (c ∷ cs) (ground (arith, e))

  full_name-append :
      (name rest : Text) (tags : Tags)
      → (after : Text) × (full_name (name ++ rest) tags ≡ name ++ (rest ++ after))
  unfolding full_name
  full_name-append name rest [] = ([], ap (λ r. name ++ r) (sym (append-nil rest)))
  full_name-append name rest (t ∷ ts) =
      let after = b'{' ∷ (join_tags true (sort_tags (t ∷ ts)) ++ (b'}' ∷ [])) in
      (after, append_assoc name rest after)

  -- Where a colon is not alphanumeric, and the names of two scenarios are valid and differ, a request
  -- whose name begins with the one and "::" does not change what the other's thresholds are checked
  -- against.
  pub scenarios-apart :
      (fl : Float) (hl : HistogramLib) (scenario other rest : Text) (t : RequestTimings)
      (status : ℕ) (error : Option Text) (tags : Tags) (a : Agg fl hl)
      → validate_scenario_name alphanumeric scenario ≡ ok tt
      → validate_scenario_name alphanumeric other ≡ ok tt
      → scenario ≢ other
      → scenario_stats fl hl scenario
          (add fl hl (request (other ++ (codes "::" ++ rest)) t status error tags) a)
        ≡ scenario_stats fl hl scenario a
  scenarios-apart fl hl scenario other rest t status error tags a v w n =
      let (after, e) = full_name-append other (codes "::" ++ rest) tags in
      scenario_stats-add_request fl hl scenario (other ++ (codes "::" ++ rest)) t status error tags
        a
        (ap (λ x. starts_with x (scenario ++ codes "::")) e
          ∙ starts_with-apart scenario other (b':' ∷ (rest ++ after)) (valid-NoColon scenario v)
              (valid-NoColon other w) n)

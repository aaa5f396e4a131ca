-- ===== src/Statsd/Lines.antt =====
-- A metric is one line, whatever name it carries.
use mathlib.Core.Path.{subst}
use fusillade.Prelude.{
  Bool-cases, inl, inr, sym, ==_iff, ℕ, ◌≢◌, ◌≡◌, refl, Bool, true, false, ◌||◌, [], ◌∷◌, ◌++◌,
  Text, codes, arith, ◌==◌, if◌then◌else◌, All, All-append, show_ℕ, show_ℕ-digits, is_digit,
}
use fusillade.Csv.{contains}
use fusillade.Statsd.{metric, tagged, sanitize_metric_name}
use fusillade.Statsd.Packets.{IsLine}

-- No line feed.
abbrev pub OneLine : Text → Type 0
OneLine = All (λ c. (c == b'\n') ≡ false)

pub literal : (w : Text) → contains b'\n' w ≡ false → OneLine w
literal [] h = tt
literal (c ∷ cs) h = (ground (arith, h), literal cs (ground (arith, h)))

digits-OneLine : (w : Text) → All (λ c. is_digit c ≡ true) w → OneLine w
digits-OneLine [] h = tt
digits-OneLine (c ∷ w) h = (ground arith, digits-OneLine w h.1)

pub show_ℕ-OneLine : (n : ℕ) → OneLine (show_ℕ n)
show_ℕ-OneLine n = digits-OneLine (show_ℕ n) (show_ℕ-digits n)

append-nonempty : (a : Text) (c : ℕ) (b : Text) → a ++ (c ∷ b) ≢ []
append-nonempty [] c b e = ground (arith, e)
append-nonempty (x ∷ a) c b e = ground (arith, e)

sanitized :
    (alphanumeric : ℕ → Bool)
    → alphanumeric b'\n' ≡ false
    → (name : Text) → OneLine (sanitize_metric_name alphanumeric name)
unfolding sanitize_metric_name
sanitized alphanumeric h [] = tt
sanitized alphanumeric h (c ∷ cs) = (
  elim (Bool-cases (c == b'\n')) [
    | inl q ↦
        subst
          (λ d.
            ((if alphanumeric d || d == b'_' || d == b'.' || d == b'-' then d else b'_') == b'\n')
            ≡ false)
          (sym ((==_iff c b'\n').0 q)) (rw h refl)
    | inr q ↦ ground (arith, q)
  ],
  sanitized alphanumeric h cs,
)

pub metric-IsLine :
    (prefix : Text) (n : ℕ) (name value kind : Text)
    → OneLine prefix
    → contains b'\n' (n ∷ name) ≡ false
    → OneLine value
    → OneLine kind
    → IsLine (metric prefix (n ∷ name) value kind)
metric-IsLine prefix n name value kind h i j k = (
  append-nonempty prefix n _,
  All-append _ prefix _ h
      (All-append _ (n ∷ name) _ (literal (n ∷ name) i) (refl, All-append _ value _ j (refl, k))),
)

pub tagged-OneLine :
    (kind tag name : Text)
    → contains b'\n' kind ≡ false
    → contains b'\n' tag ≡ false
    → OneLine name
    → OneLine (tagged kind tag name)
tagged-OneLine kind tag name h i j =
    All-append _ kind _ (literal kind h) (
      All-append _ (codes "|#") _ (refl, (refl, tt)) (All-append _ tag _ (literal tag i) (refl, j)))

module _ (alphanumeric : ℕ → Bool) (prefix : Text) (no_feed : alphanumeric b'\n' ≡ false)
    (plain_prefix : OneLine prefix) where
  pub untagged :
      (n : ℕ) (name kind value : Text)
      → contains b'\n' (n ∷ name) ≡ false
      → contains b'\n' kind ≡ false
      → OneLine value
      → IsLine (metric prefix (n ∷ name) value kind)
  untagged n name kind value i k j =
      metric-IsLine prefix n name value kind plain_prefix i j (literal kind k)

  pub with_tag :
      (n : ℕ) (name kind tag label value : Text)
      → contains b'\n' (n ∷ name) ≡ false
      → contains b'\n' kind ≡ false
      → contains b'\n' tag ≡ false
      → OneLine value
      → IsLine (
          metric prefix
            (n ∷ name)
            value
            (tagged kind tag (sanitize_metric_name alphanumeric label)))
  with_tag n name kind tag label value i k t j =
      metric-IsLine prefix n name value _ plain_prefix i j
        (tagged-OneLine kind tag _ k t (sanitized alphanumeric no_feed label))

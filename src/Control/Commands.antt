-- ===== src/Control/Commands.antt =====
-- What a line of input means, and what the control loop does with the commands.
use mathlib.Core.List.{append-nil}
use mathlib.Core.Path.{subst}
use fusillade.Prelude.{
  ℕ, ◌<◌, ◌≢◌, ◌≡◌, refl, sym, ap, ◌∙◌, Bool, true, false, List, [], ◌∷◌, ◌++◌, some, Text, codes,
  arith, u64_mod, is_digit, is_whitespace, IsWord, trim_self, split_whitespace, split_from,
  split_from-word, split_once_first, show_ℕ, show_ℕ-first, show_ℕ-digits, parse-show, parse_u64,
  bind, All, All-append, ◌==◌, append_assoc, text_key, text_eq,
}
use fusillade.Control.{
  ControlCommand, ramp, pause, resume, tag, status, stop, Control, parse_words,
  parse_control_command, handle, handle_all,
}

-- A word, a space and a word.
two_words :
    (v w : Text) (c d : ℕ)
    → IsWord (c ∷ v)
    → IsWord (d ∷ w)
    → split_whitespace ((c ∷ v) ++ (b' ' ∷ (d ∷ w))) ≡ (c ∷ v) ∷ (d ∷ w) ∷ []
unfolding split_whitespace is_whitespace
two_words v w c d h k =
    split_from-word [] (c ∷ v) (b' ' ∷ (d ∷ w)) h
    ∙ ap (λ r. (c ∷ v) ∷ r)
        (ap (split_from []) (sym (append-nil (d ∷ w))) ∙ split_from-word [] (d ∷ w) [] k)

word-last :
    (c : ℕ) (w : Text)
    → IsWord (c ∷ w)
    → (ys : Text) × (d : ℕ) × (c ∷ w ≡ ys ++ (d ∷ [])) × (is_whitespace d ≡ false)
word-last c [] h = ([], c, refl, h.0)
word-last c (x ∷ w) h = let (ys, d, e, k) = word-last x w h.1 in (c ∷ ys, d, ap (λ r. c ∷ r) e, k)

digits-IsWord : (w : Text) → All (λ c. is_digit c ≡ true) w → IsWord w
unfolding is_whitespace
digits-IsWord [] h = tt
digits-IsWord (c ∷ w) h = (ground arith, digits-IsWord w h.1)

parse_two_words :
    (v w : Text) (c d : ℕ)
    → IsWord (c ∷ v)
    → IsWord (d ∷ w)
    → parse_control_command ((c ∷ v) ++ (b' ' ∷ (d ∷ w))) ≡ parse_words ((c ∷ v) ∷ (d ∷ w) ∷ [])
unfolding parse_control_command
parse_two_words v w c d h k =
    let (ys, z, e, n) = word-last d w k in
    let whole =
      ap (λ r. (c ∷ v) ++ (b' ' ∷ r)) e ∙ sym (append_assoc (c ∷ v) (b' ' ∷ ys) (z ∷ [])) in
    ap (λ t. parse_words (split_whitespace t))
      (trim_self c (v ++ (b' ' ∷ (d ∷ w))) ((c ∷ v) ++ (b' ' ∷ ys)) z h.0 n whole)
    ∙ ap parse_words (two_words v w c d h k)

-- A command as it is typed.
abbrev pub print_command : ControlCommand → Text
print_command (ramp n) = codes "ramp" ++ (b' ' ∷ show_ℕ n)
print_command pause = codes "pause"
print_command resume = codes "resume"
print_command (tag k v) = codes "tag" ++ (b' ' ∷ (k ++ (b'=' ∷ v)))
print_command status = codes "status"
print_command stop = codes "stop"

-- A tag has no white space, and its key no equals sign; a number fits its type.
abbrev pub IsTypable : ControlCommand → Type 0
IsTypable (ramp n) = n < u64_mod
IsTypable (tag k v) = IsWord k × All (λ c. (c == b'=') ≡ false) k × IsWord v
IsTypable _ = Unit

tag-IsWord : (k v : Text) → IsWord k → IsWord v → IsWord (k ++ (b'=' ∷ v))
unfolding is_whitespace
tag-IsWord k v h j = All-append _ k (b'=' ∷ v) h (refl, j)

parse_tag :
    (k v w : Text) (c : ℕ)
    → k ++ (b'=' ∷ v) ≡ c ∷ w
    → IsTypable (tag k v)
    → parse_control_command (codes "tag" ++ (b' ' ∷ (k ++ (b'=' ∷ v)))) ≡ some (tag k v)
unfolding is_whitespace parse_words text_eq
parse_tag k v w c e h =
    ap (λ t. parse_control_command (codes "tag" ++ (b' ' ∷ t))) e
    ∙ parse_two_words (codes "ag") w b't' c (refl, (refl, (refl, tt)))
        (subst IsWord e (tag-IsWord k v h.0 h.2))
    ∙ ap (λ t. parse_words (codes "tag" ∷ t ∷ [])) (sym e)
    ∙ rw (split_once_first b'=' k v h.1)

-- A command is read back from its text, if its number fits its type, its tag has no white space, and
-- the key of its tag no equals sign.
pub parse-print_command :
    (c : ControlCommand) → IsTypable c → parse_control_command (print_command c) ≡ some c
unfolding parse_control_command is_whitespace parse_words text_eq parse_u64
parse-print_command (ramp n) h =
    let (c, w, e, d) = show_ℕ-first n in
    ap (λ t. parse_control_command (codes "ramp" ++ (b' ' ∷ t))) e
    ∙ parse_two_words (codes "amp") w b'r' c (refl, (refl, (refl, (refl, tt))))
        (digits-IsWord (c ∷ w) (subst (All (λ c. is_digit c ≡ true)) e (show_ℕ-digits n)))
    ∙ ap (λ t. bind (parse_u64 t) (λ k. some (ramp k))) (sym e)
    ∙ ap (λ o. bind o (λ k. some (ramp k))) (parse-show n h)
parse-print_command (tag [] v) h = parse_tag [] v v b'=' refl h
parse-print_command (tag (c ∷ k) v) h = parse_tag (c ∷ k) v (k ++ (b'=' ∷ v)) c refl h
parse-print_command pause h = refl
parse-print_command resume h = refl
parse-print_command status h = refl
parse-print_command stop h = refl

-- Of the commands that wait, those before the first `stop` and this one are handled, in order, and
-- those behind it are left.
handle_all-stop :
    (multi : Bool) (cs ds : List (ℕ × ControlCommand)) (now : ℕ) (c : Control)
    → All (λ p. p.1 ≢ stop) cs
    → handle_all multi (cs ++ ((now, stop) ∷ ds)) c
      ≡ (handle multi now stop (handle_all multi cs c).0, ds)
unfolding handle_all
handle_all-stop multi [] ds now c h = refl
handle_all-stop multi ((t, ramp n) ∷ cs) ds now c h = handle_all-stop multi cs ds now _ h.1
handle_all-stop multi ((t, pause) ∷ cs) ds now c h = handle_all-stop multi cs ds now _ h.1
handle_all-stop multi ((t, resume) ∷ cs) ds now c h = handle_all-stop multi cs ds now _ h.1
handle_all-stop multi ((t, tag k v) ∷ cs) ds now c h = handle_all-stop multi cs ds now _ h.1
handle_all-stop multi ((t, status) ∷ cs) ds now c h = handle_all-stop multi cs ds now _ h.1
handle_all-stop multi ((t, stop) ∷ cs) ds now c h = absurd (h.0 refl)

-- ===== src/Tui/Typing.antt =====
-- What is typed into the dashboard.
use mathlib.Core.Path.{subst}
use fusillade.Prelude.{
  ℕ, ◌<◌, ◌≡◌, ◌↔◌, ◌⊎◌, sym, ap, ◌∙◌, Bool, true, false, ◌&&◌, ◌||◌, List, [], ◌∷◌, ◌++◌, map,
  Text, ◌==◌, All, is_digit, show_ℕ, show_ℕ-digits, parse-show, u64_mod, split_once_first,
  append-nil, append_assoc, arith,
}
use fusillade.Control.{ramp, tag}
use fusillade.Tui.{
  App, InputMode, normal, ramp_input, tag_input, KeyCode, char, enter, esc, KeyEvent, send,
  handle_key, handle_keys, in_mode, handle_normal_key, normal_char, handle_ramp_key, handle_tag_key,
}

abbrev pub key : KeyCode → KeyEvent
key code = record { code = code; control = false }

-- The keys of a text.
abbrev pub typed : Text → List KeyEvent
typed = map (λ c. key (char c))

type_digits :
    (w s : Text) (ks : List KeyEvent) (app : App)
    → All (λ c. is_digit c ≡ true) w
    → handle_keys (typed w ++ ks) (record app { input_mode = ramp_input s })
      ≡ handle_keys ks (record app { input_mode = ramp_input (s ++ w) })
unfolding handle_keys handle_key in_mode handle_ramp_key
type_digits [] s ks app h =
    ap (λ t. handle_keys ks (record app { input_mode = ramp_input t })) (sym (append-nil s))
type_digits (c ∷ w) s ks app h = rw h.0 (
    type_digits w (s ++ (c ∷ [])) ks app h.1
    ∙ ap (λ t. handle_keys ks (record app { input_mode = ramp_input t }))
        (append_assoc s (c ∷ []) w))

type_text :
    (w s : Text) (ks : List KeyEvent) (app : App)
    → handle_keys (typed w ++ ks) (record app { input_mode = tag_input s })
      ≡ handle_keys ks (record app { input_mode = tag_input (s ++ w) })
unfolding handle_keys handle_key in_mode handle_tag_key
type_text [] s ks app =
    ap (λ t. handle_keys ks (record app { input_mode = tag_input t })) (sym (append-nil s))
type_text (c ∷ w) s ks app =
    type_text w (s ++ (c ∷ [])) ks app
    ∙ ap (λ t. handle_keys ks (record app { input_mode = tag_input t })) (append_assoc s (c ∷ []) w)

in_normal : (app : App) → app.input_mode ≡ normal → app ≡ record app { input_mode = normal }
in_normal app e i = record app { input_mode = e i }

-- In the normal mode, `r`, the digits of a number that a `usize` holds, and Enter ask for that many
-- workers, once, and end in the normal mode.
handle_keys-ramp :
    (n : ℕ) (app : App)
    → n < u64_mod
    → app.input_mode ≡ normal
    → handle_keys (typed (b'r' ∷ show_ℕ n) ++ (key enter ∷ [])) app ≡ (false, send (ramp n) app)
unfolding handle_keys handle_key in_mode handle_normal_key handle_ramp_key normal_char
handle_keys-ramp n app h e =
    subst
      (λ a. handle_keys (typed (b'r' ∷ show_ℕ n) ++ (key enter ∷ [])) a ≡ (false, send (ramp n) a))
      (sym (in_normal app e))
      (type_digits (show_ℕ n) [] (key enter ∷ []) app (show_ℕ-digits n) ∙ rw (parse-show n h))

-- In the normal mode, `t`, a key without an equals sign, `=`, a value, and Enter add that tag, once,
-- and end in the normal mode.
handle_keys-tag :
    (k v : Text) (app : App)
    → All (λ c. (c == b'=') ≡ false) k
    → app.input_mode ≡ normal
    → handle_keys (typed (b't' ∷ (k ++ (b'=' ∷ v))) ++ (key enter ∷ [])) app
      ≡ (false, send (tag k v) app)
unfolding handle_keys handle_key in_mode handle_normal_key handle_tag_key normal_char
handle_keys-tag k v app h e =
    subst
      (λ a.
        handle_keys (typed (b't' ∷ (k ++ (b'=' ∷ v))) ++ (key enter ∷ [])) a
        ≡ (false, send (tag k v) a))
      (sym (in_normal app e))
      (type_text (k ++ (b'=' ∷ v)) [] (key enter ∷ []) app ∙ rw (split_once_first b'=' k v h))

quit_char :
    (c : ℕ) (b : Bool) (app : App) → (normal_char c b app).0 ≡ (c == b'q' || (c == b'c' && b))
unfolding normal_char
quit_char c b app = ground arith

quit_iff :
    (m : InputMode) (c : KeyCode) (b : Bool) (app : App)
    → ((in_mode m (record { code = c; control = b }) app).0 ≡ true)
      ↔ ((m ≡ normal) × ((c ≡ char b'q') ⊎ ((c ≡ esc) ⊎ ((c ≡ char b'c') × (b ≡ true)))))
unfolding in_mode handle_normal_key handle_ramp_key handle_tag_key
quit_iff normal (char c) b app = ground (arith, quit_char c b app)
quit_iff normal esc b app = ground arith
quit_iff normal _ b app = ground arith
quit_iff (ramp_input s) c b app = ground arith
quit_iff (tag_input s) c b app = ground arith

-- A key leaves the dashboard exactly if it is `q`, Escape or Control-c, in the normal mode.
handle_key-quit_iff :
    (k : KeyEvent) (app : App)
    → ((handle_key k app).0 ≡ true) ↔ (
        (app.input_mode ≡ normal)
        × ((k.code ≡ char b'q') ⊎ ((k.code ≡ esc) ⊎ ((k.code ≡ char b'c') × (k.control ≡ true)))))
unfolding handle_key
handle_key-quit_iff k app = quit_iff app.input_mode k.code k.control app

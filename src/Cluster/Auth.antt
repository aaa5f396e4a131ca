-- ===== src/Cluster/Auth.antt =====
-- What the token of a cluster lets in.
use fusillade.Prelude.{
  strip_prefix, ok, ◌≡◌, ◌≢◌, ◌↔◌, refl, sym, ap, ◌∙◌, true, Option, none, some, [], ◌∷◌, ◌++◌,
  Text, codes, starts_with, starts_with-append, drop, length, text_eq, text_eq_iff, arith, get_or,
  Bool-cases, text_eq_refl, if◌then◌else◌, inl, inr,
}
use mathlib.Core.Path.{subst}
use fusillade.Cluster.{check_auth}

drop-append : (p r : Text) → drop (length p) (p ++ r) ≡ r
drop-append [] r = refl
drop-append (c ∷ p) r = drop-append p r

starts_with-split : (p s : Text) → starts_with s p ≡ true → s ≡ p ++ drop (length p) s
unfolding starts_with
starts_with-split [] s h = refl
starts_with-split (c ∷ p) [] h = ground arith
starts_with-split (c ∷ p) (d ∷ s) h = ground (arith, starts_with-split p s)

stripped_iff :
    (p s t : Text) → t ≢ [] → (text_eq (get_or (strip_prefix p s) []) t ≡ true) ↔ (s ≡ p ++ t)
stripped_iff p s t h = (
  λ q. elim (Bool-cases (starts_with s p)) [
    | inl e ↦
        starts_with-split p s e
        ∙ ap (λ r. p ++ r)
            (sym (ap (λ b. get_or (if b then some (drop (length p) s) else none) []) e)
              ∙ (text_eq_iff (get_or (strip_prefix p s) []) t).0 q)
    | inr e ↦ absurd (
        h (
          sym (
            sym (ap (λ b. get_or (if b then some (drop (length p) s) else none) []) e)
            ∙ (text_eq_iff (get_or (strip_prefix p s) []) t).0 q)))
  ],
  λ e.
      subst (λ u. text_eq (get_or (strip_prefix p u) []) t ≡ true) (sym e)
        (rw (starts_with-append p t, drop-append p t) (text_eq_refl t)),
)

-- With a token that is not empty, a request is let in exactly when its header is `Bearer ` and the
-- token, and without one every request is.
pub check_auth-ok_iff :
    (t : Text) (authorization : Option Text)
    → t ≢ []
    → (check_auth none authorization ≡ ok tt)
      × ((check_auth (some t) authorization ≡ ok tt)
          ↔ (authorization ≡ some (codes "Bearer " ++ t)))
unfolding check_auth
check_auth-ok_iff t none h = (refl, ground (arith, text_eq_iff [] t))
check_auth-ok_iff t (some s) h = (refl, ground (arith, stripped_iff (codes "Bearer ") s t h))

-- ===== src/Stats/Add/Names.antt =====
-- The name of an endpoint does not depend on the order in which the tags are walked.
use mathlib.Core.List.{Perm, Permᴰ}
use mathlib.Core.Path.{ap₂, subst}
use mathlib.Core.Logic.{∥∥₁_elim}
use native.Mathlib.Nat.{ℕ_set}
use fusillade.Prelude.{
  ◌≡◌, ◌≢◌, refl, ◌∙◌, ap, sym, true, false, List, [], ◌∷◌, ◌++◌, Text, arith, All,
}
use fusillade.Stats.Add.{text_lt, insert_tag, sort_tags, join_tags, full_name}
use fusillade.Stats.Types.{Tags}

text_lt_tri : (a b : Text) → text_lt a b ≡ false → text_lt b a ≡ false → a ≡ b
unfolding text_lt
text_lt_tri [] [] p q = refl
text_lt_tri (x ∷ a) (y ∷ b) p q = ground (arith, text_lt_tri a b)
text_lt_tri [] (y ∷ b) p q = cc
text_lt_tri (x ∷ a) [] p q = cc

text_lt_asym : (a b : Text) → text_lt a b ≡ true → text_lt b a ≡ false
unfolding text_lt
text_lt_asym a [] p = ground arith
text_lt_asym [] (y ∷ b) p = refl
text_lt_asym (x ∷ a) (y ∷ b) p = ground (arith, text_lt_asym a b)

text_lt_cotrans : (u a b : Text) → text_lt u b ≡ true → text_lt u a ≡ false → text_lt a b ≡ true
unfolding text_lt
text_lt_cotrans u a [] p q = ground arith
text_lt_cotrans [] [] (z ∷ b) p q = refl
text_lt_cotrans [] (y ∷ a) (z ∷ b) p q = cc
text_lt_cotrans (x ∷ u) [] (z ∷ b) p q = refl
text_lt_cotrans (x ∷ u) (y ∷ a) (z ∷ b) p q = ground (arith, text_lt_cotrans u a b)

Text_set : IsSet Text
Text_set = hlevel ℕ_set

insert_tag_comm :
    (s t : Text × Text) (us : Tags)
    → s.0 ≢ t.0
    → insert_tag s (insert_tag t us) ≡ insert_tag t (insert_tag s us)
unfolding insert_tag
insert_tag_comm s t [] ne = ground (arith, text_lt_tri s.0 t.0, text_lt_asym s.0 t.0)
insert_tag_comm s t (u ∷ us) ne = ground (
  arith,
  text_lt_tri s.0 t.0,
  text_lt_asym s.0 t.0,
  text_lt_cotrans u.0 s.0 t.0,
  text_lt_cotrans u.0 t.0 s.0,
  insert_tag_comm s t us ne,
)

-- The keys of the tags of a metric differ: they come from a map.
abbrev pub DistinctKeys : Tags → Type 0
DistinctKeys [] = Unit
DistinctKeys (t ∷ ts) = All (λ u. t.0 ≢ u.0) ts × DistinctKeys ts

All-Permᴰ : {A : Type 0} (P : A → Type 0) {l m : List A} → Permᴰ l m → All P l → All P m
All-Permᴰ P Permᴰ.nil h = h
All-Permᴰ P (Permᴰ.cons e d) h = (subst P e h.0, All-Permᴰ P d h.1)
All-Permᴰ P (Permᴰ.swap e f) h = (subst P f h.1.0, (subst P e h.0, h.1.1))
All-Permᴰ P (Permᴰ.trans d e) h = All-Permᴰ P e (All-Permᴰ P d h)

DistinctKeys-Permᴰ : {l m : Tags} → Permᴰ l m → DistinctKeys l → DistinctKeys m
DistinctKeys-Permᴰ Permᴰ.nil h = h
DistinctKeys-Permᴰ (Permᴰ.cons {l₂ = m} e d) h =
    (subst (λ t. All (λ u. t.0 ≢ u.0) m) e (All-Permᴰ _ d h.0), DistinctKeys-Permᴰ d h.1)
DistinctKeys-Permᴰ (Permᴰ.swap {a} {b} {a'} {b'} {l} e f) h = (
  (
    (λ p. h.0.0 (ap (λ (t : Text × Text). t.0) e ∙ sym p ∙ sym (ap (λ (t : Text × Text). t.0) f))),
    subst (λ t. All (λ u. t.0 ≢ u.0) l) f h.1.0,
  ),
  (subst (λ t. All (λ u. t.0 ≢ u.0) l) e h.0.1, h.1.1),
)
DistinctKeys-Permᴰ (Permᴰ.trans d e) h = DistinctKeys-Permᴰ e (DistinctKeys-Permᴰ d h)

sort_tags-Permᴰ : {l m : Tags} → Permᴰ l m → DistinctKeys l → sort_tags l ≡ sort_tags m
unfolding sort_tags
sort_tags-Permᴰ Permᴰ.nil h = refl
sort_tags-Permᴰ (Permᴰ.cons e d) h = ap₂ insert_tag e (sort_tags-Permᴰ d h.1)
sort_tags-Permᴰ (Permᴰ.swap {a} {b} {a'} {b'} {l} e f) h =
    insert_tag_comm a b (sort_tags l) h.0.0
    ∙ ap₂ (λ x y. insert_tag x (insert_tag y (sort_tags l))) f e
sort_tags-Permᴰ (Permᴰ.trans d e) h =
    sort_tags-Permᴰ d h ∙ sort_tags-Permᴰ e (DistinctKeys-Permᴰ d h)

insert_tag-ne-nil : (t : Text × Text) (us : Tags) → insert_tag t us ≢ []
unfolding insert_tag
insert_tag-ne-nil t [] = λ e. cc
insert_tag-ne-nil t (u ∷ us) = λ e. ground arith

full_name_sorted :
    (name : Text) (l m : Tags) → sort_tags l ≡ sort_tags m → full_name name l ≡ full_name name m
unfolding full_name sort_tags
full_name_sorted name [] [] e = refl
full_name_sorted name [] (t ∷ ts) e = absurd (insert_tag-ne-nil t (sort_tags ts) (sym e))
full_name_sorted name (t ∷ ts) [] e = absurd (insert_tag-ne-nil t (sort_tags ts) e)
full_name_sorted name (t ∷ ts) (u ∷ us) e =
    ap (λ s. name ++ (b'{' ∷ (join_tags true s ++ (b'}' ∷ [])))) e

-- However the map of the tags is walked, its entries give the endpoint one name.
full_name-Perm :
    (name : Text) {l m : Tags} → DistinctKeys l → Perm l m → full_name name l ≡ full_name name m
full_name-Perm name h p =
    ∥∥₁_elim p (Text_set _ _) λ d. full_name_sorted name _ _ (sort_tags-Permᴰ d h)

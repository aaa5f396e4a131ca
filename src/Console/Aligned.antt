-- ===== src/Console/Aligned.antt =====
-- The columns of a table that src/bridge/mod.rs prints are aligned.
use fusillade.Prelude.{
  ℕ, zero, suc, ◌+◌, ◌-◌, ◌≤◌, List, [], ◌∷◌, ◌++◌, map, Option, none, some, Text, codes, length,
  length-append, byte_len, join, utf8_len, ◌≡◌, refl, ap, sym, ◌∙◌, arith, All,
}
use fusillade.Console.{
  Values, cell, row_of, keys_if_none, table_or, format_value, pad, widen, widen_all, column_widths,
  line, row_line, separator, row_lines, repeat, print_table, collect, format_table,
}

-- As many cells as columns, and each within its column.
abbrev Fits : List ℕ → List Text → Type 0
Fits [] [] = Unit
Fits (w ∷ ws) (c ∷ cs) = (byte_len c ≤ w) × Fits ws cs
Fits _ _ = ⊥

-- The length of a line of columns.
abbrev span : List ℕ → ℕ
span [] = 0
span (w ∷ []) = w
span (w ∷ v ∷ ws) = w + (3 + span (v ∷ ws))

length-byte_len : (s : Text) → length s ≤ byte_len s
unfolding byte_len utf8_len
length-byte_len [] = omega arith
length-byte_len (c ∷ cs) = ground (arith, length-byte_len cs)

length-repeat : (c n : ℕ) → length (repeat c n) ≡ n
length-repeat c zero = refl
length-repeat c (suc n) = omega (arith, length-repeat c n)

length-pad : (w : ℕ) (s : Text) → byte_len s ≤ w → length (pad w s) ≡ w
length-pad w s h = omega (
  arith,
  length-append s (repeat b' ' (w - length s)),
  length-repeat b' ' (w - length s),
  length-byte_len s,
)

length-row_line : (ws : List ℕ) (cs : List Text) → Fits ws cs → length (row_line ws cs) ≡ span ws
unfolding join
length-row_line [] [] h = refl
length-row_line (w ∷ []) (c ∷ []) h = length-pad w c h.0
length-row_line (w ∷ v ∷ ws) (c ∷ d ∷ cs) h = omega (
  arith,
  length-append (pad w c) (codes " | " ++ row_line (v ∷ ws) (d ∷ cs)),
  length-pad w c h.0,
  length-row_line (v ∷ ws) (d ∷ cs) h.1,
)
length-row_line [] (c ∷ cs) h = elim h [ ]
length-row_line (w ∷ []) [] h = elim h [ ]
length-row_line (w ∷ []) (c ∷ d ∷ cs) h = elim h.1 [ ]
length-row_line (w ∷ v ∷ ws) [] h = elim h [ ]
length-row_line (w ∷ v ∷ ws) (c ∷ []) h = elim h.1 [ ]

length-separator : (ws : List ℕ) → length (separator ws) ≡ span ws
unfolding join
length-separator [] = refl
length-separator (w ∷ []) = length-repeat b'-' w
length-separator (w ∷ v ∷ ws) = omega (
  arith,
  length-append (repeat b'-' w) (codes "-+-" ++ separator (v ∷ ws)),
  length-repeat b'-' w,
  length-separator (v ∷ ws),
)

Fits-headers : (hs : List Text) → Fits (map byte_len hs) hs
Fits-headers [] = tt
Fits-headers (h ∷ hs) = (omega arith, Fits-headers hs)

Fits-widen : (ws : List ℕ) (xs cs : List Text) → Fits ws xs → Fits (widen ws cs) xs
Fits-widen [] [] cs h = tt
Fits-widen (w ∷ ws) (x ∷ xs) [] h = h
Fits-widen (w ∷ ws) (x ∷ xs) (c ∷ cs) h = (omega (arith, h.0), Fits-widen ws xs cs h.1)
Fits-widen [] (x ∷ xs) cs h = elim h [ ]
Fits-widen (w ∷ ws) [] cs h = elim h [ ]

Fits-own :
    (ws : List ℕ) (xs cs : List Text) → Fits ws xs → length cs ≡ length xs → Fits (widen ws cs) cs
Fits-own [] [] [] h e = tt
Fits-own (w ∷ ws) (x ∷ xs) (c ∷ cs) h e = (omega arith, Fits-own ws xs cs h.1 (omega (arith, e)))
Fits-own [] [] (c ∷ cs) h e = absurd (omega (arith, e))
Fits-own (w ∷ ws) (x ∷ xs) [] h e = absurd (omega (arith, e))
Fits-own [] (x ∷ xs) cs h e = elim h [ ]
Fits-own (w ∷ ws) [] cs h e = elim h [ ]

Fits-widen_all :
    (ws : List ℕ) (xs : List Text) (rows : List (List Text))
    → Fits ws xs
    → Fits (widen_all ws rows) xs
Fits-widen_all ws xs [] h = h
Fits-widen_all ws xs (row ∷ rows) h = Fits-widen_all (widen ws row) xs rows (Fits-widen ws xs row h)

All-Fits :
    (ws : List ℕ) (xs : List Text) (rows : List (List Text))
    → Fits ws xs
    → All (λ row. length row ≡ length xs) rows
    → All (Fits (widen_all ws rows)) rows
All-Fits ws xs [] h k = tt
All-Fits ws xs (row ∷ rows) h k = (
  Fits-widen_all (widen ws row) row rows (Fits-own ws xs row h k.0),
  All-Fits (widen ws row) xs rows (Fits-widen ws xs row h) k.1,
)

length-map : {A B : Type 0} (f : A → B) (xs : List A) → length (map f xs) ≡ length xs
length-map f [] = refl
length-map f (x ∷ xs) = ap suc (length-map f xs)

All-map :
    {A : Type 0} (P Q : A → Type 0) (f : (x : A) → P x → Q x) (xs : List A) → All P xs → All Q xs
All-map P Q f [] h = tt
All-map P Q f (x ∷ xs) h = (f x h.0, All-map P Q f xs h.1)

module _ (js : Values) where
  -- An element that `get` fails at is left out.
  abbrev pub IsObject : Option js.V → Type 0
  IsObject none = Unit
  IsObject (some v) = (o : List Text × (Text → Option js.V)) × (js.as_object v ≡ some o)

  abbrev pub present : List (Option js.V) → ℕ
  present [] = 0
  present (none ∷ items) = present items
  present (some v ∷ items) = suc (present items)

  collect-object :
      (v : js.V) (items : List (Option js.V)) (headers keys : List Text) (get : Text → Option js.V)
      → js.as_object v ≡ some (keys, get)
      → let known = keys_if_none js headers keys in
        let rest = collect js items known in
        collect js (some v ∷ items) headers ≡ (rest.0, row_of js known get ∷ rest.1)
  unfolding collect
  collect-object v items headers keys get e = rw (e, collect) refl

  collect-IsFull :
      (items : List (Option js.V)) (h : Text) (hs : List Text)
      → All IsObject items
      → ((collect js items (h ∷ hs)).0 ≡ h ∷ hs)
        × (length (collect js items (h ∷ hs)).1 ≡ present items)
        × All (λ row. length row ≡ length (h ∷ hs)) (collect js items (h ∷ hs)).1
  unfolding collect
  collect-IsFull [] h hs k = (refl, refl, tt)
  collect-IsFull (none ∷ items) h hs k = collect-IsFull items h hs k.1
  collect-IsFull (some v ∷ items) h hs k =
      let (same, number, full) = collect-IsFull items h hs k.1 in
      let (keys, get) = k.0.0 in
      rw (collect-object v items (h ∷ hs) keys get k.0.1)
        (same, ap suc number, (length-map (λ x. cell js (get x)) (h ∷ hs), full))

  format_table-array :
      (v : js.V) (vs : List js.V) (items : List (Option js.V))
      → js.as_array v ≡ some items
      → format_table js (v ∷ vs) ≡ table_or js (format_value js v) (collect js items [])
  unfolding format_table
  format_table-array v vs items e = rw (e, format_table) refl

  -- A table of an array of objects, of which the first has keys, has these as its header; below it stand a
  -- separator and a row for each object; and all of these lines are of the same length.
  pub format_table-aligned :
      (v first : js.V) (vs : List js.V) (items : List (Option js.V)) (k : Text) (ks : List Text)
      (get : Text → Option js.V)
      → js.as_array v ≡ some (some first ∷ items)
      → js.as_object first ≡ some (k ∷ ks, get)
      → All IsObject items
      → let rows = (collect js (some first ∷ items) []).1 in
        let ws = column_widths (k ∷ ks) rows in
        (format_table js (v ∷ vs)
          ≡ (line (row_line ws (k ∷ ks)) ++ line (separator ws)) ++ row_lines ws rows)
        × (length rows ≡ suc (present items))
        × (length (row_line ws (k ∷ ks)) ≡ length (separator ws))
        × All (λ row. length (row_line ws row) ≡ length (separator ws)) rows
  unfolding format_table print_table collect column_widths
  format_table-aligned v first vs items k ks get e o h =
      let (same, number, full) = collect-IsFull items k ks h in
      let one = collect-object first items [] (k ∷ ks) get o in
      let rows = row_of js (k ∷ ks) get ∷ (collect js items (k ∷ ks)).1 in
      let widths = widen_all (map byte_len (k ∷ ks)) rows in
      let own = Fits-headers (k ∷ ks) in
      let long = length-map (λ x. cell js (get x)) (k ∷ ks) in
      let fit = All-Fits (map byte_len (k ∷ ks)) (k ∷ ks) rows own (long, full) in
      rw (format_table-array v vs (some first ∷ items) e, one, same)
        (
          refl,
          ap suc number,
          length-row_line widths (k ∷ ks) (Fits-widen_all (map byte_len (k ∷ ks)) (k ∷ ks) rows own)
              ∙ sym (length-separator widths),
          All-map (Fits widths) (λ row. length (row_line widths row) ≡ length (separator widths))
              (λ row f. length-row_line widths row f ∙ sym (length-separator widths)) rows fit,
        )

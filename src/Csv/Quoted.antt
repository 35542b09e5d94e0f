-- ===== src/Csv/Quoted.antt =====
-- Rows of fields in quotes.
use image_proxy.Base.{
  ℕ, zero, suc, ◌-◌, ◌<◌, ◌≡◌, refl, sym, ap, ap₂, ◌∙◌, inl, inr, true, false, ◌||◌, Option, none,
  some, List, [], ◌∷◌, ◌++◌, append_assoc, arith, ◌==◌, ==→eq, Bool-cases, length, get_or,
  length-append, Bytes,
}
use image_proxy.Csv.{
  quote, comma, cut, replace_double_quotes, before_last, to_last_quote, trim_field, at_comma,
  find_comma, FieldIterator, field_iterator, next_field,
}
use image_proxy.Csv.Commas.{
  find_comma-quoted, find_comma-last, doubled, doubled-quote, doubled_plain,
}

-- A field as RFC 4180 writes it in quotes.
unfoldable pub quoted : Bytes → Bytes
quoted f = quote ∷ (doubled f ++ (quote ∷ []))

-- The row of fields.
unfoldable pub row_of : List Bytes → Bytes
row_of [] = []
row_of (f ∷ []) = quoted f
row_of (f ∷ (g ∷ fs)) = quoted f ++ (comma ∷ row_of (g ∷ fs))

-- The fields that calls of `Next` give until one returns false, on fuel.
unfoldable pub all_fields : ℕ → FieldIterator → List Bytes
all_fields zero it = []
all_fields (suc fuel) it =
    let (it1, field) = next_field it in elim field [ none ↦ [] | some x ↦ x ∷ all_fields fuel it1 ]

-- What `all_fields` makes of one call.
abbrev fields_behind : ℕ → FieldIterator × Option Bytes → List Bytes
fields_behind fuel (it, none) = []
fields_behind fuel (it, some x) = x ∷ all_fields fuel it

before_last_end : (s : Bytes) → before_last quote (s ++ (quote ∷ [])) ≡ some s
unfolding before_last
before_last_end [] = refl
before_last_end (x ∷ s) = rw (before_last_end s) refl

to_last_quote_end : (s : Bytes) → to_last_quote (s ++ (quote ∷ [])) ≡ s
unfolding to_last_quote before_last
to_last_quote_end [] = refl
to_last_quote_end (x ∷ s) = rw (to_last_quote, before_last_end s) refl

replace_plain :
    (x : ℕ) (s : Bytes)
    → (x == quote) ≡ false
    → replace_double_quotes (x ∷ s) ≡ x ∷ replace_double_quotes s
unfolding replace_double_quotes
replace_plain x [] e = refl
replace_plain x (y ∷ s) e = rw e refl

replace-doubled : (f : Bytes) → replace_double_quotes (doubled f) ≡ f
unfolding replace_double_quotes doubled
replace-doubled [] = refl
replace-doubled (x ∷ f) = elim (Bool-cases (x == quote)) [
  | inl quoted ↦
      ap replace_double_quotes (doubled-quote x f quoted)
      ∙ ap₂ (λ c s. c ∷ s) (sym (==→eq x quote quoted)) (replace-doubled f)
  | inr plain ↦
      ap replace_double_quotes (doubled_plain x f plain)
      ∙ replace_plain x (doubled f) plain
      ∙ ap (◌∷◌ x) (replace-doubled f)
]

-- `Trim` takes the quotes off.
trim_field-quoted : (f : Bytes) → trim_field true (quoted f) ≡ f
unfolding trim_field quoted cut
trim_field-quoted f = ap replace_double_quotes (to_last_quote_end (doubled f)) ∙ replace-doubled f

-- A row of fields without a comma at its end.
unfoldable iterator_of : List Bytes → FieldIterator
iterator_of fs = record { row = row_of fs; replace = true; empty_field = false }

next_field-last : (f : Bytes) → next_field (iterator_of (f ∷ [])) ≡ (iterator_of [], some f)
unfolding next_field iterator_of row_of quoted
next_field-last f =
    let found = find_comma-last f (length (quoted f)) (omega arith) in
    rw (next_field, found)
      (ap (λ t. (record { row = []; replace = true; empty_field = false }, some t))
        (trim_field-quoted f))

next_field-next :
    (f g : Bytes) (fs : List Bytes)
    → next_field (iterator_of (f ∷ (g ∷ fs))) ≡ (iterator_of (g ∷ fs), some f)
unfolding next_field iterator_of row_of quoted
next_field-next f g fs =
    let rest = row_of (g ∷ fs) in
    let row = quoted f ++ (comma ∷ rest) in
    let text : row ≡ quote ∷ (doubled f ++ (quote ∷ (comma ∷ rest))) =
      ap (◌∷◌ quote) (append_assoc (doubled f) (quote ∷ []) (comma ∷ rest)) in
    let found : find_comma (length row) 0 row ≡ at_comma (quoted f) rest =
      ap (find_comma (length row) 0) text
      ∙ find_comma-quoted f rest (length row) (omega (arith, ap length text)) in
    rw (next_field, found)
      (ap (λ t. (record { row = rest; replace = true; empty_field = false }, some t))
        (trim_field-quoted f))

all_fields_lem :
    (fs : List Bytes) (fuel : ℕ) → length fs < fuel → all_fields fuel (iterator_of fs) ≡ fs
unfolding all_fields iterator_of row_of next_field find_comma
all_fields_lem fs zero h = absurd (omega (arith, h))
all_fields_lem [] (suc fuel) h = refl
all_fields_lem (f ∷ []) (suc fuel) h =
    ap (fields_behind fuel) (next_field-last f)
    ∙ ap (◌∷◌ f) (all_fields_lem [] fuel (omega (arith, h)))
all_fields_lem (f ∷ (g ∷ fs)) (suc fuel) h =
    ap (fields_behind fuel) (next_field-next f g fs)
    ∙ ap (◌∷◌ f) (all_fields_lem (g ∷ fs) fuel (omega (arith, h)))

-- The last character of a row.
row_of_end : (f : Bytes) (fs : List Bytes) → (s : Bytes) × (row_of (f ∷ fs) ≡ s ++ (quote ∷ []))
unfolding row_of quoted
row_of_end f [] = (quote ∷ doubled f, refl)
row_of_end f (g ∷ fs) =
    let (s, e) = row_of_end g fs in
    (
      quoted f ++ (comma ∷ s),
      ap (λ t. quoted f ++ (comma ∷ t)) e ∙ sym (append_assoc (quoted f) (comma ∷ s) (quote ∷ [])),
    )

get_or_last : (s : Bytes) (c d : ℕ) → get_or (s ++ (c ∷ [])) (length s) d ≡ c
get_or_last [] c d = refl
get_or_last (x ∷ s) c d = get_or_last s c d

-- The fields of a row, each in quotes and with its quotes doubled, are read back, with fuel for one call more than there
-- are fields, where the reader takes doubled quotes for one; a row has one field or more.
pub all_fields-row_of :
    (f : Bytes) (fs : List Bytes) (fuel : ℕ)
    → length (f ∷ fs) < fuel
    → all_fields fuel (field_iterator (row_of (f ∷ fs)) true) ≡ f ∷ fs
unfolding field_iterator iterator_of
all_fields-row_of f fs fuel h =
    let (s, e) = row_of_end f fs in
    let row = row_of (f ∷ fs) in
    let size = ap length e in
    let total = length-append s (quote ∷ []) in
    let last : length row - 1 ≡ length s = omega (arith, size, total) in
    let char : get_or row (length row - 1) 0 ≡ quote =
      ap₂ (λ t n. get_or t n 0) e last ∙ get_or_last s quote 0 in
    let closed : (length row == 0 || get_or row (length row - 1) 0 == comma) ≡ false =
      ground (arith, size, total, char) in
    ap (λ b. all_fields fuel (record { row = row; replace = true; empty_field = b })) closed
    ∙ all_fields_lem (f ∷ fs) fuel h

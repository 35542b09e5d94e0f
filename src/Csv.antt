-- ===== src/Csv.antt =====
-- The fields of a row of cpcl/csv_reader.hpp. A row is the text between `head` and `tail`; as a field and what is
-- behind it do not overlap, the quotes that are taken out of a field in place change no other.
pub mod Lines
pub mod Commas
pub mod Quoted
mod Tests
-- '"'.

use image_proxy.Base.{
  ℕ, zero, suc, ◌+◌, ◌-◌, ◌*◌, ◌/◌, ◌%◌, ◌^◌, ◌≤◌, ◌<◌, min, max, ◌≡◌, refl, sym, ap, ap₂, subst,
  ◌∙◌, ◌≢◌, ◌↔◌, ◌⊎◌, inl, inr, Bool, true, false, not, ◌&&◌, ◌||◌, Option, none, some, List, [],
  ◌∷◌, ◌++◌, map, flatten, append-nil, append_assoc, arith, ltb, leb, ◌==◌, if◌then◌else◌, ltb→lt,
  lt→ltb, leb→le, ==→eq, ==_iff, tests, Bool-cases, Option-cases, List-cases, length, get_elem?,
  set, get_or, take, drop, replicate, All, length-append, length-set, length-take, length-drop,
  length-replicate, take-append-drop, get_elem?-set_self, get_elem?-set_ne, take-add, drop-drop,
  take-take, drop-take, take-take-min, take-all, drop-all, take-append_le, take-append_add,
  drop-append_le, drop-append_add, holds_below, holds_below_at, Bytes, dec_lt, dec_le, ℕ_discrete,
  codes, bytes_eq, bytes_eq_refl, bytes_eq→eq, bytes_eq_iff,
}

abbrev pub quote : ℕ
quote = 34

-- ','.
abbrev pub comma : ℕ
comma = 44

-- `memchr`: what is in front of the first `c` and what is behind it.
unfoldable pub cut : ℕ → Bytes → Option (Bytes × Bytes)
cut c [] = none
cut c (x ∷ s) =
    let rest = cut c s in
    if x == c then some ([], s) else elim rest [ none ↦ none | some (a, b) ↦ some (x ∷ a, b) ]

-- `CountChar`.
unfoldable pub count_char : ℕ → Bytes → ℕ
count_char c [] = 0
count_char c (x ∷ s) = let rest = count_char c s in if x == c then suc rest else rest

-- `ReplaceDoubleQuotes`.
unfoldable pub replace_double_quotes : Bytes → Bytes
replace_double_quotes [] = []
replace_double_quotes (x ∷ []) = x ∷ []
replace_double_quotes (x ∷ (y ∷ s)) =
    let single = replace_double_quotes s in
    let other = replace_double_quotes (y ∷ s) in
    if x == quote && y == quote then y ∷ single else x ∷ other

-- What is in front of the last `c`.
unfoldable pub before_last : ℕ → Bytes → Option Bytes
before_last c [] = none
before_last c (x ∷ s) = elim (before_last c s) [
  | none ↦ if x == c then some [] else none
  | some a ↦ some (x ∷ a)
]

-- The loop of `Trim` from the end, for the text behind the first quote: it stops at the first character.
unfoldable pub to_last_quote : Bytes → Bytes
to_last_quote [] = []
to_last_quote (x ∷ s) = elim (before_last quote s) [ none ↦ [] | some a ↦ x ∷ a ]

-- `Trim`.
unfoldable pub trim_field : Bool → Bytes → Bytes
trim_field replace s = elim (cut quote s) [
  | none ↦ s
  | some (before, behind) ↦
      let field = to_last_quote behind in if replace then replace_double_quotes field else field
]

-- What the loop of `Next` finds: a comma behind as many quotes as make pairs, with the texts around it; no
-- comma, from some place on; or the end of the row behind a comma.
pub data Found : Type 0 where
  at_comma : Bytes → Bytes → Found
  no_comma : Found
  at_tail : Found

-- A text that stands in front of what was searched.
unfoldable pub prepend : Bytes → Found → Found
prepend a (at_comma before behind) = at_comma (a ++ before) behind
prepend a no_comma = no_comma
prepend a at_tail = at_tail

-- The loop of `Next`, on fuel.
unfoldable pub find_comma : ℕ → ℕ → Bytes → Found
find_comma fuel quote_chars [] = at_tail
find_comma zero quote_chars (x ∷ s) = no_comma
find_comma (suc fuel) quote_chars (x ∷ s) = elim (cut comma (x ∷ s)) [
  | none ↦ no_comma
  | some (a, b) ↦
      let quotes = quote_chars + count_char quote a in
      let rest = find_comma fuel quotes b in
      if quotes % 2 == 0 then at_comma a b else prepend (a ++ (comma ∷ [])) rest
]

-- `FieldIteratorImpl`.
pub record FieldIterator : Type 0 where
  pub row : Bytes
  pub replace : Bool
  pub empty_field : Bool

-- The constructor.
unfoldable pub field_iterator : Bytes → Bool → FieldIterator
field_iterator row replace = record {
  row = row;
  replace = replace;
  empty_field = length row == 0 || get_or row (length row - 1) 0 == comma;
}

-- `Next` of the fields: the iterator behind it, and the field.
unfoldable pub next_field : FieldIterator → FieldIterator × Option Bytes
next_field it = elim (find_comma (length it.row) 0 it.row) [
  | at_comma before behind ↦ (record it { row = behind }, some (trim_field it.replace before))
  | no_comma ↦ (record it { row = [] }, some (trim_field it.replace it.row))
  | at_tail ↦ if it.empty_field then (record it { empty_field = false }, some []) else (it, none)
]

-- ===== src/Csv/Lines.antt =====
-- The rows of `CsvReader` of cpcl/csv_reader.hpp, over any stream with a `Read`: a state and a size give the state
-- behind it and the bytes read. The buffer is given by its size, the place of `head` in it, and the text
-- between `head` and `tail`.
pub mod Ends
pub mod Filled
pub mod Search
pub mod Texts
pub mod Rows
use image_proxy.Base.{
  ℕ, zero, suc, ◌+◌, ◌-◌, ◌*◌, ◌/◌, ◌%◌, ◌^◌, ◌≤◌, ◌<◌, min, max, ◌≡◌, refl, sym, ap, ap₂, subst,
  ◌∙◌, ◌≢◌, ◌↔◌, ◌⊎◌, inl, inr, Bool, true, false, not, ◌&&◌, ◌||◌, Option, none, some, List, [],
  ◌∷◌, ◌++◌, map, flatten, append-nil, append_assoc, arith, ltb, leb, ◌==◌, if◌then◌else◌, ltb→lt,
  lt→ltb, leb→le, ==→eq, ==_iff, tests, Bool-cases, Option-cases, List-cases, length, get_elem?,
  set, get_or, take, drop, replicate, All, length-append, length-set, length-take, length-drop,
  length-replicate, take-append-drop, get_elem?-set_self, get_elem?-set_ne, take-add, drop-drop,
  take-take, drop-take, take-take-min, take-all, drop-all, take-append_le, take-append_add,
  drop-append_le, drop-append_add, holds_below, holds_below_at, Bytes, dec_lt, dec_le, ℕ_discrete,
  codes, bytes_eq, bytes_eq_refl, bytes_eq→eq, bytes_eq_iff,
}
use image_proxy.Csv.{
  cut, count_char, quote, comma, replace_double_quotes, before_last, to_last_quote, trim_field,
  prepend, find_comma, field_iterator, next_field, Found, FieldIterator,
}

-- '\n'.
abbrev pub newline : ℕ
newline = 10

-- '\r'.
abbrev pub carriage_return : ℕ
carriage_return = 13

-- `CsvReader`; `none` for no input.
pub record CsvReader {ℓ} (S : Type ℓ) : Type ℓ where
  pub input : Option S
  pub size : ℕ
  pub head : ℕ
  pub left : Bytes
  pub skip : ℕ
  pub quote_chars : ℕ

-- A line that stands in front of what was searched.
unfoldable pub put_front : Bytes → ℕ × Option (Bytes × Bytes) → ℕ × Option (Bytes × Bytes)
put_front a (quotes, none) = (quotes, none)
put_front a (quotes, some (x, y)) = (quotes, some (a ++ x, y))

-- `Find`, on fuel: `quote_chars` behind it, and the texts around the end of the line.
unfoldable pub find_eol : ℕ → ℕ → Bytes → ℕ × Option (Bytes × Bytes)
find_eol fuel quote_chars [] = (quote_chars, none)
find_eol zero quote_chars (x ∷ s) = (quote_chars, none)
find_eol (suc fuel) quote_chars (x ∷ s) = elim (cut newline (x ∷ s)) [
  | none ↦ (quote_chars + count_char quote (x ∷ s), none)
  | some (a, b) ↦
      let quotes = quote_chars + count_char quote a in
      let rest = find_eol fuel quotes b in
      if quotes % 2 == 0 then (quotes, some (a, b)) else put_front (a ++ (newline ∷ [])) rest
]

-- The size of the new buffer, for `n` a power of two.
unfoldable pub grown : ℕ → ℕ → ℕ
grown n size = let x = ((size * 3) % 2 ^ 64 / 2 + n - 1) % 2 ^ 64 in x - x % n

-- `FieldIt`, the end of the row.
unfoldable pub without_return : Bytes → Bytes
without_return line =
    if not (length line == 0) && (get_or line (length line - 1) 0 == carriage_return)
    then take (length line - 1) line
    else line

-- `Next` of the rows, behind its loop.
unfoldable pub give_row {ℓ} :
    {S : Type ℓ} → CsvReader S × Option (Bytes × Bytes) → CsvReader S × Option Bytes
give_row (r, none) =
    if length r.left == 0
    then (r, none)
    else (record r { head = r.head + length r.left; left = [] }, some r.left)
give_row (r, some (a, b)) =
    if length r.left == 0
    then (r, none)
    else (record r { head = r.head + length a + 1; left = b }, some (without_return a))

module _ {ℓ} {S : Type ℓ} (n : ℕ) (input_read : S → ℕ → S × Bytes) where
  -- The buffer's size in `FillBuf`: it grows when a line starts at its start and goes on behind its end.
  unfoldable pub buffer_size : CsvReader S → ℕ
  buffer_size r = if not (length r.left == 0) && (r.head == 0) then grown n r.size else r.size

  -- `FillBuf`, with an input.
  unfoldable pub refill : CsvReader S → S → CsvReader S
  refill r s =
      let skip = length r.left in
      let size = buffer_size r in
      let (s1, bytes) = input_read s ((size - skip) % 2 ^ 32) in
      record {
        input = if length bytes == size - skip then some s1 else none;
        size = size;
        head = 0;
        left = r.left ++ bytes;
        skip = skip;
        quote_chars = r.quote_chars;
      }

  -- `FillBuf`.
  unfoldable pub fill_buf : CsvReader S → CsvReader S
  fill_buf r = elim r.input [ none ↦ r | some s ↦ refill r s ]

  -- The constructor.
  unfoldable pub open_reader : S → CsvReader S
  open_reader s =
      fill_buf (record { input = some s; size = n; head = 0; left = []; skip = 0; quote_chars = 0 })

  -- The loop of `Next`, on fuel: the texts around the end of the line, from `head` on.
  unfoldable pub fill_line :
      ℕ → CsvReader S → Option (Bytes × Bytes) → CsvReader S × Option (Bytes × Bytes)
  fill_line zero r eol = (r, eol)
  fill_line (suc fuel) r (some eol) = (r, some eol)
  fill_line (suc fuel) r none =
      let r1 = fill_buf r in
      let unseen = drop r1.skip r1.left in
      let seen = take r1.skip r1.left in
      let (quotes, eol) = put_front seen (find_eol (length unseen) r1.quote_chars unseen) in
      let more = fill_line fuel (record r1 { quote_chars = quotes }) eol in
      elim r.input [ none ↦ (r, none) | some _ ↦ more ]

  -- `Next` of the rows, on fuel: the reader behind it, and the row.
  unfoldable pub next_row : ℕ → CsvReader S → CsvReader S × Option Bytes
  next_row fuel r =
      let (quotes, found) = find_eol (length r.left) 0 r.left in
      give_row (fill_line fuel (record r { quote_chars = quotes }) found)

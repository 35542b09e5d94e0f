-- ===== src/Csv/Lines/Rows.antt =====
-- The rows that the reader gives.
use image_proxy.Base.{
  ℕ, zero, suc, ◌+◌, ◌^◌, ◌≤◌, ◌<◌, ◌≡◌, refl, sym, ap, subst, ◌∙◌, inl, inr, false, Option, none,
  some, List, [], ◌∷◌, ◌++◌, append-nil, arith, ◌==◌, Bool-cases, Option-cases, length,
  length-append, Bytes,
}
use image_proxy.Copy.Streams.{no_bytes, Reader, no_bytes}
use image_proxy.Csv.Lines.{
  CsvReader, newline, fill_line, next_row, give_row, open_reader, without_return,
}
use image_proxy.Csv.Lines.Ends.{line_end, find_eol-line_end}
use image_proxy.Csv.Lines.Filled.{open_reader-Filled, unread, Filled}
use image_proxy.Csv.Lines.Texts.{
  first_row, rows, Parts, line_end-Parts, first_row_ended, first_row_unended, shorter, rows_enough,
  all_rows,
}
use image_proxy.Csv.Lines.Search.{Searched, ended, unended, rounds, fill_line-Searched}

-- The rows that calls of `Next` give until one returns false, on fuel.
unfoldable pub read_rows {ℓ} :
    {S : Type ℓ} → ℕ → (S → ℕ → S × Bytes) → ℕ → ℕ → CsvReader S → List Bytes
read_rows n input_read loops zero r = []
read_rows n input_read loops (suc fuel) r =
    let (r1, row) = next_row n input_read loops r in
    elim row [ none ↦ [] | some line ↦ line ∷ read_rows n input_read loops fuel r1 ]

-- What `read_rows` and `rows` make of one call.
abbrev rows_behind {ℓ} :
    {S : Type ℓ} (n : ℕ) (input_read : S → ℕ → S × Bytes) (loops fuel : ℕ)
    → CsvReader S × Option Bytes
    → List Bytes
rows_behind n input_read loops fuel (r1, none) = []
rows_behind n input_read loops fuel (r1, some line) = line ∷ read_rows n input_read loops fuel r1

abbrev rest_behind : ℕ → Option (Bytes × Bytes) → List Bytes
rest_behind fuel none = []
rest_behind fuel (some (row, rest)) = row ∷ rows fuel rest

module _ {ℓ} {S : Type ℓ} {input_read : S → ℕ → S × Bytes} (n : ℕ)
    (stream : Reader S input_read) where
  -- What a call of `Next` does: it gives the first row of the text, and the buffer and the input hold the rest.
  data Gets (text : Bytes) : CsvReader S × Option Bytes → Type ℓ where
    at_end : (r : CsvReader S) → first_row text ≡ none → Gets text (r, none)
    next :
        (r : CsvReader S) (row rest : Bytes)
        → first_row text ≡ some (row, rest)
        → Filled n stream rest r
        → length rest < length text
        → Gets text (r, some row)

  give_row-Gets :
      (text : Bytes) (e : CsvReader S × Option (Bytes × Bytes))
      → Searched n stream text e
      → Gets text (give_row e)
  unfolding give_row unread Parts first_row
  give_row-Gets text _ (ended r a b f e l) =
      let here : r.left ≡ a ++ (newline ∷ b) =
        subst (Parts r.left) (ap (λ x. x.1) l) (line_end-Parts 0 r.left) in
      let size = ap length here in
      let total = length-append a (newline ∷ b) in
      let some_left : (length r.left == 0) ≡ false = ground (arith, size, total) in
      rw some_left (
        next _ (without_return a) (b ++ unread n stream r.input) (first_row_ended text a _ e)
          (record {
            has = refl;
            enough = f.enough;
            small = f.small;
            full = λ s z. omega (arith, f.full s z, size, total);
          })
          (shorter text a _ e))
  give_row-Gets text _ (unended r f z e) =
      let whole : text ≡ r.left =
        sym f.has ∙ ap (λ i. r.left ++ unread n stream i) z ∙ append-nil r.left in
      elim (Bool-cases (length r.left == 0)) [
        | inl gone ↦
            rw gone
              (at_end r (ap first_row (no_bytes text (ground (arith, ap length whole, gone)))))
        | inr more ↦
            let first = first_row_unended text e (ap (λ t. length t == 0) whole ∙ more) in
            rw more (
              next _ r.left [] (first ∙ ap (λ t. some (t, [])) whole)
                (record {
                  has = ap (unread n stream) z;
                  enough = f.enough;
                  small = f.small;
                  full = λ s y. absurd (cc (y, z));
                })
                (ground (arith, ap length whole, more)))
      ]

  few_rounds :
      (text : Bytes) (r : CsvReader S)
      → Filled n stream text r
      → (loops : ℕ) → length text + 2 ≤ loops
      → rounds n stream r.input ≤ loops
  unfolding rounds unread
  few_rounds text r f loops h = elim (Option-cases r.input) [
    | inl z ↦ omega (arith, ap (rounds n stream) z, h)
    | inr (s, z) ↦
        let held = ap (λ i. length (r.left ++ unread n stream i)) (sym z) ∙ ap length f.has in
        omega (arith, ap (rounds n stream) z, h, held, length-append r.left (stream.rest s))
  ]

  next_row-Gets :
      (text : Bytes) (loops : ℕ) (r : CsvReader S)
      → 2 ≤ n
      → n ≤ 2 ^ 30
      → length text ≤ 2 ^ 30
      → length text + 2 ≤ loops
      → Filled n stream text r
      → Gets text (next_row n input_read loops r)
  unfolding next_row
  next_row-Gets text loops r p q t h f =
      let found = find_eol-line_end (length r.left) 0 r.left (omega arith) in
      let start = λ (e : ℕ × Option (Bytes × Bytes)).
        give_row (fill_line n input_read loops (record r { quote_chars = e.0 }) e.1) in
      subst (λ e. Gets text (start e)) (sym found)
        (give_row-Gets text _ (
          fill_line-Searched n stream text loops (record r { quote_chars = (line_end 0 r.left).0 })
            (line_end 0 r.left).1 p q t
            (record { has = f.has; enough = f.enough; small = f.small; full = f.full }) refl
            (few_rounds text r f loops h)))

  -- The rows behind one call.
  read_rows-Gets :
      (text : Bytes) (loops fuel : ℕ) (r : CsvReader S) (e : CsvReader S × Option Bytes)
      → ((rest : Bytes) (r1 : CsvReader S)
          → length rest < length text
          → Filled n stream rest r1
          → read_rows n input_read loops fuel r1 ≡ rows fuel rest)
      → next_row n input_read loops r ≡ e
      → Gets text e
      → read_rows n input_read loops (suc fuel) r ≡ rows (suc fuel) text
  unfolding read_rows rows
  read_rows-Gets text loops fuel r _ ih e (at_end r1 z) =
      ap (rows_behind n input_read loops fuel) e ∙ sym (ap (rest_behind fuel) z)
  read_rows-Gets text loops fuel r _ ih e (next r1 row rest z f l) =
      ap (rows_behind n input_read loops fuel) e
      ∙ ap (◌∷◌ row) (ih rest r1 l f)
      ∙ sym (ap (rest_behind fuel) z)

  read_rows-rows :
      (text : Bytes) (loops fuel : ℕ) (r : CsvReader S)
      → 2 ≤ n
      → n ≤ 2 ^ 30
      → length text ≤ 2 ^ 30
      → length text + 2 ≤ loops
      → Filled n stream text r
      → read_rows n input_read loops fuel r ≡ rows fuel text
  unfolding read_rows rows
  read_rows-rows text loops zero r p q t h f = refl
  read_rows-rows text loops (suc fuel) r p q t h f =
      read_rows-Gets text loops fuel r _
        (λ rest r1 l f1.
          read_rows-rows rest loops fuel r1 p q (omega (arith, l, t)) (omega (arith, l, h)) f1)
        refl (next_row-Gets text loops r p q t h f)

-- Over a stream that gives the next bytes of a text of at most 2^30 bytes, for a buffer of two bytes up to 2^30 and with fuel for
-- each byte, the calls of `Next` until one returns false give the rows of the text, whatever the size of the buffer and
-- wherever its reads end: the parts between the newlines that stand behind as many quotes as make pairs, each
-- without a carriage return at its end, and what is behind the last newline.
pub read_rows-all_rows {ℓ} :
    {S : Type ℓ} {input_read : S → ℕ → S × Bytes} (n loops fuel : ℕ) (stream : Reader S input_read)
    (s : S)
    → 2 ≤ n
    → n ≤ 2 ^ 30
    → length (stream.rest s) ≤ 2 ^ 30
    → length (stream.rest s) + 2 ≤ loops
    → length (stream.rest s) < fuel
    → read_rows n input_read loops fuel (open_reader n input_read s) ≡ all_rows (stream.rest s)
unfolding all_rows
read_rows-all_rows {S} {input_read} n loops fuel stream s p q t h l =
    read_rows-rows n stream (stream.rest s) loops fuel (open_reader n input_read s) p q t h
      (open_reader-Filled n stream s p q)
    ∙ rows_enough fuel (suc (length (stream.rest s))) (stream.rest s) l (omega arith)

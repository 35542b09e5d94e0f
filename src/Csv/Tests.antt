-- ===== src/Csv/Tests.antt =====
-- Concrete rows and fields.
use image_proxy.Base.{ℕ, ◌≡◌, refl, true, [], ◌∷◌, ◌++◌, arith, take, drop, Bytes, codes}
use image_proxy.Copy.Streams.{Reader}
use image_proxy.Csv.{cut, count_char, find_comma, trim_field, field_iterator, next_field}
use image_proxy.Csv.Quoted.{all_fields, all_fields-row_of, row_of, quoted}
use image_proxy.Csv.Commas.{doubled}
use image_proxy.Csv.Lines.{open_reader, put_front, without_return}
use image_proxy.Csv.Lines.Rows.{read_rows, read_rows-all_rows}
use image_proxy.Csv.Lines.Ends.{line_end}
use image_proxy.Csv.Lines.Texts.{all_rows, rows, first_row}

abbrev rest_read : Bytes → ℕ → Bytes × Bytes
rest_read s n = (drop n s, take n s)

abbrev rest_reader : Reader Bytes rest_read
rest_reader = record { rest = λ s. s; read_next = λ s n. refl; read_rest = λ s n. refl }

-- Two rows, the first with a newline in quotes, and a last one without a newline.
abbrev three_rows : Bytes
three_rows = codes "a," ++ (34 ∷ 10 ∷ 34 ∷ 13 ∷ 10 ∷ []) ++ codes "b" ++ (10 ∷ []) ++ codes "cd"

three_rows_run :
    all_rows three_rows ≡ (codes "a," ++ (34 ∷ 10 ∷ 34 ∷ [])) ∷ (codes "b") ∷ (codes "cd") ∷ []
unfolding all_rows rows first_row line_end put_front without_return
three_rows_run = refl

read_rows-all_rows_example :
    read_rows 2 rest_read 13 12 (open_reader 2 rest_read three_rows) ≡ all_rows three_rows
read_rows-all_rows_example =
    read_rows-all_rows 2 13 12 rest_reader three_rows (omega arith) (omega arith) (omega arith)
      (omega arith) (omega arith)

-- A field with a quote and a comma, and one of nothing.
row_of_run :
    row_of ((97 ∷ 34 ∷ 44 ∷ []) ∷ [] ∷ []) ≡ 34 ∷ 97 ∷ 34 ∷ 34 ∷ 44 ∷ 34 ∷ 44 ∷ 34 ∷ 34 ∷ []
unfolding row_of quoted doubled
row_of_run = refl

all_fields-row_of_example :
    all_fields 3 (field_iterator (row_of ((97 ∷ 34 ∷ 44 ∷ []) ∷ [] ∷ [])) true)
    ≡ (97 ∷ 34 ∷ 44 ∷ []) ∷ [] ∷ []
all_fields-row_of_example = all_fields-row_of (97 ∷ 34 ∷ 44 ∷ []) ([] ∷ []) 3 (omega arith)

-- Fields without quotes, the last one empty behind a comma.
plain_run : all_fields 4 (field_iterator (codes "a,b,") true) ≡ codes "a" ∷ codes "b" ∷ [] ∷ []
unfolding all_fields field_iterator next_field find_comma cut count_char trim_field
plain_run = refl

-- ===== src/Query.antt =====
-- `Connection::GetQuery` of webhdfs_image_proxy/connection.cpp, with `TryConvert` to `unsigned int` of
-- cpcl/string_cast.hpp. `http_parser_parse_url` of the vendored parser and `strtoul` of the C library
-- are parameters; `unsigned long` has `long_bits` bits.
pub mod Fields
mod Tests
use image_proxy.Base.{
  ℕ, zero, suc, ◌+◌, ◌-◌, ◌*◌, ◌/◌, ◌%◌, ◌^◌, ◌≤◌, ◌<◌, min, max, ◌≡◌, refl, sym, ap, ap₂, subst,
  ◌∙◌, ◌≢◌, ◌↔◌, ◌⊎◌, inl, inr, Bool, true, false, not, ◌&&◌, ◌||◌, Option, none, some, List, [],
  ◌∷◌, ◌++◌, map, flatten, append-nil, append_assoc, arith, ltb, leb, ◌==◌, if◌then◌else◌, ltb→lt,
  lt→ltb, leb→le, ==→eq, ==_iff, tests, Bool-cases, Option-cases, List-cases, length, get_elem?,
  set, get_or, take, drop, replicate, All, length-append, length-set, length-take, length-drop,
  length-replicate, take-append-drop, get_elem?-set_self, get_elem?-set_ne, take-add, drop-drop,
  take-take, drop-take, take-take-min, take-all, drop-all, take-append_le, take-append_add,
  drop-append_le, drop-append_add, holds_below, holds_below_at, Bytes, dec_lt, dec_le, ℕ_discrete,
  codes, bytes_eq, bytes_eq_refl, bytes_eq→eq, bytes_eq_iff,
}
use image_proxy.Split.{
  Piece, split_pair, as_string, Iterator, scan, begin_split, advance, current, at_end, visit,
}
use image_proxy.Split.Pieces.{
  split_on, Parted, scan-cases, current-text, texts, regroup, length-regroup, advance-next,
  visit-split_on,
}
use image_proxy.Strings.{
  equals_ignore_case, string_copy, to_lower, chars_ascii, fold_char, same_letters,
  same_wide_letters, equals_ignore_case_wide,
}

-- `TryConvert<unsigned long, char>`, from what `strtoul` made of the text: the number, and how many
-- characters it is behind the start.
unfoldable pub try_convert_long : ℕ → ℕ × ℕ → Option ℕ
try_convert_long long_bits (n, used) =
    if (n == 2 ^ long_bits - 1) || ((n == 0) && (used == 0))
    then none
    else if leb (2 ^ (long_bits - 1)) n
    then none
    else some n

-- `TryConvert<unsigned int, char>`.
unfoldable pub try_convert_int : ℕ → ℕ × ℕ → Option ℕ
try_convert_int long_bits r = elim (try_convert_long long_bits r) [
  | none ↦ none
  | some n ↦ some (n % 2 ^ 32)
]

pub record Query : Type 0 where
  pub request_path : Bytes
  pub width : ℕ
  pub height : ℕ
  pub json : Bool

abbrev pub no_query : Query
no_query = record { request_path = []; width = 0; height = 0; json = false }

-- A number that was converted goes to a field, else the field stays.
unfoldable pub assign : Option ℕ → ℕ → ℕ
assign none old = old
assign (some n) old = n

-- An undefined read makes what follows undefined.
unfoldable pub and_then {ℓ κ} : {A : Type ℓ} {B : Type κ} → Option A → (A → Option B) → Option B
and_then none f = none
and_then (some a) f = f a

-- What the pieces read as.
unfoldable pub piece_texts : Bytes → List Piece → Option (List Bytes)
piece_texts text [] = some []
piece_texts text (p ∷ ps) =
    and_then (as_string text p) (λ t. and_then (piece_texts text ps) (λ ts. some (t ∷ ts)))

module _ (long_bits : ℕ) (strtoul : Bytes → ℕ × ℕ) where
  -- The loop over `keys`, for a key and the text of its value.
  unfoldable pub set_value : Query → Bytes → Bytes → Query
  set_value q key value =
      let number = try_convert_int long_bits (strtoul value) in
      record q {
        width = if equals_ignore_case key (codes "w") then assign number q.width else q.width;
        height = if equals_ignore_case key (codes "h") then assign number q.height else q.height;
      }

  -- One piece that is not the key `info`. `none` where the value is read through a null pointer.
  unfoldable pub set_pair : Query → Bytes → Option Query
  set_pair q piece =
      let (key, value) = split_pair piece 61 in
      let name = as_string piece key in
      let text = as_string piece value in
      if value.size == 0 then some q else elim name [
        | none ↦ none
        | some k ↦
            if equals_ignore_case k (codes "w") || equals_ignore_case k (codes "h")
            then (elim text [ none ↦ none | some v ↦ some (set_value q k v) ])
            else some q
      ]

  -- The loop over the pieces.
  unfoldable pub set_pairs : Query → List Bytes → Option Query
  set_pairs q [] = some q
  set_pairs q (p ∷ ps) =
      if equals_ignore_case (codes "info") p
      then some (record q { json = true })
      else elim (set_pair q p) [ none ↦ none | some q' ↦ set_pairs q' ps ]

  -- The loop over the split iterator, on the text of the query. The rounds are as many as it can take.
  unfoldable pub query_loop : Query → Bytes → Option Query
  query_loop q text =
      and_then (visit text 38 (length text + 1) (begin_split text 38))
        (λ ps. and_then (piece_texts text ps) (λ ts. set_pairs q ts))

  -- `GetQuery`: the offsets and the sizes of the path and of the query come from the URL's parser.
  unfoldable pub get_query : (Bytes → Option (ℕ × ℕ) × Option (ℕ × ℕ)) → Bytes → Option Query
  get_query parse_url uri =
      let (path, query) = parse_url uri in
      elim path [
        | none ↦ some no_query
        | some (off, len) ↦
            let q = record no_query { request_path = take len (drop off uri) } in
            elim query [
              | none ↦ some q
              | some (off', len') ↦ query_loop q (take len' (drop off' uri))
            ]
      ]

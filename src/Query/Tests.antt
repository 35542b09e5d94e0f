-- ===== src/Query/Tests.antt =====
-- Concrete queries.
use image_proxy.Base.{ℕ, ◌+◌, ◌-◌, ◌*◌, ◌≡◌, refl, false, none, some, [], ◌∷◌, Bytes, codes}
use image_proxy.Split.{visit, begin_split, scan, as_string, advance, current, at_end, split_pair}
use image_proxy.Split.Pairs.{starts_with}
use image_proxy.Strings.{equals_ignore_case, same_letters, fold_char}
use image_proxy.Query.{
  set_value, assign, try_convert_int, try_convert_long, piece_texts, and_then, no_query, get_query,
  set_pair, set_pairs, query_loop, try_convert_long, try_convert_int, assign, piece_texts,
  set_value, and_then,
}
use image_proxy.Query.Fields.{query_loop-split_on, set_pair-parsed}
use image_proxy.Split.Pieces.{split_on}

-- A number of decimal digits, for the C library's `strtoul`.
unfoldable digits : ℕ → Bytes → ℕ × ℕ
digits n [] = (n, 0)
digits n (c ∷ cs) = let (m, used) = digits (n * 10 + (c - 48)) cs in (m, used + 1)

-- "/a?W=20&h=7" with its path at 0 of size 2 and its query at 3 of size 8.
width_and_height :
    get_query 32 (digits 0) (λ uri. (some (0, 2), some (3, 8))) (codes "/a?W=20&h=7")
    ≡ some (record { request_path = codes "/a"; width = 20; height = 7; json = false })
unfolding get_query query_loop digits visit and_then at_end begin_split advance scan piece_texts
    as_string current set_pairs equals_ignore_case set_pair split_pair set_value assign
    try_convert_int try_convert_long
width_and_height = refl

query_loop_run :
    query_loop 32 (digits 0) no_query (codes "w=1")
    ≡ set_pairs 32 (digits 0) no_query (split_on 38 (codes "w=1"))
query_loop_run = query_loop-split_on 32 (digits 0) no_query 119 (codes "=1")

-- "w==5" makes the code read through a null pointer.
set_pair_run : set_pair 32 (digits 0) no_query (codes "w==5") ≡ none
unfolding scan equals_ignore_case starts_with same_letters fold_char
set_pair_run = set_pair-parsed 32 (digits 0) no_query (codes "w") (codes "=5") refl

-- ===== src/Split/Tests.antt =====
-- Concrete splits.
use image_proxy.Base.{◌+◌, ◌≡◌, refl, none, some, List, [], ◌∷◌, map, length, Bytes, codes}
use image_proxy.Split.{Piece, split_pair, as_string, begin_split, visit, scan}
use image_proxy.Split.Pieces.{visit-split_on, texts, split_on}
use image_proxy.Split.Pairs.{split_pair_lem, starts_with}

-- "few|strings|"
abbrev few_strings : Bytes
few_strings = codes "ew|strings|"

few_strings_split : split_on 124 (102 ∷ few_strings) ≡ codes "few" ∷ codes "strings" ∷ [] ∷ []
unfolding split_on
few_strings_split = refl

visit-split_on_example :
    (ps : List Piece) × (visit
        (102 ∷ few_strings)
        124
        (length (102 ∷ few_strings) + 1)
        (begin_split (102 ∷ few_strings) 124)
      ≡ some ps)
    × (texts (102 ∷ few_strings) ps ≡ map some (split_on 124 (102 ∷ few_strings)))
visit-split_on_example = visit-split_on 124 102 few_strings

-- "w==5": the value is a null pointer of size 2.
split_pair_run :
    let (name, value) = split_pair (codes "w==5") 61 in
    (as_string (codes "w==5") name ≡ some (codes "w"))
    × (value.size ≡ 2)
    × (as_string (codes "w==5") value ≡ none)
unfolding starts_with scan
split_pair_run = split_pair_lem 61 (codes "w") (codes "=5") refl

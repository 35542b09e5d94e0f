-- ===== src/Mask.antt =====
-- `MaskMatch` of cpcl/file_iterator_posix.cpp, by which the files of a directory are picked. An iterator is the
-- text from its place on.
pub mod Contains
pub mod Stars
mod Tests
-- '*'.
use image_proxy.Base.{
  ℕ, zero, suc, ◌+◌, ◌-◌, ◌*◌, ◌/◌, ◌%◌, ◌^◌, ◌≤◌, ◌<◌, min, max, ◌≡◌, refl, sym, ap, ap₂, subst,
  ◌∙◌, ◌≢◌, ◌↔◌, ◌⊎◌, inl, inr, Bool, true, false, not, ◌&&◌, ◌||◌, Option, none, some, List, [],
  ◌∷◌, ◌++◌, map, flatten, append-nil, append_assoc, arith, ltb, leb, ◌==◌, if◌then◌else◌, ltb→lt,
  lt→ltb, leb→le, ==→eq, ==_iff, tests, Bool-cases, Option-cases, List-cases, length, get_elem?,
  set, get_or, take, drop, replicate, All, length-append, length-set, length-take, length-drop,
  length-replicate, take-append-drop, get_elem?-set_self, get_elem?-set_ne, take-add, drop-drop,
  take-take, drop-take, take-take-min, take-all, drop-all, take-append_le, take-append_add,
  drop-append_le, drop-append_add, holds_below, holds_below_at, Bytes, dec_lt, dec_le, ℕ_discrete,
  codes, bytes_eq, bytes_eq_refl, bytes_eq→eq, bytes_eq_iff,
}

abbrev pub star : ℕ
star = 42

-- The loop over the stars in front.
unfoldable pub skip_stars : Bytes → Bytes
skip_stars [] = []
skip_stars (m ∷ mask) = if m == star then skip_stars mask else m ∷ mask

-- `SkipTo`.
unfoldable pub skip_to : ℕ → Bytes → Bytes
skip_to c [] = []
skip_to c (x ∷ s) = if x == c then x ∷ s else skip_to c s

-- The loop of `TryMatch`, which leaves the mask and the text behind what is alike; `none` where it returns
-- false at once.
unfoldable pub match_alike : Bytes → Bytes → Option (Bytes × Bytes)
match_alike [] s = some ([], s)
match_alike (m ∷ mask) [] = some (m ∷ mask, [])
match_alike (m ∷ mask) (x ∷ s) =
    let rest = match_alike mask s in
    if m == star then some (m ∷ mask, x ∷ s) else if x == m then rest else none

-- `TryMatch`: the iterators behind it, and whether the mask is at its end.
unfoldable pub try_match : Bytes → Bytes → Bytes × Bytes × Bool
try_match mask s = elim (match_alike mask s) [
  | none ↦ (mask, s, false)
  | some (mask1, s1) ↦ (mask1, s1, length mask1 == 0)
]

-- The body of the loop behind a star, once `TryMatch` has failed: where the next round starts.
unfoldable pub next_place : Bytes → Bytes → Bytes
next_place mask [] = []
next_place mask (x ∷ s) = if length s == 0 then [] else skip_to (get_or mask 0 0) s

-- The loop behind a star, on fuel.
unfoldable pub star_loop : ℕ → Bytes → Bytes → Bytes × Bytes
star_loop fuel mask [] = (mask, [])
star_loop zero mask (x ∷ s) = (mask, x ∷ s)
star_loop (suc fuel) mask (x ∷ s) =
    let (mask1, s1, ok) = try_match mask (x ∷ s) in
    let rest = star_loop fuel mask1 (next_place mask1 s1) in if ok then (mask1, s1) else rest

-- The outer loop, on fuel: the mask that is left.
unfoldable pub match_loop : ℕ → Bytes → Bytes → Bytes
match_loop fuel [] s = []
match_loop fuel (m ∷ mask) [] = m ∷ mask
match_loop zero (m ∷ mask) (x ∷ s) = m ∷ mask
match_loop (suc fuel) (m ∷ mask) (x ∷ s) =
    let mask1 = skip_stars mask in
    let (mask2, s2) = star_loop (length (x ∷ s)) mask1 (skip_to (get_or mask1 0 0) (x ∷ s)) in
    let behind = match_loop fuel mask2 s2 in
    let alike = match_loop fuel mask s in
    if m == star then (if length mask1 == 0 then [] else behind) else if x == m then alike else mask

-- `operator()`.
unfoldable pub mask_match : Bytes → Bytes → Bool
mask_match mask s =
    if length mask == 0
    then true
    else length (skip_stars (match_loop (length mask + length s) mask s)) == 0

-- The constructor, which keeps so many characters, `NAME_MAX` in the code.
unfoldable pub init_mask : ℕ → Bytes → Bytes
init_mask name_max mask = take (if ltb (length mask) name_max then length mask else name_max) mask

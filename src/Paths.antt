-- ===== src/Paths.antt =====
-- The parts of a path of cpcl/file_util.hpp. `d` is the delimiter of `os_path_traits`. The loops go
-- from the end of the text to its start; a pointer to a character is its index, here one above, so that
-- `path_head` in front of the text is 0.
pub mod Parts
pub mod Places
mod Names
mod Tests
-- The loop of `FileName`: behind the last delimiter in front of an index.

use image_proxy.Base.{
  ℕ, zero, suc, ◌+◌, ◌-◌, ◌*◌, ◌/◌, ◌%◌, ◌^◌, ◌≤◌, ◌<◌, min, max, ◌≡◌, refl, sym, ap, ap₂, subst,
  ◌∙◌, ◌≢◌, ◌↔◌, ◌⊎◌, inl, inr, Bool, true, false, not, ◌&&◌, ◌||◌, Option, none, some, List, [],
  ◌∷◌, ◌++◌, map, flatten, append-nil, append_assoc, arith, ltb, leb, ◌==◌, if◌then◌else◌, ltb→lt,
  lt→ltb, leb→le, ==→eq, ==_iff, tests, Bool-cases, Option-cases, List-cases, length, get_elem?,
  set, get_or, take, drop, replicate, All, length-append, length-set, length-take, length-drop,
  length-replicate, take-append-drop, get_elem?-set_self, get_elem?-set_ne, take-add, drop-drop,
  take-take, drop-take, take-take-min, take-all, drop-all, take-append_le, take-append_add,
  drop-append_le, drop-append_add, holds_below, holds_below_at, Bytes, dec_lt, dec_le, ℕ_discrete,
  codes, bytes_eq, bytes_eq_refl, bytes_eq→eq, bytes_eq_iff,
}

unfoldable pub name_from : ℕ → Bytes → ℕ → ℕ
name_from d s zero = 0
name_from d s (suc i) = if get_or s i 0 == d then suc i else name_from d s i

-- `FileName`.
unfoldable pub file_name : ℕ → Bytes → Bytes
file_name d [] = []
file_name d (x ∷ xs) = drop (name_from d (x ∷ xs) (length (x ∷ xs))) (x ∷ xs)

-- The loop of `DirName`, with the flag `t`.
unfoldable pub dir_to : ℕ → Bytes → ℕ → Bool → ℕ × Bool
dir_to d s zero t = (0, t)
dir_to d s (suc i) t =
    let seen = dir_to d s i true in
    let unseen = dir_to d s i t in
    if get_or s i 0 == d then seen else if t then (suc i, t) else unseen

-- `DirName`.
unfoldable pub dir_name : ℕ → Bytes → Bytes
dir_name d [] = []
dir_name d (x ∷ xs) =
    let (i, t) = dir_to d (x ∷ xs) (length (x ∷ xs)) false in if t then take i (x ∷ xs) else []

-- The loop of `FileExtension`: behind the last point, and whether there is one.
unfoldable pub extension_from : Bytes → ℕ → ℕ × Bool
extension_from s zero = (0, false)
extension_from s (suc i) = if get_or s i 0 == 46 then (suc i, true) else extension_from s i

-- `FileExtension`.
unfoldable pub file_extension : Bytes → Bytes
file_extension [] = []
file_extension (x ∷ xs) =
    let (i, t) = extension_from (x ∷ xs) (length (x ∷ xs)) in if t then drop i (x ∷ xs) else []

-- The loop of `BaseName`: the start of the name, and the place of its first point, `tail` before there is one.
unfoldable pub base_from : ℕ → Bytes → ℕ → ℕ → ℕ × ℕ
base_from d s zero tail = (0, tail)
base_from d s (suc i) tail =
    let point = base_from d s i i in
    let other = base_from d s i tail in
    if get_or s i 0 == 46 then point else if get_or s i 0 == d then (suc i, tail) else other

-- `BaseName`.
unfoldable pub base_name : ℕ → Bytes → Bytes
base_name d [] = []
base_name d (x ∷ xs) =
    let (i, tail) = base_from d (x ∷ xs) (length (x ∷ xs)) (length (x ∷ xs)) in
    take (tail - i) (drop i (x ∷ xs))

-- The loop of `BaseFileName`, with the flag `strip_suffix`: the start of the name, and the place of its last
-- point.
unfoldable pub base_file_from : ℕ → Bytes → ℕ → ℕ → Bool → ℕ × ℕ
base_file_from d s zero tail strip_suffix = (0, tail)
base_file_from d s (suc i) tail strip_suffix =
    let point = base_file_from d s i i true in
    let other = base_file_from d s i tail strip_suffix in
    if not strip_suffix && (get_or s i 0 == 46)
    then point
    else if get_or s i 0 == d
    then (suc i, tail)
    else other

-- `BaseFileName`.
unfoldable pub base_file_name : ℕ → Bytes → Bytes
base_file_name d [] = []
base_file_name d (x ∷ xs) =
    let (i, tail) = base_file_from d (x ∷ xs) (length (x ∷ xs)) (length (x ∷ xs)) false in
    take (tail - i) (drop i (x ∷ xs))

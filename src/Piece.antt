-- ===== src/Piece.antt =====
-- The operations of `BasicStringPiece` of cpcl/string_piece.hpp that cut a text. A piece is its text; the pointer of
-- an empty piece is not kept.
pub mod Trim
mod Tests
-- `Traits::find` on the characters to trim.
use image_proxy.Base.{
  ℕ, zero, suc, ◌+◌, ◌-◌, ◌*◌, ◌/◌, ◌%◌, ◌^◌, ◌≤◌, ◌<◌, min, max, ◌≡◌, refl, sym, ap, ap₂, subst,
  ◌∙◌, ◌≢◌, ◌↔◌, ◌⊎◌, inl, inr, Bool, true, false, not, ◌&&◌, ◌||◌, Option, none, some, List, [],
  ◌∷◌, ◌++◌, map, flatten, append-nil, append_assoc, arith, ltb, leb, ◌==◌, if◌then◌else◌, ltb→lt,
  lt→ltb, leb→le, ==→eq, ==_iff, tests, Bool-cases, Option-cases, List-cases, length, get_elem?,
  set, get_or, take, drop, replicate, All, length-append, length-set, length-take, length-drop,
  length-replicate, take-append-drop, get_elem?-set_self, get_elem?-set_ne, take-add, drop-drop,
  take-take, drop-take, take-take-min, take-all, drop-all, take-append_le, take-append_add,
  drop-append_le, drop-append_add, holds_below, holds_below_at, Bytes, dec_lt, dec_le, ℕ_discrete,
  codes, bytes_eq, bytes_eq_refl, bytes_eq→eq, bytes_eq_iff,
}

unfoldable pub find : Bytes → ℕ → Bool
find [] c = false
find (x ∷ chars) c = x == c || find chars c

-- The loop from the front.
unfoldable pub skip_head : Bytes → Bytes → Bytes
skip_head chars [] = []
skip_head chars (c ∷ s) = if find chars c then skip_head chars s else c ∷ s

-- The loop from the end: how many characters are left of so many.
unfoldable pub tail_from : Bytes → Bytes → ℕ → ℕ
tail_from chars s zero = 0
tail_from chars s (suc i) = if find chars (get_or s i 0) then tail_from chars s i else suc i

-- `trim`.
unfoldable pub trim : Bytes → Bytes → Bytes
trim chars s =
    let head = skip_head chars s in
    if length chars == 0 then s else take (tail_from chars head (length head)) head

-- `trim_head`.
unfoldable pub trim_head : Bytes → Bytes → Bytes
trim_head chars s = if length chars == 0 then s else skip_head chars s

-- `trim_tail`.
unfoldable pub trim_tail : Bytes → Bytes → Bytes
trim_tail chars s = if length chars == 0 then s else take (tail_from chars s (length s)) s

-- `remove_prefix`.
unfoldable pub remove_prefix : Bytes → ℕ → Bytes
remove_prefix s n = drop (if ltb n (length s) then n else length s) s

-- `remove_suffix`.
unfoldable pub remove_suffix : Bytes → ℕ → Bytes
remove_suffix s n = take (length s - (if ltb n (length s) then n else length s)) s

-- `substr`.
unfoldable pub substr : Bytes → ℕ → ℕ → Bytes
substr s pos n =
    let pos1 = if ltb (length s) pos then length s else pos in
    let n1 = if ltb (length s - pos1) n then length s - pos1 else n in take n1 (drop pos1 s)

-- `ends_with`.
unfoldable pub ends_with : Bytes → Bytes → Bool
ends_with s x = leb (length x) (length s) && bytes_eq (drop (length s - length x) s) x

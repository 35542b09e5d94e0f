-- ===== src/Split.antt =====
-- Splitting a text at a character: cpcl/split_iterator.hpp, and `SplitPair` of
-- webhdfs_image_proxy/connection.cpp. A pointer into the text is its offset, a StringPiece is an offset
-- or null, with a size.
pub mod Pieces
pub mod Pairs
mod Tests
use image_proxy.Base.{
  ℕ, zero, suc, ◌+◌, ◌-◌, ◌*◌, ◌/◌, ◌%◌, ◌^◌, ◌≤◌, ◌<◌, min, max, ◌≡◌, refl, sym, ap, ap₂, subst,
  ◌∙◌, ◌≢◌, ◌↔◌, ◌⊎◌, inl, inr, Bool, true, false, not, ◌&&◌, ◌||◌, Option, none, some, List, [],
  ◌∷◌, ◌++◌, map, flatten, append-nil, append_assoc, arith, ltb, leb, ◌==◌, if◌then◌else◌, ltb→lt,
  lt→ltb, leb→le, ==→eq, ==_iff, tests, Bool-cases, Option-cases, List-cases, length, get_elem?,
  set, get_or, take, drop, replicate, All, length-append, length-set, length-take, length-drop,
  length-replicate, take-append-drop, get_elem?-set_self, get_elem?-set_ne, take-add, drop-drop,
  take-take, drop-take, take-take-min, take-all, drop-all, take-append_le, take-append_add,
  drop-append_le, drop-append_add, holds_below, holds_below_at, Bytes, dec_lt, dec_le, ℕ_discrete,
  codes, bytes_eq, bytes_eq_refl, bytes_eq→eq, bytes_eq_iff,
}

pub record Piece : Type 0 where
  pub start : Option ℕ
  pub size : ℕ

-- `BasicSplitIterator` on a text and a character: `head` and `tail`, or `none` when all three pointers
-- are null. The pointer `last` is the end of the text.
abbrev pub Iterator : Type 0
Iterator = Option (ℕ × ℕ)

-- How far the loop with `if (*tail == split) break` goes in the characters up to `last`.
unfoldable pub scan : ℕ → Bytes → ℕ
scan c [] = 0
scan c (x ∷ xs) = if x == c then 0 else 1 + scan c xs

-- The constructor, with `Init`.
unfoldable pub begin_split : Bytes → ℕ → Iterator
begin_split text c = if length text == 0 then none else some (0, scan c text)

-- `operator++`.
unfoldable pub advance : Bytes → ℕ → Iterator → Iterator
advance text c none = none
advance text c (some (head, tail)) =
    if tail == length text then none else some (tail + 1, tail + 1 + scan c (drop (tail + 1) text))

-- `operator*`.
unfoldable pub current : Iterator → Piece
current none = record { start = none; size = 0 }
current (some (head, tail)) = record {
  start = if tail == head then none else some head;
  size = tail - head;
}

-- `it == tail` for the default constructed `tail`.
unfoldable pub at_end : Iterator → Bool
at_end none = true
at_end (some p) = false

-- `as_string`; `none` where it reads through a null pointer.
unfoldable pub as_string : Bytes → Piece → Option Bytes
as_string text p = elim p.start [
  | none ↦ if p.size == 0 then some [] else none
  | some at ↦ some (take p.size (drop at text))
]

-- The loop `for (it(text, c), tail; it != tail; ++it)`: the pieces that it visits, on fuel.
unfoldable pub visit : Bytes → ℕ → ℕ → Iterator → Option (List Piece)
visit text c zero it = if at_end it then some [] else none
visit text c (suc fuel) it =
    let rest = visit text c fuel (advance text c it) in
    if at_end it then some [] else (elim rest [ none ↦ none | some ps ↦ some (current it ∷ ps) ])

-- `SplitPair`.
unfoldable pub split_pair : Bytes → ℕ → Piece × Piece
split_pair text c =
    let it = begin_split text c in
    let first = current it in
    let it' = advance text c it in
    (
      first,
      if at_end it'
          then record { start = none; size = 0 }
          else record { start = (current it').start; size = length text - first.size - 1 },
    )

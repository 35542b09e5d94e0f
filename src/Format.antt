-- ===== src/Format.antt =====
-- Numbers printed to a fixed width: cpcl/formatidiv.hpp. The loops go from the last place to the first, and what
-- is behind a place is `acc`.
mod Fixed
mod Tests
use image_proxy.Base.{
  ℕ, zero, suc, ◌+◌, ◌-◌, ◌*◌, ◌/◌, ◌%◌, ◌^◌, ◌≤◌, ◌<◌, min, max, ◌≡◌, refl, sym, ap, ap₂, subst,
  ◌∙◌, ◌≢◌, ◌↔◌, ◌⊎◌, inl, inr, Bool, true, false, not, ◌&&◌, ◌||◌, Option, none, some, List, [],
  ◌∷◌, ◌++◌, map, flatten, append-nil, append_assoc, arith, ltb, leb, ◌==◌, if◌then◌else◌, ltb→lt,
  lt→ltb, leb→le, ==→eq, ==_iff, tests, Bool-cases, Option-cases, List-cases, length, get_elem?,
  set, get_or, take, drop, replicate, All, length-append, length-set, length-take, length-drop,
  length-replicate, take-append-drop, get_elem?-set_self, get_elem?-set_ne, take-add, drop-drop,
  take-take, drop-take, take-take-min, take-all, drop-all, take-append_le, take-append_add,
  drop-append_le, drop-append_add, holds_below, holds_below_at, Bytes, dec_lt, dec_le, ℕ_discrete,
  codes, bytes_eq, bytes_eq_refl, bytes_eq→eq, bytes_eq_iff,
}
use image_proxy.Base.Int.{ℤ, pos, negsuc, sub_ℕ, add_ℕ}

-- A character of "0123456789ABCDEF".
abbrev pub hex_digit : ℕ → ℕ
hex_digit d = if ltb d 10 then 48 + d else 55 + d

-- The loop for an unsigned number, over so many places.
unfoldable pub fill : ℕ → ℕ → ℕ → ℕ → Bytes → Bytes
fill base zero v place acc = acc
fill base (suc k) v place acc =
    let c = if v == 0 then place else hex_digit (v % base) in
    fill base k (if v == 0 then v else v / base) place (c ∷ acc)

-- `formatidiv` for `formatidiv_unsigned_tag`.
unfoldable pub formatidiv_unsigned : ℕ → ℕ → ℕ → ℕ → Bytes
formatidiv_unsigned base v width place = fill base width v place []

-- `formatidiv` for `formatidiv_unsigned_hex_tag`: the last four bits and a shift by four.
unfoldable pub formatidiv_hex : ℕ → ℕ → ℕ → Bytes
formatidiv_hex v width place = fill 16 width v place []

-- `formatidiv` for `formatidiv_unsigned_bin_tag`: the last bit and a shift by one.
unfoldable pub formatidiv_bin : ℕ → ℕ → ℕ → Bytes
formatidiv_bin v width place = fill 2 width v place []

-- The loop for a signed number, with the flag `sign`.
unfoldable pub fill_signed : ℕ → ℕ → ℕ → Bool → ℕ → Bytes → Bytes
fill_signed base zero v sign place acc = acc
fill_signed base (suc k) v sign place acc =
    let c = if v == 0 then (if sign then 45 else place) else hex_digit (v % base) in
    fill_signed base k (if v == 0 then v else v / base) (if v == 0 then false else sign) place
      (c ∷ acc)

-- `formatidiv` for `formatidiv_signed_tag`, for the bases other than 2 and 16, and an integer of so many bits. `none` is undefined: the smallest
-- integer has no negative, and a width of 0 has no place for the sign that goes in front.
unfoldable pub formatidiv_signed : ℕ → ℕ → ℤ → ℕ → ℕ → Option Bytes
formatidiv_signed bits base (pos n) width place = some (fill_signed base width n false place [])
formatidiv_signed bits base (negsuc n) width place =
    if leb (2 ^ (bits - 1)) (n + 1)
    then none
    else if not (place == 48)
    then some (fill_signed base width (n + 1) true place [])
    else if width == 0
    then none
    else some (45 ∷ fill_signed base (width - 1) (n + 1) false place [])

-- `formatidiv` of an unsigned integer, as its type and the base choose.
unfoldable pub formatidiv_natural : ℕ → ℕ → ℕ → ℕ → Bytes
formatidiv_natural base v width place =
    if base == 16
    then formatidiv_hex v width place
    else if base == 2
    then formatidiv_bin v width place
    else formatidiv_unsigned base v width place

-- The conversion to the unsigned integer of so many bits.
unfoldable pub as_unsigned : ℕ → ℤ → ℕ
as_unsigned bits (pos n) = n
as_unsigned bits (negsuc n) = 2 ^ bits - (n + 1)

-- `formatidiv` of a signed integer, which for the bases 16 and 2 has specialisations over the unsigned one.
unfoldable pub formatidiv_integer : ℕ → ℕ → ℤ → ℕ → ℕ → Option Bytes
formatidiv_integer bits base v width place =
    if base == 16
    then some (formatidiv_hex (as_unsigned bits v) width place)
    else if base == 2
    then some (formatidiv_bin (as_unsigned bits v) width place)
    else formatidiv_signed bits base v width place

-- ===== src/Memory.antt =====
-- The stream over a fixed piece of memory of cpcl/memory_stream.cpp. The memory is the bytes from `p`
-- on. Sizes are kept below 2 ^ 31 by `&INT_MAX`, and an offset that is added to a size wraps there.
pub mod Contents
pub mod RoundTrip
mod Tests
use image_proxy.Base.{
  ℕ, zero, suc, ◌+◌, ◌-◌, ◌*◌, ◌/◌, ◌%◌, ◌^◌, ◌≤◌, ◌<◌, min, max, ◌≡◌, refl, sym, ap, ap₂, subst,
  ◌∙◌, ◌≢◌, ◌↔◌, ◌⊎◌, inl, inr, Bool, true, false, not, ◌&&◌, ◌||◌, Option, none, some, List, [],
  ◌∷◌, ◌++◌, map, flatten, append-nil, append_assoc, arith, ltb, leb, ◌==◌, if◌then◌else◌, ltb→lt,
  lt→ltb, leb→le, ==→eq, ==_iff, tests, Bool-cases, Option-cases, List-cases, length, get_elem?,
  set, get_or, take, drop, replicate, All, length-append, length-set, length-take, length-drop,
  length-replicate, take-append-drop, get_elem?-set_self, get_elem?-set_ne, take-add, drop-drop,
  take-take, drop-take, take-take-min, take-all, drop-all, take-append_le, take-append_add,
  drop-append_le, drop-append_add, holds_below, holds_below_at, Bytes, dec_lt, dec_le, ℕ_discrete,
  codes, bytes_eq, bytes_eq_refl, bytes_eq→eq, bytes_eq_iff,
}
use image_proxy.Base.Int.{ℤ, pos, negsuc, sub_ℕ, add_ℕ}
use image_proxy.Dynamic

abbrev pub int_mod : ℕ
int_mod = 2 ^ 31

pub record MemoryStream : Type 0 where
  pub state : Bool
  pub p : Bytes
  pub p_size : ℕ
  pub p_offset : ℕ
  pub throw_eof_write : Bool

-- The constructor for a piece of memory of some size.
unfoldable pub init : Bytes → ℕ → Bool → MemoryStream
init p p_size throw_eof_write = record {
  state = true;
  p = p;
  p_size = p_size % int_mod;
  p_offset = 0;
  throw_eof_write = throw_eof_write;
}

-- `Assign`.
unfoldable pub assign : MemoryStream → Bytes → ℕ → MemoryStream
assign s p p_size = record s { p = p; p_size = p_size % int_mod; p_offset = 0; state = true }

-- `ReadByte`.
unfoldable pub read_byte : MemoryStream → MemoryStream × ℕ
read_byte s =
    if ltb s.p_size (s.p_offset + 1)
    then (record s { state = false }, 0)
    else (record s { state = true; p_offset = s.p_offset + 1 }, get_or s.p s.p_offset 0)

-- What `Write` and `WriteByte` do: they throw, or they return.
pub data Written (A : Type 0) : Type 0 where
  throws : MemoryStream → Written A
  returns : MemoryStream → A → Written A

-- `WriteByte`, which returns nothing.
unfoldable pub write_byte : MemoryStream → ℕ → Written (Unit {0})
write_byte s v =
    if ltb s.p_size (s.p_offset + 1)
    then (if s.throw_eof_write
        then throws (record s { state = false })
        else returns (record s { state = false }) tt)
    else returns (record s { state = true; p = set s.p s.p_offset v; p_offset = s.p_offset + 1 }) tt

-- `Clone`, for a stream whose size has been cut already.
unfoldable pub clone : MemoryStream → MemoryStream
clone s = record (init s.p s.p_size s.throw_eof_write) { p_offset = s.p_offset }

-- `CopyTo`, with the output's `Write`.
module _ {ℓ} {S : Type ℓ} (output_write : S → Bytes → S × ℕ) where
  unfoldable pub copy_to : MemoryStream → ℕ → S → S × ℕ
  copy_to s size out =
      output_write out (take (min size (s.p_size - s.p_offset)) (drop s.p_offset s.p))

-- The end of a transfer of some size, `(p_offset + size)&INT_MAX`.
abbrev pub end_of : MemoryStream → ℕ → ℕ
end_of s size = (s.p_offset + size) % int_mod

-- `Read`: the stream, and the bytes that it returned.
unfoldable pub read : MemoryStream → ℕ → MemoryStream × Bytes
read s size =
    let r = min s.p_size (end_of s size) - s.p_offset in
    if ltb (end_of s size) s.p_offset
    then (record s { state = false }, [])
    else if ltb 0 r
    then (record s { p_offset = s.p_offset + r; state = true }, take r (drop s.p_offset s.p))
    else (s, [])

-- `Write`: the stream, and the number that it returned.
unfoldable pub write : MemoryStream → Bytes → Written ℕ
write s chunk =
    let r = min s.p_size (end_of s (length chunk)) - s.p_offset in
    if ltb (end_of s (length chunk)) s.p_offset
    then returns (record s { state = false }) 0
    else if s.throw_eof_write && ltb r (length chunk % int_mod)
    then throws s
    else if ltb 0 r
    then returns
        (record s {
          p = Dynamic.overwrite s.p s.p_offset (take r chunk);
          p_offset = s.p_offset + r;
          state = true;
        })
        r
    else returns s 0

-- The target of `Seek`, as for the growing stream.
unfoldable pub seek_target : MemoryStream → ℤ → ℕ → Option ℤ
seek_target s move_to method =
    if method == 1
    then some (add_ℕ s.p_offset move_to)
    else if method == 2
    then some (add_ℕ s.p_size move_to)
    else if method == 0
    then some move_to
    else none

unfoldable pub seek_to : MemoryStream → Option ℤ → MemoryStream × Bool × Option ℕ
seek_to s none = (s, false, none)
seek_to s (some (negsuc n)) = (s, false, none)
seek_to s (some (pos n)) =
    if ltb s.p_size n then (s, false, none) else (record s { p_offset = n }, true, some n)

-- `Seek`: the stream, the result, and what goes through `position`.
unfoldable pub seek : MemoryStream → ℤ → ℕ → MemoryStream × Bool × Option ℕ
seek s move_to method = seek_to s (seek_target s move_to method)

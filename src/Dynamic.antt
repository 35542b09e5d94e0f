-- ===== src/Dynamic.antt =====
-- The growing memory stream: cpcl/dynamic_memory_stream.cpp.
-- The data that goes in or out through a pointer and a size is a list of bytes; a block is the list
-- of its N bytes. The loops over the block vector go from an iterator on: over the rest of the list.
-- `raw` is what a byte of fresh memory holds. A block count times N counts allocated bytes, so that
-- product does not wrap; the positions are `size_t`, and the sizes of `Read` and `Write` are `uint32`.
pub mod Storage
pub mod Grow
pub mod Append
pub mod State
pub mod Contents
pub mod RoundTrip
pub mod Overrun
mod Tests
use image_proxy.Base.{
  ℕ, zero, suc, ◌+◌, ◌-◌, ◌*◌, ◌/◌, ◌%◌, ◌^◌, ◌≤◌, ◌<◌, min, max, ◌≡◌, refl, sym, ap, ap₂, subst,
  ◌∙◌, ◌≢◌, ◌↔◌, ◌⊎◌, inl, inr, Bool, true, false, not, ◌&&◌, ◌||◌, Option, none, some, List, [],
  ◌∷◌, ◌++◌, map, flatten, append-nil, append_assoc, arith, ltb, leb, ◌==◌, if◌then◌else◌, ltb→lt,
  lt→ltb, leb→le, ==→eq, ==_iff, tests, Bool-cases, Option-cases, List-cases, length, get_elem?,
  set, get_or, take, drop, replicate, All, length-append, length-set, length-take, length-drop,
  length-replicate, take-append-drop, get_elem?-set_self, get_elem?-set_ne, take-add, drop-drop,
  take-take, drop-take, take-take-min, take-all, drop-all, take-append_le, take-append_add,
  drop-append_le, drop-append_add, holds_below, holds_below_at, Bytes, dec_lt, dec_le, ℕ_discrete,
  codes, bytes_eq, bytes_eq_refl, bytes_eq→eq, bytes_eq_iff,
}
use image_proxy.Base.Int.{ℤ, pos, negsuc, add_ℕ, sub_ℕ}

abbrev pub size_mod : ℕ
size_mod = 2 ^ 64

abbrev pub u32_mod : ℕ
u32_mod = 2 ^ 32

pub record MemoryStorage : Type 0 where
  pub block_size : ℕ
  pub blocks : List Bytes

-- `Block`: the iterator of the block that holds an offset, as the blocks from there on.
unfoldable pub block_at : MemoryStorage → ℕ → List Bytes
block_at m offset =
    let idx = offset / m.block_size in if ltb idx (length m.blocks) then drop idx m.blocks else []

-- The loop of `MemoryStorage::Read`: how many bytes it copied, and these.
unfoldable pub read_blocks : ℕ → List Bytes → ℕ → ℕ → ℕ × Bytes
read_blocks block_size [] pad size = (0, [])
read_blocks block_size (b ∷ bs) pad size =
    let n = min (block_size - pad) size in
    let (readed, rest) = read_blocks block_size bs 0 (size - n) in
    if size - n == 0 then (n, take n (drop pad b)) else (n + readed, take n (drop pad b) ++ rest)

-- `MemoryStorage::Read`.
unfoldable pub storage_read : MemoryStorage → ℕ → ℕ → ℕ × Bytes
storage_read m offset size =
    read_blocks m.block_size (block_at m offset) (offset % m.block_size) size

-- A block after `memcpy(*it + pad, chunk, n)`.
unfoldable pub overwrite : Bytes → ℕ → Bytes → Bytes
overwrite b pad chunk = take pad b ++ (chunk ++ drop (pad + length chunk) b)

-- The first loop of `MemoryStorage::Write`: the blocks written over, and the data that is left.
unfoldable pub write_blocks : ℕ → List Bytes → ℕ → Bytes → List Bytes × Bytes
unfolding overwrite
write_blocks block_size [] pad chunk = ([], chunk)
write_blocks block_size (b ∷ bs) pad chunk =
    let n = min (block_size - pad) (length chunk) in
    let b' = overwrite b pad (take n chunk) in
    let (bs', left) = write_blocks block_size bs 0 (drop n chunk) in
    if length chunk - n == 0 then (b' ∷ bs, []) else (b' ∷ bs', left)

-- The second loop: a new block for each further N bytes. `none` means that the fuel ran out.
unfoldable pub append_blocks : ℕ → ℕ → ℕ → Bytes → Option (List Bytes)
append_blocks raw block_size fuel [] = some []
append_blocks raw block_size zero (x ∷ chunk) = none
append_blocks raw block_size (suc fuel) (x ∷ chunk) =
    let n = min block_size (length (x ∷ chunk)) in
    let b = overwrite (replicate block_size raw) 0 (take n (x ∷ chunk)) in
    let rest = append_blocks raw block_size fuel (drop n (x ∷ chunk)) in
    elim rest [ none ↦ none | some bs ↦ some (b ∷ bs) ]

-- `blocks.push_back(new unsigned char[N])` where the offset is just behind the last block.
unfoldable pub grow : ℕ → MemoryStorage → ℕ → MemoryStorage
grow raw m offset =
    if length m.blocks * m.block_size == offset
    then record m { blocks = m.blocks ++ (replicate m.block_size raw ∷ []) }
    else m

-- `MemoryStorage::Write` behind the first loop, which went over the blocks `at` and left `out`.
unfoldable pub write_rest :
    ℕ → MemoryStorage → List Bytes → Bytes → List Bytes × Bytes → Option (MemoryStorage × ℕ)
write_rest raw m at chunk (at', left) =
    let before = take (length m.blocks - length at) m.blocks in
    let written = length chunk - length left in
    if (written == 0) && not (length chunk == 0)
    then some (record m { blocks = before ++ at' }, 0)
    else elim (append_blocks raw m.block_size (length left) left) [
      | none ↦ none
      | some more ↦ some (record m { blocks = before ++ (at' ++ more) }, length chunk)
    ]

-- `MemoryStorage::Write` from the first loop on, whose iterator starts at the blocks `at`.
unfoldable pub write_from : ℕ → MemoryStorage → List Bytes → ℕ → Bytes → Option (MemoryStorage × ℕ)
write_from raw m at offset chunk =
    write_rest raw m at chunk (write_blocks m.block_size at (offset % m.block_size) chunk)

-- `MemoryStorage::Write`: the storage, and how many bytes it took.
unfoldable pub storage_write : ℕ → MemoryStorage → ℕ → Bytes → Option (MemoryStorage × ℕ)
storage_write raw m offset chunk =
    let m1 = grow raw m offset in write_from raw m1 (block_at m1 offset) offset chunk

pub record DynamicMemoryStream : Type 0 where
  pub state : Bool
  pub memory_storage : MemoryStorage
  pub p_size : ℕ
  pub p_offset : ℕ

-- The constructor.
unfoldable pub init : ℕ → DynamicMemoryStream
init block_size = record {
  state = true;
  memory_storage = record { block_size = block_size; blocks = [] };
  p_size = 0;
  p_offset = 0;
}

-- `Read`: the stream, and the bytes that it returned.
unfoldable pub read : DynamicMemoryStream → ℕ → DynamicMemoryStream × Bytes
read s size =
    let size' = min size ((size_mod + s.p_size - s.p_offset) % u32_mod) in
    let (r, bytes) = storage_read s.memory_storage s.p_offset size' in
    if ltb 0 size'
    then (record s { p_offset = (s.p_offset + r % u32_mod) % size_mod; state = true }, bytes)
    else (s, [])

-- `Write`: the stream, and the number that it returned.
unfoldable pub write : ℕ → DynamicMemoryStream → Bytes → Option (DynamicMemoryStream × ℕ)
write raw s chunk =
    if not (s.p_size == s.p_offset)
    then some (record s { state = false }, 0)
    else if length chunk == 0
    then some (s, 0)
    else elim (storage_write raw s.memory_storage s.p_offset chunk) [
      | none ↦ none
      | some (m, r) ↦
          let p = (r % u32_mod + s.p_size) % size_mod in
          some (record { state = true; memory_storage = m; p_size = p; p_offset = p }, r % u32_mod)
    ]

-- The `move_method` of `Seek`: SEEK_SET is 0, SEEK_CUR 1 and SEEK_END 2.
unfoldable pub seek_target : DynamicMemoryStream → ℤ → ℕ → Option ℤ
seek_target s move_to method =
    if method == 1
    then some (add_ℕ s.p_offset move_to)
    else if method == 2
    then some (add_ℕ s.p_size move_to)
    else if method == 0
    then some move_to
    else none

-- `Seek` behind the choice of the target.
unfoldable pub seek_to : DynamicMemoryStream → Option ℤ → DynamicMemoryStream × Bool × Option ℕ
seek_to s none = (s, false, none)
seek_to s (some (negsuc n)) = (s, false, none)
seek_to s (some (pos n)) =
    if ltb s.p_size n then (s, false, none) else (record s { p_offset = n }, true, some n)

-- `Seek`: the stream, the result, and what goes through `position`.
unfoldable pub seek : DynamicMemoryStream → ℤ → ℕ → DynamicMemoryStream × Bool × Option ℕ
unfolding seek_to
seek s move_to method = seek_to s (seek_target s move_to method)

-- `Tell` and `Size`.
unfoldable pub tell : DynamicMemoryStream → ℕ
tell s = s.p_offset

unfoldable pub stream_size : DynamicMemoryStream → ℕ
stream_size s = s.p_size

-- The loop of `CopyTo`. The output's `Write` takes its state and the data, and says how many bytes
-- it wrote.
module _ {ℓ} {S : Type ℓ} (output_write : S → Bytes → S × ℕ) where
  unfoldable pub copy_blocks : ℕ → List Bytes → ℕ → ℕ → S → S × ℕ
  copy_blocks block_size [] pad size out = (out, 0)
  copy_blocks block_size (b ∷ bs) pad size out =
      let n = min (block_size - pad) size in
      let (out1, written) = output_write out (take n (drop pad b)) in
      let (out2, more) = copy_blocks block_size bs 0 (size - n) out1 in
      if not (written == n)
      then (out1, written)
      else if size - n == 0
      then (out1, written)
      else (out2, written + more)

  -- `CopyTo`.
  unfoldable pub copy_to : DynamicMemoryStream → ℕ → S → S × ℕ
  copy_to s size out =
      copy_blocks s.memory_storage.block_size (block_at s.memory_storage s.p_offset)
        (s.p_offset % s.memory_storage.block_size) size out

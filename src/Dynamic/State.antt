-- ===== src/Dynamic/State.antt =====
-- The stream as a byte string with a position: the valid streams, and what the storage holds.
use image_proxy.Base.{
  ℕ, ◌+◌, ◌-◌, ◌*◌, ◌/◌, ◌%◌, ◌≤◌, ◌<◌, min, ◌≡◌, refl, sym, ap, ◌∙◌, false, List, [], ◌∷◌, flatten,
  arith, ltb, lt→ltb, length, take, drop, length-append, length-take, length-drop, drop-drop,
  take-all, drop-all, Bytes, dec_lt,
}
use image_proxy.Dynamic.{
  MemoryStorage, block_at, read_blocks, storage_read, DynamicMemoryStream, init, size_mod,
}
use image_proxy.Dynamic.Storage.{
  AllFull, length-flatten, AllFull-drop, flatten-drop, read_blocks_lem,
}

-- The position is within the size, and the blocks are as many as the size wants.
pub record IsValid (s : DynamicMemoryStream) : Type 0 where
  pub positive : 0 < s.memory_storage.block_size
  pub full : AllFull s.memory_storage.block_size s.memory_storage.blocks
  pub offset_in : s.p_offset ≤ s.p_size
  pub covered : s.p_size ≤ length s.memory_storage.blocks * s.memory_storage.block_size
  pub tight :
      length s.memory_storage.blocks * s.memory_storage.block_size
      < s.p_size + s.memory_storage.block_size
  pub in_memory : s.p_size < size_mod

-- The bytes that were written.
unfoldable pub contents : DynamicMemoryStream → Bytes
contents s = take s.p_size (flatten s.memory_storage.blocks)

pub length-contents : (s : DynamicMemoryStream) → IsValid s → length (contents s) ≡ s.p_size
unfolding contents
length-contents s v = omega (
  arith,
  length-take s.p_size (flatten s.memory_storage.blocks),
  length-flatten s.memory_storage.block_size s.memory_storage.blocks v.full,
  v.covered,
)

pub init-IsValid : (block_size : ℕ) → 0 < block_size → IsValid (init block_size)
unfolding init
init-IsValid block_size h = record {
  positive = h;
  full = tt;
  offset_in = omega arith;
  covered = omega arith;
  tight = omega arith;
  in_memory = omega arith;
}

pub read_blocks-count :
    (n : ℕ) (bs : List Bytes) (pad size : ℕ)
    → AllFull n bs
    → pad < n
    → (read_blocks n bs pad size).0 ≡ length (read_blocks n bs pad size).1
unfolding read_blocks
read_blocks-count n [] pad size h p = refl
read_blocks-count n (b ∷ bs) pad size h p = ground (
  arith,
  h.0,
  read_blocks-count n bs 0 (size - min (n - pad) size) h.1,
  length-take (min (n - pad) size) (drop pad b),
  length-drop pad b,
  length-append (take (min (n - pad) size) (drop pad b))
      (read_blocks n bs 0 (size - min (n - pad) size)).1,
)

pub times_mono : (l i n : ℕ) → l ≤ i → l * n ≤ i * n
times_mono l i n h = grind arith

pub storage_read-count :
    (m : MemoryStorage) (offset size : ℕ)
    → 0 < m.block_size
    → AllFull m.block_size m.blocks
    → (storage_read m offset size).0 ≡ length (storage_read m offset size).1
unfolding storage_read block_at
storage_read-count m offset size pos full =
    elim (dec_lt (offset / m.block_size) (length m.blocks)) [
      | yes p ↦ rw (lt→ltb _ _ p) (
          read_blocks-count m.block_size _ _ size (AllFull-drop m.block_size _ m.blocks full)
            (omega arith))
      | no p ↦
          let z : ltb (offset / m.block_size) (length m.blocks) ≡ false = ground arith in
          rw z (read_blocks-count m.block_size [] _ size tt (omega arith))
    ]

-- `MemoryStorage::Read` copies what stands behind the offset in the blocks.
pub storage_read_lem :
    (m : MemoryStorage) (offset size : ℕ)
    → 0 < m.block_size
    → AllFull m.block_size m.blocks
    → (storage_read m offset size).1 ≡ take size (drop offset (flatten m.blocks))
unfolding storage_read block_at read_blocks
storage_read_lem m offset size pos full = elim (dec_lt (offset / m.block_size) (length m.blocks)) [
  | yes p ↦ rw (lt→ltb _ _ p) (
      read_blocks_lem n (drop idx m.blocks) (offset % n) size (AllFull-drop n idx m.blocks full)
        (omega arith)
      ∙ ap (take size) (
          ap (drop (offset % n)) (flatten-drop n idx (idx * n) m.blocks full refl)
          ∙ drop-drop offset (idx * n) (offset % n) (flatten m.blocks) (omega arith)))
  | no p ↦
      let z : ltb idx (length m.blocks) ≡ false = ground arith in
      rw
        (
          z,
          drop-all offset (flatten m.blocks) (
              omega (
                arith,
                length-flatten n m.blocks full,
                times_mono (length m.blocks) idx n (omega arith),
              )),
        )
        (sym (take-all size [] (omega arith)))
]
  where
    n : ℕ
    n = m.block_size

    idx : ℕ
    idx = offset / m.block_size

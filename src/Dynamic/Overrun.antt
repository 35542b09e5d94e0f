-- ===== src/Dynamic/Overrun.antt =====
-- `CopyTo`, which copies from the blocks without looking at the size of the data.
use image_proxy.Base.{
  ℕ, ◌-◌, ◌*◌, ◌≤◌, ◌<◌, min, ◌≡◌, ap, ◌∙◌, List, [], ◌∷◌, ◌++◌, flatten, append-nil, append_assoc,
  arith, length, take, drop, length-take, length-drop, take-all, Bytes,
}
use image_proxy.Dynamic.{
  DynamicMemoryStream, copy_blocks, copy_to, read, u32_mod, storage_read, read_blocks,
}
use image_proxy.Dynamic.Storage.{AllFull, length-flatten, block_at-AllFull}
use image_proxy.Dynamic.Contents.{read_lem}
use image_proxy.Dynamic.State.{
  IsValid, contents, storage_read_lem, length-contents, storage_read-count,
}

-- An output that takes whatever it is given.
unfoldable pub sink : Bytes → Bytes → Bytes × ℕ
sink out chunk = (out ++ chunk, length chunk)

-- The loop hands the bytes to the output that `MemoryStorage::Read` would copy.
copy_blocks-sink :
    (n : ℕ) (bs : List Bytes) (pad size : ℕ) (out : Bytes)
    → AllFull n bs
    → pad < n
    → copy_blocks sink n bs pad size out
      ≡ (out ++ (read_blocks n bs pad size).1, (read_blocks n bs pad size).0)
unfolding copy_blocks read_blocks sink
copy_blocks-sink n [] pad size out h p = rw append-nil
copy_blocks-sink n (b ∷ bs) pad size out h p = ground (
  arith,
  h.0,
  copy_blocks-sink n bs 0 (size - min (n - pad) size)
      (out ++ take (min (n - pad) size) (drop pad b)) h.1,
  length-take (min (n - pad) size) (drop pad b),
  length-drop pad b,
  append_assoc out (take (min (n - pad) size) (drop pad b))
      (read_blocks n bs 0 (size - min (n - pad) size)).1,
)

copy_to-storage_read :
    (s : DynamicMemoryStream) (size : ℕ) (out : Bytes)
    → IsValid s
    → copy_to sink s size out ≡ (
      out ++ (storage_read s.memory_storage s.p_offset size).1,
      (storage_read s.memory_storage s.p_offset size).0,
    )
unfolding copy_to storage_read
copy_to-storage_read s size out v =
    copy_blocks-sink s.memory_storage.block_size _ _ size out
      (block_at-AllFull s.memory_storage s.p_offset v.full) (omega (arith, v.positive))

-- `CopyTo` goes on behind the end of the data: it hands out whatever the blocks hold from the
-- position on, so up to `size` bytes of the allocated memory and not of the contents.
pub copy_to_overrun :
    (s : DynamicMemoryStream) (size : ℕ) (out : Bytes)
    → IsValid s
    → s.p_size - s.p_offset < u32_mod
    → length s.memory_storage.blocks * s.memory_storage.block_size - s.p_offset ≤ size
    → ((copy_to sink s size out).0 ≡ out ++ drop s.p_offset (flatten s.memory_storage.blocks))
      × ((copy_to sink s size out).1
          ≡ length s.memory_storage.blocks * s.memory_storage.block_size - s.p_offset)
      × (length (read s size).1 ≡ s.p_size - s.p_offset)
copy_to_overrun s size out v u h = (
  ap (λ (r : Bytes × ℕ). r.0) (copy_to-storage_read s size out v) ∙ ap (λ b. out ++ b) whole,
  ap (λ (r : Bytes × ℕ). r.1) (copy_to-storage_read s size out v)
      ∙ storage_read-count s.memory_storage s.p_offset size v.positive v.full
      ∙ ap length whole
      ∙ rest,
  omega (
    arith,
    ap length (read_lem s size v u).0,
    length-take size (drop s.p_offset (contents s)),
    length-drop s.p_offset (contents s),
    length-contents s v,
    v.covered,
  ),
)
  where
    rest :
        length (drop s.p_offset (flatten s.memory_storage.blocks))
        ≡ length s.memory_storage.blocks * s.memory_storage.block_size - s.p_offset
    rest = omega (
      arith,
      length-drop s.p_offset (flatten s.memory_storage.blocks),
      length-flatten s.memory_storage.block_size s.memory_storage.blocks v.full,
    )

    whole :
        (storage_read s.memory_storage s.p_offset size).1
        ≡ drop s.p_offset (flatten s.memory_storage.blocks)
    whole =
        storage_read_lem s.memory_storage s.p_offset size v.positive v.full
        ∙ take-all size _ (omega (arith, rest))

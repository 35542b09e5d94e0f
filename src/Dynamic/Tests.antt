-- ===== src/Dynamic/Tests.antt =====
-- Concrete runs of the growing stream.
use image_proxy.Base.{
  ℕ, ◌+◌, ◌≤◌, ◌≡◌, refl, true, some, [], ◌∷◌, ◌++◌, flatten, arith, length, take, drop,
}
use image_proxy.Base.Int.{pos, negsuc}
use image_proxy.Dynamic.{
  DynamicMemoryStream, init, block_at, overwrite, write_blocks, append_blocks, grow, write_rest,
  write_from, storage_write, read, write, seek_target, seek, copy_to,
}
use image_proxy.Dynamic.Contents.{write_lem, read_lem}
use image_proxy.Dynamic.State.{IsValid, contents}
use image_proxy.Dynamic.RoundTrip.{Sought, seek_lem, write-seek-read, write_all}
use image_proxy.Dynamic.Overrun.{sink, copy_to_overrun}

-- A stream with blocks of four bytes that holds five bytes, at its end and after two of them.
abbrev five : DynamicMemoryStream
five = record {
  state = true;
  memory_storage = record {
    block_size = 4;
    blocks = (1 ∷ 2 ∷ 3 ∷ 4 ∷ []) ∷ (5 ∷ 9 ∷ 9 ∷ 9 ∷ []) ∷ [];
  };
  p_size = 5;
  p_offset = 5;
}

abbrev five_at : ℕ → DynamicMemoryStream
five_at n = record five { p_offset = n }

five-IsValid : (n : ℕ) → n ≤ 5 → IsValid (five_at n)
five-IsValid n h = record {
  positive = omega arith;
  full = (refl, (refl, tt));
  offset_in = h;
  covered = omega arith;
  tight = omega arith;
  in_memory = omega arith;
}

five_written : write_all 9 (init 4) ((1 ∷ 2 ∷ 3 ∷ []) ∷ (4 ∷ 5 ∷ []) ∷ []) ≡ some five
unfolding write_all write init storage_write grow write_from write_rest write_blocks append_blocks
    overwrite block_at
five_written = refl

write_lem_example :
    (s' : DynamicMemoryStream) × (write 0 (five_at 5) (6 ∷ 7 ∷ 8 ∷ 9 ∷ []) ≡ some (s', 4))
    × IsValid s'
    × (contents s' ≡ contents (five_at 5) ++ (6 ∷ 7 ∷ 8 ∷ 9 ∷ []))
    × (s'.p_offset ≡ s'.p_size)
write_lem_example =
    write_lem 0 (five_at 5) (6 ∷ 7 ∷ 8 ∷ 9 ∷ []) (five-IsValid 5 (omega arith)) refl (omega arith)
      (omega arith)

read_lem_run :
    let (s', bytes) = read (five_at 2) 10 in
    (bytes ≡ take 10 (drop 2 (contents (five_at 2))))
    × (s'.p_offset ≡ 2 + length bytes)
    × (contents s' ≡ contents (five_at 2))
    × IsValid s'
read_lem_run = read_lem (five_at 2) 10 (five-IsValid 2 (omega arith)) (omega arith)

seek_run :
    IsValid (seek (five_at 2) (negsuc 0) 2).0
    × (contents (seek (five_at 2) (negsuc 0) 2).0 ≡ contents (five_at 2))
    × Sought (five_at 2) (seek_target (five_at 2) (negsuc 0) 2) (seek (five_at 2) (negsuc 0) 2)
seek_run = seek_lem (five_at 2) (negsuc 0) 2 (five-IsValid 2 (omega arith))

write-seek-read_example :
    (s : DynamicMemoryStream) × (write_all 9 (init 4) ((1 ∷ 2 ∷ 3 ∷ []) ∷ (4 ∷ 5 ∷ []) ∷ [])
      ≡ some s)
    × ((read (seek s (pos 0) 0).0 4).1 ≡ 1 ∷ 2 ∷ 3 ∷ 4 ∷ [])
unfolding flatten
write-seek-read_example =
    write-seek-read 9 4 4 ((1 ∷ 2 ∷ 3 ∷ []) ∷ (4 ∷ 5 ∷ []) ∷ []) (omega arith) (omega arith)

-- Three bytes are left, and `CopyTo` hands out six.
copy_to_overrun_example :
    ((copy_to sink (five_at 2) 6 []).0 ≡ 3 ∷ 4 ∷ 5 ∷ 9 ∷ 9 ∷ 9 ∷ [])
    × ((copy_to sink (five_at 2) 6 []).1 ≡ 6)
    × (length (read (five_at 2) 6).1 ≡ 3)
unfolding flatten
copy_to_overrun_example =
    copy_to_overrun (five_at 2) 6 [] (five-IsValid 2 (omega arith)) (omega arith) (omega arith)

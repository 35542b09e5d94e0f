-- ===== src/Memory/Tests.antt =====
-- Concrete runs of the stream over fixed memory.
use image_proxy.Base.{◌+◌, ◌≡◌, refl, Bool, true, false, [], ◌∷◌, arith, length}
use image_proxy.Base.Int.{pos}
use image_proxy.Dynamic
use image_proxy.Memory.{MemoryStream, throws, returns, init, read, write, seek}
use image_proxy.Memory.Contents.{IsValid, read_next, write_some}
use image_proxy.Memory.RoundTrip.{write-seek_back-read}

-- Four bytes of memory with the position at 1.
abbrev four : Bool → MemoryStream
four throwing = record (init (1 ∷ 2 ∷ 3 ∷ 4 ∷ []) 4 throwing) { p_offset = 1 }

four-IsValid : (throwing : Bool) → IsValid (four throwing)
unfolding init
four-IsValid throwing = record { offset_in = omega arith; in_memory = refl; below = omega arith }

read_next_run :
    let (s', bytes) = read (four false) 7 in
    (bytes ≡ 2 ∷ 3 ∷ 4 ∷ [])
    × (s'.p_offset ≡ 1 + length bytes)
    × (s'.p ≡ (four false).p)
    × IsValid s'
unfolding init
read_next_run = read_next (four false) 7 (four-IsValid false) (omega arith)

-- Five bytes into a rest of three: the stream throws.
write_some_run :
    (s' : MemoryStream) × (write (four true) (5 ∷ 6 ∷ 7 ∷ 8 ∷ 9 ∷ []) ≡ throws (four true))
    × (s'.p ≡ Dynamic.overwrite (four true).p 1 (5 ∷ 6 ∷ 7 ∷ []))
    × (s'.p_offset ≡ 4)
    × IsValid s'
unfolding init
write_some_run = write_some (four true) (5 ∷ 6 ∷ 7 ∷ 8 ∷ 9 ∷ []) (four-IsValid true) (omega arith)

write-seek_back-read_example :
    (s' : MemoryStream) × (write (four true) (8 ∷ 9 ∷ []) ≡ returns s' 2)
    × ((read (seek s' (pos 1) 0).0 2).1 ≡ 8 ∷ 9 ∷ [])
unfolding init
write-seek_back-read_example =
    write-seek_back-read (four true) (8 ∷ 9 ∷ []) (four-IsValid true) (omega arith)

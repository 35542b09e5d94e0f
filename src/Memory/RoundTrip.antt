-- ===== src/Memory/RoundTrip.antt =====
-- What was written into the fixed memory read back, and single bytes.
use image_proxy.Base.{
  ℕ, ◌+◌, ◌-◌, ◌≤◌, min, ◌≡◌, refl, ap, ◌∙◌, Bool, false, ◌&&◌, ◌++◌, arith, ltb, if◌then◌else◌,
  length, take, drop, length-take, take-all, take-append_le, drop-append_add, Bytes,
}
use image_proxy.Base.Int.{pos}
use image_proxy.Dynamic
use image_proxy.Memory.{MemoryStream, throws, returns, read, write, seek, seek_to, seek_target}
use image_proxy.Memory.Contents.{IsValid, read_next, write_some}

seek_set :
    (s : MemoryStream) (n : ℕ) → n ≤ s.p_size → (seek s (pos n) 0).0 ≡ record s { p_offset = n }
unfolding seek seek_to seek_target
seek_set s n h = let e : ltb s.p_size n ≡ false = ground arith in rw e refl

drop-overwrite :
    (b : Bytes) (at : ℕ) (chunk : Bytes)
    → at ≤ length b
    → drop at (Dynamic.overwrite b at chunk) ≡ chunk ++ drop (at + length chunk) b
unfolding Dynamic.overwrite
drop-overwrite b at chunk h = drop-append_add at 0 (take at b) _ (omega (arith, length-take at b))

picked :
    (s s' : MemoryStream) (throwing : Bool) (k n : ℕ)
    → k ≡ n
    → (if throwing && ltb k n then throws s else returns s' k) ≡ returns s' n
picked s s' throwing k n e =
    let fits : (throwing && ltb k n) ≡ false = ground arith in rw fits (ap (returns s') e)

-- Data that fits into the rest of a valid stream is written whole, the stream does not throw, and after
-- `Seek` back to where it was put `Read` returns it.
pub write-seek_back-read :
    (s : MemoryStream) (chunk : Bytes)
    → IsValid s
    → s.p_offset + length chunk ≤ s.p_size
    → (s' : MemoryStream) × (write s chunk ≡ returns s' (length chunk))
      × ((read (seek s' (pos s.p_offset) 0).0 (length chunk)).1 ≡ chunk)
write-seek_back-read s chunk v h =
    let (s', w, p, o, v') = write_some s chunk v (omega (arith, v.below)) in
    let n : min (length chunk) (s.p_size - s.p_offset) ≡ length chunk = omega arith in
    let whole : take (length chunk) chunk ≡ chunk = take-all (length chunk) chunk (omega arith) in
    let p' : s'.p ≡ Dynamic.overwrite s.p s.p_offset chunk =
      p ∙ ap (Dynamic.overwrite s.p s.p_offset) (ap (λ k. take k chunk) n ∙ whole) in
    let back : IsValid (record s' { p_offset = s.p_offset }) = record {
      offset_in = omega (arith, v'.offset_in);
      in_memory = v'.in_memory;
      below = v'.below;
    } in
    let r =
      (read_next (record s' { p_offset = s.p_offset }) (length chunk) back
        (omega (arith, v.below))).0 in
    let after : drop s.p_offset s'.p ≡ chunk ++ drop (s.p_offset + length chunk) s.p =
      ap (drop s.p_offset) p' ∙ drop-overwrite s.p s.p_offset chunk (omega (arith, v.in_memory)) in
    (
      s',
      w ∙ picked s s' s.throw_eof_write _ (length chunk) n,
      ap (λ t. (read t (length chunk)).1) (seek_set s' s.p_offset (omega (arith, v'.offset_in, o)))
          ∙ r
          ∙ ap (take (length chunk)) after
          ∙ take-append_le (length chunk) chunk _ (omega arith)
          ∙ whole,
    )

-- ===== src/Chunk/Tests.antt =====
-- Concrete chunks.
use image_proxy.Base.{
  ◌≤◌, ◌≡◌, refl, true, some, [], ◌∷◌, ◌++◌, flatten, arith, length, replicate, Bytes, codes,
  bytes_eq,
}
use image_proxy.Dynamic
use image_proxy.Dynamic.{
  DynamicMemoryStream, block_at, size_mod, u32_mod, read_blocks, storage_read, overwrite,
  write_blocks, append_blocks, grow, write_rest, write_from, storage_write, init, read, write,
  seek_target, seek_to, seek, tell, stream_size, copy_blocks, copy_to, MemoryStorage,
}
use image_proxy.Dynamic.State.{IsValid, contents}
use image_proxy.Response.{string_format, digits, show_hex}
use image_proxy.Response.{crlf}
use image_proxy.Chunk.{size_line, build_chunk}
use image_proxy.Chunk.Frame.{build_chunk-first_size}
use image_proxy.Chunk.Codec.{
  chunk_text, hex_value, read_size, first_size, chunk_data, read_chunk, dechunk,
}
use image_proxy.Chunk.Stream.{send_all-Sent, sending, left, Sent}

-- A stream with one block of four bytes, of which three are its contents, at the start.
abbrev three : DynamicMemoryStream
three = record {
  state = true;
  memory_storage = record { block_size = 4; blocks = (97 ∷ 98 ∷ 99 ∷ 0 ∷ []) ∷ [] };
  p_size = 3;
  p_offset = 0;
}

three-IsValid : IsValid three
three-IsValid = record {
  positive = omega arith;
  full = (refl, tt);
  offset_in = omega arith;
  covered = omega arith;
  tight = omega arith;
  in_memory = omega arith;
}

abbrev area : Bytes
area = replicate 0x1000 0

dechunk_run :
    dechunk 3 (
      codes "3"
      ++ (13 ∷ (10 ∷ (codes "abc" ++ (13 ∷ (10 ∷ (codes "0" ++ (13 ∷ (10 ∷ (13 ∷ (10 ∷ [])))))))))))
    ≡ some (codes "abc")
unfolding dechunk read_chunk first_size read_size hex_value chunk_data bytes_eq
dechunk_run = refl

chunk_text_run :
    chunk_text (codes "abc") ≡ codes "3" ++ (13 ∷ (10 ∷ (codes "abc" ++ (13 ∷ (10 ∷ [])))))
unfolding size_line string_format show_hex digits
chunk_text_run = refl

build_chunk-first_size_example :
    let (buf1, sent) = build_chunk (Dynamic.overwrite area 6 (codes "abc")) 3 in
    (first_size sent ≡ some (3, codes "abc" ++ crlf))
    × (length buf1 ≡ 0x1000)
    × (length sent ≤ 0x1000)
build_chunk-first_size_example = build_chunk-first_size area (codes "abc") refl (omega arith)

send_all-Sent_example : Sent 5 (sending three area) (left three)
unfolding contents flatten
send_all-Sent_example = send_all-Sent 5 three area three-IsValid (omega arith) refl (omega arith)

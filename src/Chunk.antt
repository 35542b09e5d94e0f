-- ===== src/Chunk.antt =====
-- The chunked body of a response, `BuildChunk` and `handle_write_response` of
-- webhdfs_image_proxy/connection.cpp. The connection's buffer is the list of its 0x1000 bytes. A chunk
-- is read into the buffer at `CHUNK_OFFSET`; its size stands in front of it and a line's end behind.
pub mod Codec
pub mod Frame
pub mod Stream
mod Tests
use image_proxy.Base.{
  ℕ, zero, suc, ◌+◌, ◌-◌, ◌*◌, ◌/◌, ◌%◌, ◌^◌, ◌≤◌, ◌<◌, min, max, ◌≡◌, refl, sym, ap, ap₂, subst,
  ◌∙◌, ◌≢◌, ◌↔◌, ◌⊎◌, inl, inr, Bool, true, false, not, ◌&&◌, ◌||◌, Option, none, some, List, [],
  ◌∷◌, ◌++◌, map, flatten, append-nil, append_assoc, arith, ltb, leb, ◌==◌, if◌then◌else◌, ltb→lt,
  lt→ltb, leb→le, ==→eq, ==_iff, tests, Bool-cases, Option-cases, List-cases, length, get_elem?,
  set, get_or, take, drop, replicate, All, length-append, length-set, length-take, length-drop,
  length-replicate, take-append-drop, get_elem?-set_self, get_elem?-set_ne, take-add, drop-drop,
  take-take, drop-take, take-take-min, take-all, drop-all, take-append_le, take-append_add,
  drop-append_le, drop-append_add, holds_below, holds_below_at, Bytes, dec_lt, dec_le, ℕ_discrete,
  codes, bytes_eq, bytes_eq_refl, bytes_eq→eq, bytes_eq_iff,
}
use image_proxy.Dynamic
use image_proxy.Dynamic.{
  DynamicMemoryStream, size_mod, u32_mod, block_at, read_blocks, storage_read, overwrite,
  write_blocks, append_blocks, grow, write_rest, write_from, storage_write, init, read, write,
  seek_target, seek_to, seek, tell, stream_size, copy_blocks, copy_to, MemoryStorage,
}
use image_proxy.Base.Int.{ℤ, pos, negsuc, sub_ℕ, add_ℕ}
use image_proxy.Response.{
  crlf, show_hex, string_format, is_code, buffer_size, string_advance, write_header, digit, digits,
  show_unsigned, show_int, c_str, build_request, responses, find_message, message, pf_s,
  find_pixfmt, json_response, write_headers, build_response, Page,
}

-- `CHUNK_OFFSET` and `MAX_CHUNK_SIZE`.
abbrev pub chunk_offset : ℕ
chunk_offset = 6

abbrev pub max_chunk_size : ℕ
max_chunk_size = 0x1000 - 8

-- `tmp`, as far as it is used: the size in hexadecimal and a line's end.
unfoldable pub size_line : ℕ → Bytes
size_line chunk_size = string_format (chunk_offset + 1) (show_hex chunk_size ++ crlf)

-- `BuildChunk`: the buffer, and what is sent of it.
unfoldable pub build_chunk : Bytes → ℕ → Bytes × Bytes
build_chunk buf chunk_size =
    let tmp = size_line chunk_size in
    let n = length tmp in
    let buf1 = Dynamic.overwrite buf (chunk_offset - n) tmp in
    let buf2 = Dynamic.overwrite buf1 (chunk_offset + chunk_size) crlf in
    (buf2, take (chunk_size + n + 2) (drop (chunk_offset - n) buf2))

-- What `handle_write_response` works on.
pub record Sending : Type 0 where
  pub status_code : ℤ
  pub image : Option DynamicMemoryStream
  pub buffer : Bytes

-- `handle_write_response` without an error, for the image: the state, and what is sent next.
unfoldable pub write_next : Sending → Option DynamicMemoryStream → Sending × Option Bytes
write_next c none = (c, none)
write_next c (some s) =
    if is_code 200 c.status_code
    then (let (s1, bytes) = Dynamic.read s max_chunk_size in
        let (buf, chunk) =
          build_chunk (Dynamic.overwrite c.buffer chunk_offset bytes) (length bytes) in
        (
          record c { image = if length bytes == 0 then none else some s1; buffer = buf },
          some chunk,
        ))
    else (c, none)

unfoldable pub handle_write : Sending → Sending × Option Bytes
unfolding write_next
handle_write c = write_next c c.image

-- A text in front of what is sent after it.
unfoldable pub prepend : Bytes → Option (List Bytes) → Option (List Bytes)
prepend x none = none
prepend x (some xs) = some (x ∷ xs)

-- The calls of the handler one after the other, each write a success, on fuel: what they send.
unfoldable pub send_all : ℕ → Sending → Option (List Bytes)
send_all zero c = none
send_all (suc fuel) c =
    let (c1, chunk) = handle_write c in
    elim chunk [ none ↦ some [] | some x ↦ prepend x (send_all fuel c1) ]

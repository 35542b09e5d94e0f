-- ===== src/Connection/Answer.antt =====
-- The answers to the client: `SendResponse` and `handle_write_response` of
-- webhdfs_image_proxy/connection.cpp.
use image_proxy.Base.{ℕ, not, ◌&&◌, Option, none, some, List, ◌==◌, if◌then◌else◌, Bytes}
use image_proxy.Base.Int.{ℤ, pos}
use image_proxy.Dynamic.{
  DynamicMemoryStream, stream_size, size_mod, u32_mod, block_at, read_blocks, storage_read,
  overwrite, write_blocks, append_blocks, grow, write_rest, write_from, storage_write, init, read,
  write, seek_target, seek_to, seek, tell, copy_blocks, copy_to, MemoryStorage,
}
use image_proxy.Dynamic
use image_proxy.Http.{update, Store}
use image_proxy.Response.{build_response, is_code}
use image_proxy.Chunk.{Sending, handle_write}
use image_proxy.Connection.{
  writes_response, success, eof, failure, Connection, begin, rewind, ErrorCode, success, eof,
  failure,
}

-- `SendResponse` for an image response, up to the status: the code, and the connection.
unfoldable pub checked_at : ℤ → Option ℕ → Connection → ℤ × Connection
checked_at code none c = (pos 500, c)
checked_at code (some h) c =
    let c1 = rewind h c in (if stream_size (c1.store h) == 0 then pos 500 else code, c1)

-- `SendResponse` up to the status.
unfoldable pub checked : ℤ → Connection → ℤ × Connection
checked code c =
    if is_code 200 code && not c.query.json
    then checked_at code c.image c
    else (code, record c { image = none })

-- A text that was written to the front of the buffer.
unfoldable pub fill : Bytes → Connection → Connection
fill text c = record c { buffer = Dynamic.overwrite c.buffer 0 text }

-- `SendResponse`.
unfoldable pub send_response : List ℕ → ℤ → Connection → Connection
send_response pixfmts code c =
    let (code', c1) = checked code c in
    let text = build_response pixfmts code' c1.query.json c1.page in
    begin (writes_response text) (fill text (record c1 { status_code = code' }))

-- The image's stream.
unfoldable pub stream_at : Option ℕ → Store → Option DynamicMemoryStream
stream_at none st = none
stream_at (some h) st = some (st h)

unfoldable pub image_stream : Connection → Option DynamicMemoryStream
image_stream c = stream_at c.image c.store

-- The image's stream after a read; without one, `image.reset()`.
unfoldable pub store_at : Option ℕ → DynamicMemoryStream → Connection → Connection
store_at none s c = c
store_at (some h) s c = record c { store = update c.store h s }

unfoldable pub put_back : Connection → Option DynamicMemoryStream → Connection
put_back c none = record c { image = none }
put_back c (some s) = store_at c.image s c

unfoldable pub write_chunk : Connection → Sending × Option Bytes → Connection
write_chunk c (s, none) = c
write_chunk c (s, some chunk) =
    begin (writes_response chunk) (put_back (record c { buffer = s.buffer }) s.image)

-- `handle_write_response`.
unfoldable pub handle_write_response : ErrorCode → Connection → Connection
handle_write_response success c = write_chunk c (
    handle_write
      (record { status_code = c.status_code; image = image_stream c; buffer = c.buffer }))
handle_write_response eof c = c
handle_write_response failure c = c

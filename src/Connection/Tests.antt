-- ===== src/Connection/Tests.antt =====
-- Concrete connections.
use image_proxy.Base.{
  ◌≡◌, refl, true, false, none, some, [], ◌∷◌, ◌++◌, arith, if◌then◌else◌, length, take, replicate,
  Bytes, codes, bytes_eq,
}
use image_proxy.Base.Int.{pos}
use image_proxy.Dynamic.{DynamicMemoryStream}
use image_proxy.Cache.{
  ImageCache, Lock, Value, Map, find, insert, assign, tail, push, gives_up, search_map, get, put,
  Reply, step, run, Call,
}
use image_proxy.Cache
use image_proxy.TaskPool
use image_proxy.TaskPool.{
  System, Task, add_task, no_task, is_null, is_empty_task, new_pool, next_task, notify_all,
  request_stop, all_ended, join, take_task, worker_step, wake, work_at, wake_at, Worker, Action,
}
use image_proxy.Http.{
  Store, HttpParser, Callback, update, get_header, append, field_cap, value_cap, max_headers,
  append_field, append_value, no_header, cleared, clear_headers, reset, find_header, store_write,
  on_message_begin, on_headers_complete, on_message_complete, on_url, on_header_field,
  on_header_value, on_body, callback, Header,
}
use image_proxy.Http
use image_proxy.Response.{digits, show_unsigned, show_int, find_message, message}
use image_proxy.Connection.{
  Library, Connection, begin, rewind, new_stream, Completion, ErrorCode, success, eof,
  reads_request, reads_response,
}
use image_proxy.Connection.{start, new_connection}
use image_proxy.Dynamic.State.{
  contents, length-contents, init-IsValid, read_blocks-count, times_mono, storage_read-count,
  storage_read_lem,
}
use image_proxy.Dynamic.State
use image_proxy.Connection.Send.{send_image}
use image_proxy.Connection.Forward.{
  starts_with, cut_prefix, set_location, webhdfs_request_prefix, set_path, set_host,
}
use image_proxy.Connection.Handlers.{handle, parse_received, request_received, handle_read_request}
use image_proxy.Connection.Quiet.{IsQuiet, IsValid}
use image_proxy.Connection.Ends.{Handled}
use image_proxy.Connection.Reach.{Reach, starts, ends, Reach-IsValid, Reach-Handled}
use image_proxy.Connection.Failing.{Shown, send_image-Shown, bare_response}
use image_proxy.Connection.Invalid.{invalid-Replies, Replies, not_parsed, nothing_came}
use image_proxy.Connection.Redirects.{cut_prefix-restored}
use image_proxy.Connection.Image.{send_response-Delivered, Delivered}

-- A parser that refuses whatever begins with "?" and makes no call, addresses that are a host with a path
-- of 16 characters behind it, documents without a page.
abbrev lib : Library
lib = record {
  long_bits = 32;
  strtoul = λ s. (0, 0);
  parse_url = λ s. record {
    url_host = some (0, 4);
    url_port = none;
    url_path = some (4, 16);
    url_query = none;
  };
  execute = λ b fed s. ([], if bytes_eq (take 1 s) (codes "?") then 0 else length s);
  is_get = λ b fed. true;
  load_doc = λ s. (s, true);
  has_page = λ s. false;
  leaf_width = λ p. 640;
  leaf_height = λ p. 480;
  leaf_pixfmt = λ p. 2;
  pixfmts = 0 ∷ 1 ∷ 2 ∷ 3 ∷ 4 ∷ 5 ∷ 6 ∷ 7 ∷ [];
  raw = 0;
}

abbrev three : DynamicMemoryStream
three = record {
  state = true;
  memory_storage = record { block_size = 4; blocks = (97 ∷ 98 ∷ 99 ∷ 0 ∷ []) ∷ [] };
  p_size = 3;
  p_offset = 3;
}

three-IsValid : State.IsValid three
three-IsValid = record {
  positive = omega arith;
  full = (refl, tt);
  offset_in = omega arith;
  covered = omega arith;
  tight = omega arith;
  in_memory = omega arith;
}

-- A connection whose streams are all the same, before it starts.
abbrev fresh : Connection
fresh =
    new_connection (λ h. three) 1 (Cache.init 4) TaskPool.new_pool 0 (codes "hdfs") (codes "80")
      (replicate 0x1000 0) 0

abbrev with_image : Connection
with_image = record fresh { image = some 0; parser = record fresh.parser { content = some 0 } }

abbrev ended : ErrorCode → Bytes → Completion
ended ec text = record {
  error_code = ec;
  received = text;
  endpoints = 0;
  lock = record { try_lock = true; timed_lock = true };
  rendering = three;
  threw = false;
}

with_image-IsQuiet : IsQuiet with_image
unfolding new_connection
with_image-IsQuiet = record { whole = refl; none_pending = refl }

started : Reach lib (start fresh)
started =
    starts (λ h. three) 1 (Cache.init 4) TaskPool.new_pool 0 (codes "hdfs") (codes "80")
      (replicate 0x1000 0) 0 refl

-- Nothing came yet.
abbrev waiting_on : Connection
waiting_on = begin reads_request (record (start fresh) { pending = [] })

went_on : Reach lib waiting_on
unfolding handle handle_read_request request_received parse_received start begin new_connection
    new_stream Http.init
went_on =
    ends (start fresh) waiting_on [] [] reads_request (ended success []) started refl (omega arith)
      refl

Reach-IsValid_example : IsValid waiting_on
Reach-IsValid_example = Reach-IsValid lib waiting_on went_on

Reach-Handled_example :
    Handled lib reads_request (ended eof (codes "GET")) (record (start fresh) { pending = [] })
unfolding start begin new_connection new_stream
Reach-Handled_example =
    Reach-Handled lib (start fresh) [] [] reads_request (ended eof (codes "GET")) started refl
      (omega arith)

send_image-Shown_example :
    let (s, loaded) = lib.load_doc ((rewind 0 with_image).store 0) in
    Shown lib loaded
      (lib.has_page s)
      (send_image lib (record { try_lock = true; timed_lock = true }) 0 with_image)
unfolding new_connection
send_image-Shown_example =
    send_image-Shown lib (record { try_lock = true; timed_lock = true }) 0 with_image refl

invalid-Replies_example :
    Replies (pos 400) (handle lib reads_request (ended eof []) with_image)
    × Replies (pos 500) (handle lib reads_response (ended eof []) with_image)
unfolding new_connection Http.init
invalid-Replies_example =
    invalid-Replies lib (ended eof []) with_image refl (omega arith) with_image-IsQuiet
      (nothing_came refl)

-- What the parser refuses.
invalid-Replies_run :
    Replies (pos 400) (handle lib reads_request (ended success (codes "?")) with_image)
    × Replies (pos 500) (handle lib reads_response (ended success (codes "?")) with_image)
unfolding bytes_eq
invalid-Replies_run =
    invalid-Replies lib (ended success (codes "?")) with_image refl (omega arith) with_image-IsQuiet
      (not_parsed success (codes "?") (omega arith) (λ e. absurd (omega (arith, e))))

cut_prefix_run : cut_prefix (codes "/webhdfs/v1/a") ≡ codes "/a"
unfolding cut_prefix starts_with bytes_eq
cut_prefix_run = refl

cut_prefix_other : cut_prefix (codes "/data/a") ≡ codes "/data/a"
unfolding cut_prefix starts_with bytes_eq
cut_prefix_other = refl

set_location_run :
    let (c, found) = set_location lib (codes "dn01/webhdfs/v1/abc") with_image in
    (c.host ≡ codes "dn01")
    × (c.port ≡ codes "80")
    × (c.webhdfs_path ≡ codes "/abc")
    × (found ≡ true)
unfolding set_location set_host set_path cut_prefix starts_with bytes_eq
set_location_run = (refl, refl, refl, refl)

bad_request_run :
    bare_response (pos 400) ≡ codes "HTTP/1.1 400 Invalid request" ++ (13 ∷ (10 ∷ (13 ∷ (10 ∷ []))))
unfolding show_int show_unsigned digits message find_message
bad_request_run = refl

cut_prefix-restored_run :
    webhdfs_request_prefix ++ cut_prefix (codes "/webhdfs/v1/a") ≡ codes "/webhdfs/v1/a"
unfolding starts_with bytes_eq
cut_prefix-restored_run = cut_prefix-restored (codes "/webhdfs/v1/a") refl

send_response-Delivered_example : Delivered lib.pixfmts 5 with_image (contents three)
unfolding new_connection
send_response-Delivered_example =
    send_response-Delivered lib.pixfmts 5 0 with_image with_image-IsQuiet refl refl three-IsValid
      (omega arith) (omega arith) (omega arith)

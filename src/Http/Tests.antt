-- ===== src/Http/Tests.antt =====
-- Tests and examples of the header table.
use image_proxy.Base.{◌≡◌, refl, true, some, List, [], ◌∷◌, map, take, codes}
use image_proxy.Base.Int.{pos}
use image_proxy.Strings.{equals_ignore_case, string_copy}
use image_proxy.Http.{
  Header, HttpParser, append, field_cap, value_cap, max_headers, append_field, append_value,
  no_header, cleared, clear_headers, reset, find_header, get_header, Store, update, store_write,
  on_message_begin, on_headers_complete, on_message_complete, on_url, on_header_field,
  on_header_value, on_body, callback, callbacks, Callback,
}
use image_proxy.Http.Parts.{Pieces, stored}
use image_proxy.Http.Messages.{
  get_header-callbacks, name_calls, value_calls, header_calls, head_calls, first_value,
}
use image_proxy.Dynamic.{
  init, size_mod, u32_mod, block_at, read_blocks, storage_read, overwrite, write_blocks,
  append_blocks, grow, write_rest, write_from, storage_write, read, write, seek_target, seek_to,
  seek, tell, stream_size, copy_blocks, copy_to, MemoryStorage, DynamicMemoryStream,
}
use image_proxy.Dynamic
use image_proxy.Http

abbrev some_store : Store
some_store = λ h. Dynamic.init 4

-- "Location: /a" with its value in two pieces, and "Server: b".
abbrev some_headers : List Pieces
some_headers =
    record {
      name = codes "Loca";
      more_name = codes "tion" ∷ [];
      text = codes "/";
      more_text = codes "a" ∷ [];
    }
    ∷ record { name = codes "Server"; more_name = []; text = codes "b"; more_text = [] }
    ∷ []

location_found :
    get_header
      (callbacks 0 (some_store, Http.init) (head_calls some_headers 307)).1
      (codes "location")
    ≡ some (codes "/a")
unfolding get_header callbacks callback on_message_begin on_headers_complete on_header_field
    on_header_value Http.init header_calls find_header equals_ignore_case append_field append_value
    name_calls value_calls append string_copy
location_found = refl

get_header-callbacks_example :
    let (st', q) = callbacks 0 (some_store, reset Http.init) (head_calls some_headers 307) in
    (st' ≡ some_store)
    × (q.headers_complete ≡ true)
    × (q.status_code ≡ pos 307)
    × (get_header q (codes "location")
        ≡ first_value (map stored (take max_headers some_headers)) (codes "location"))
get_header-callbacks_example =
    get_header-callbacks 0 some_store Http.init some_headers 307 (codes "location")

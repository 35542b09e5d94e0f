-- ===== src/Connection/Redirects.antt =====
-- Redirects: the path that is asked for again, and what becomes of the data of a redirect.
use image_proxy.Base.{
  ℕ, ◌≡◌, refl, sym, ap, ◌∙◌, true, false, List, ◌++◌, map, arith, ltb, ◌==◌, length, take, drop,
  take-append-drop, Bytes, bytes_eq→eq,
}
use image_proxy.Base.Int.{pos}
use image_proxy.Dynamic.{
  DynamicMemoryStream, stream_size, size_mod, u32_mod, block_at, read_blocks, storage_read,
  overwrite, write_blocks, append_blocks, grow, write_rest, write_from, storage_write, init, read,
  seek_target, seek_to, tell, copy_blocks, copy_to, MemoryStorage,
}
use image_proxy.Dynamic
use image_proxy.Http.{Store, Callback, update}
use image_proxy.Connection.{Connection}
use image_proxy.Dynamic.{seek}
use image_proxy.Http.{body}
use image_proxy.Connection.Forward.{starts_with, webhdfs_request_prefix, cut_prefix}

starts_with-append : (x s : Bytes) → starts_with s x ≡ true → x ++ drop (length x) s ≡ s
unfolding starts_with
starts_with-append x s h =
    let same : take (length x) s ≡ x = bytes_eq→eq (take (length x) s) x (ground arith) in
    ap (λ t. t ++ drop (length x) s) (sym same) ∙ take-append-drop (length x) s

-- For a redirect to a path that begins with "/webhdfs/v1", what the request line puts in front of the path
-- that `SetLocation` leaves gives the path of the redirect again.
pub cut_prefix-restored :
    (path : Bytes)
    → starts_with path webhdfs_request_prefix ≡ true
    → webhdfs_request_prefix ++ cut_prefix path ≡ path
unfolding cut_prefix
cut_prefix-restored path h = rw h (starts_with-append webhdfs_request_prefix path h)

-- `Seek` to the start always succeeds.
pub rewound : (s : DynamicMemoryStream) → (Dynamic.seek s (pos 0) 0).0 ≡ record s { p_offset = 0 }
unfolding Dynamic.seek Dynamic.seek_to Dynamic.seek_target
rewound s = let near : ltb s.p_size 0 ≡ false = ground arith in rw near refl

pub update_self : (st : Store) (h : ℕ) (s : DynamicMemoryStream) → update st h s h ≡ s
update_self st h s = let same : (h == h) ≡ true = ground arith in rw same refl

-- Callbacks with data.
abbrev pub bodies : List Bytes → List Callback
bodies = map body

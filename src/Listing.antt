-- ===== src/Listing.antt =====
-- `FileIterator` of cpcl/file_iterator_posix.cpp and file_iterator.h, over the entries of a directory that
-- `readdir_r` gives. Whether the directory opens and what the entries are is the system's.
pub mod Places
pub mod Names
mod Tests
use image_proxy.Base.{
  ℕ, zero, suc, ◌+◌, ◌-◌, ◌*◌, ◌/◌, ◌%◌, ◌^◌, ◌≤◌, ◌<◌, min, max, ◌≡◌, refl, sym, ap, ap₂, subst,
  ◌∙◌, ◌≢◌, ◌↔◌, ◌⊎◌, inl, inr, Bool, true, false, not, ◌&&◌, ◌||◌, Option, none, some, List, [],
  ◌∷◌, ◌++◌, map, flatten, append-nil, append_assoc, arith, ltb, leb, ◌==◌, if◌then◌else◌, ltb→lt,
  lt→ltb, leb→le, ==→eq, ==_iff, tests, Bool-cases, Option-cases, List-cases, length, get_elem?,
  set, get_or, take, drop, replicate, All, length-append, length-set, length-take, length-drop,
  length-replicate, take-append-drop, get_elem?-set_self, get_elem?-set_ne, take-add, drop-drop,
  take-take, drop-take, take-take-min, take-all, drop-all, take-append_le, take-append_add,
  drop-append_le, drop-append_add, holds_below, holds_below_at, Bytes, dec_lt, dec_le, ℕ_discrete,
  codes, bytes_eq, bytes_eq_refl, bytes_eq→eq, bytes_eq_iff,
}
use image_proxy.Mask.{
  mask_match, init_mask, star, skip_stars, skip_to, match_alike, try_match, next_place, star_loop,
  match_loop,
}
use image_proxy.Paths.{
  file_name, dir_name, name_from, dir_to, extension_from, file_extension, base_from, base_name,
  base_file_from, base_file_name,
}
use image_proxy.Piece.{
  find, trim_tail, skip_head, tail_from, trim, trim_head, remove_prefix, remove_suffix, substr,
  ends_with,
}

-- '/'.
abbrev pub slash : ℕ
slash = 47

-- `SearchPath`.
unfoldable pub search_path : Bytes → Bytes
search_path dir_path = trim_tail (slash ∷ []) dir_path ++ (slash ∷ [])

-- The constructor up to `opendir`: the directory and the mask of a path.
unfoldable pub split_path : Bytes → Bytes × Bytes
split_path path =
    let name = file_name slash path in
    let found : Bytes × Bytes =
      if length name == 0 then ([], []) else if find name star then ([], name) else (path, []) in
    let (dir_path, mask) = found in
    (if length dir_path == 0 then dir_name slash path else dir_path, mask)

-- An entry of a directory, with its name and whether its type is DT_DIR or DT_UNKNOWN.
pub record Entry : Type 0 where
  pub d_name : Bytes
  pub maybe_directory : Bool

-- `StringPieceFromEntry`, which passes over the directory and its parent.
unfoldable pub entry_name : Entry → Bytes
entry_name entry =
    let s = entry.d_name in
    if entry.maybe_directory
      && (get_or s 0 0 == 46 && (length s == 1 || (get_or s 1 0 == 46 && length s == 2)))
    then []
    else s

-- The iterator: the path of the last file, the length of the directory's path, the mask, and the entries that
-- are left; `none` for no handle.
pub record FileIterator : Type 0 where
  pub file_path : Bytes
  pub dir_path_size : ℕ
  pub mask : Bytes
  pub entries : Option (List Entry)

-- The constructor, with the entries of the directory if it opens.
unfoldable pub open_path : ℕ → (Bytes → Option (List Entry)) → Bytes → FileIterator
open_path name_max opendir path =
    let (dir_path, mask) = split_path path in
    record {
      file_path = search_path dir_path;
      dir_path_size = 0;
      mask = init_mask name_max mask;
      entries = opendir (search_path dir_path);
    }

-- `SetFilePath`.
unfoldable pub set_file_path : FileIterator → Bytes → FileIterator
set_file_path it name =
    let size =
      if it.dir_path_size == 0
      then length (dir_name slash it.file_path) + 1
      else it.dir_path_size in
    record it { file_path = take size it.file_path ++ name; dir_path_size = size }

-- `Next` over the entries: the iterator behind it, and whether there is a file. `stat` only fills in the
-- attributes.
unfoldable pub next_entry : FileIterator → List Entry → FileIterator × Bool
next_entry it [] = (record it { entries = none }, false)
next_entry it (entry ∷ entries) =
    let name = entry_name entry in
    let picked = if length name == 0 then [] else if mask_match it.mask name then name else [] in
    let rest = next_entry it entries in
    if length picked == 0
    then rest
    else (record (set_file_path it picked) { entries = some entries }, true)

-- `Next`.
unfoldable pub next_file : FileIterator → FileIterator × Bool
next_file it = elim it.entries [ none ↦ (it, false) | some entries ↦ next_entry it entries ]

-- ===== src/Listing/Tests.antt =====
-- Concrete paths.
use image_proxy.Base.{
  ◌≡◌, refl, true, false, some, List, [], ◌∷◌, ◌++◌, map, arith, codes, bytes_eq,
}
use image_proxy.Paths.{file_name, name_from, dir_name, dir_to}
use image_proxy.Piece.{find, trim_tail, tail_from}
use image_proxy.Listing.Names.{is_dots, open_path-picked, all_files, picked}
use image_proxy.Mask.{
  init_mask, mask_match, skip_stars, match_loop, star_loop, skip_to, try_match, match_alike,
  next_place,
}
use image_proxy.Listing.{Entry, open_path, split_path, search_path, entry_name}

whole_path_run : split_path (codes "/some/dir/file") ≡ (codes "/some/dir/file", [])
unfolding split_path file_name name_from find
whole_path_run = refl

mask_run : split_path (codes "/some/dir/*.so") ≡ (codes "/some/dir", codes "*.so")
unfolding split_path file_name name_from find dir_name dir_to
mask_run = refl

trailing_run : split_path (codes "/some/dir/") ≡ (codes "/some/dir", [])
unfolding split_path file_name name_from find dir_name dir_to
trailing_run = refl

-- A mask without a directory is looked for in the root.
root_run : split_path (codes "*.so") ≡ ([], codes "*.so")
unfolding split_path file_name name_from find dir_name dir_to
root_run = refl

search_root_run : search_path [] ≡ codes "/"
unfolding search_path trim_tail tail_from
search_root_run = refl

abbrev entries : List Entry
entries =
    record { d_name = codes "."; maybe_directory = true }
    ∷ record { d_name = codes "a.txt"; maybe_directory = false }
    ∷ record { d_name = codes "jpeg.so"; maybe_directory = false }
    ∷ record { d_name = codes ".."; maybe_directory = true }
    ∷ []

open_path-picked_example :
    all_files 5 (open_path 255 (λ _. some entries) (codes "/some/*.so"))
    ≡ map
        (λ name. search_path (split_path (codes "/some/*.so")).0 ++ name)
        (picked (init_mask 255 (split_path (codes "/some/*.so")).1) entries)
open_path-picked_example =
    open_path-picked 255 5 (λ _. some entries) (codes "/some/*.so") entries refl (omega arith)

-- The entries that are picked.
picked_run : picked (init_mask 255 (codes "*.so")) entries ≡ codes "jpeg.so" ∷ []
unfolding picked is_dots bytes_eq entry_name mask_match init_mask skip_stars match_loop star_loop
    skip_to try_match match_alike next_place
picked_run = refl

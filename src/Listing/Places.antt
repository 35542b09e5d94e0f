-- ===== src/Listing/Places.antt =====
-- The path of a file that the iterator gives.
use image_proxy.Base.{
  ◌+◌, ◌≡◌, refl, sym, ap, ap₂, ◌∙◌, true, false, [], ◌∷◌, ◌++◌, arith, ◌==◌, length, take,
  length-append, take-all, take-append_le, Bytes,
}
use image_proxy.Listing.{slash, search_path, FileIterator, set_file_path}
use image_proxy.Paths.{dir_name, dir_to}
use image_proxy.Paths.Parts.{dir_name-file_name}
use image_proxy.Piece.{find, trim_tail}
use image_proxy.Piece.Trim.{trim_tail_lem, CleanEnd, empty_end, ends}
use image_proxy.Split.{scan}

-- The directory of a text that ends in a slash, and has none in front of it.
dir_name-trimmed : (s : Bytes) → CleanEnd (slash ∷ []) s → dir_name slash (s ++ (slash ∷ [])) ≡ s
unfolding dir_name dir_to scan find
dir_name-trimmed s empty_end = refl
dir_name-trimmed s (ends s0 c e k) =
    let no_slash : (c == slash) ≡ false = ground (arith, k) in
    ap (λ t. dir_name slash (t ++ (slash ∷ []))) e
    ∙ (dir_name-file_name slash s0 [] c refl no_slash).0
    ∙ sym e

-- The length of the directory's path, with the slash.
length-directory :
    (dir_path : Bytes)
    → length (dir_name slash (search_path dir_path)) + 1 ≡ length (search_path dir_path)
unfolding search_path
length-directory dir_path =
    let (back, all, e, clean) = trim_tail_lem (slash ∷ []) dir_path (omega arith) in
    ap (λ t. length t + 1) (dir_name-trimmed (trim_tail (slash ∷ []) dir_path) clean)
    ∙ sym (length-append (trim_tail (slash ∷ []) dir_path) (slash ∷ []))

-- An iterator whose files are in the directory of a path `sp`, before its first file or behind one.
pub data Rooted (sp : Bytes) (it : FileIterator) : Type 0 where
  fresh : it.dir_path_size ≡ 0 → it.file_path ≡ sp → Rooted sp it
  moved : it.dir_path_size ≡ length sp → take (length sp) it.file_path ≡ sp → Rooted sp it

pub set_file_path-Rooted :
    (dir_path name : Bytes) (it : FileIterator)
    → Rooted (search_path dir_path) it
    → ((set_file_path it name).file_path ≡ search_path dir_path ++ name)
      × ((set_file_path it name).dir_path_size ≡ length (search_path dir_path))
unfolding set_file_path
set_file_path-Rooted dir_path name it (fresh z e) =
    let sp = search_path dir_path in
    let size = length-directory dir_path in
    let none_yet : (it.dir_path_size == 0) ≡ true = ground (arith, z) in
    let same : length (dir_name slash it.file_path) + 1 ≡ length sp =
      ap (λ t. length (dir_name slash t) + 1) e ∙ size in
    rw none_yet (
      ap₂ (λ n t. take n t ++ name) same e
          ∙ ap (λ t. t ++ name) (take-all (length sp) sp (omega arith)),
      same,
    )
set_file_path-Rooted dir_path name it (moved z e) =
    let size = length-directory dir_path in
    let some_size : (it.dir_path_size == 0) ≡ false = ground (arith, z, size) in
    rw some_size (ap (λ n. take n it.file_path ++ name) z ∙ ap (λ t. t ++ name) e, z)

pub mask_kept : (it : FileIterator) (name : Bytes) → (set_file_path it name).mask ≡ it.mask
unfolding set_file_path
mask_kept it name = refl

pub take-path : (sp name path : Bytes) → path ≡ sp ++ name → take (length sp) path ≡ sp
take-path sp name path e =
    ap (take (length sp)) e
    ∙ take-append_le (length sp) sp name (omega arith)
    ∙ take-all (length sp) sp (omega arith)

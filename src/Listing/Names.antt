-- ===== src/Listing/Names.antt =====
-- The files that the iterator gives.
use image_proxy.Base.{
  ℕ, zero, suc, ◌<◌, ◌≡◌, refl, ap, ap₂, subst, ◌∙◌, inl, inr, Bool, true, false, ◌&&◌, ◌||◌,
  Option, none, some, List, [], ◌∷◌, ◌++◌, map, arith, ◌==◌, if◌then◌else◌, Bool-cases, length,
  get_or, Bytes, codes, bytes_eq,
}
use image_proxy.Listing.{
  search_path, entry_name, FileIterator, Entry, set_file_path, next_entry, next_file, open_path,
  split_path,
}
use image_proxy.Listing.Places.{Rooted, fresh, moved, set_file_path-Rooted, mask_kept, take-path}
use image_proxy.Mask.{mask_match, init_mask}

-- The directory itself, or its parent: the name is "." or "..", and the type may be that of a directory.
unfoldable pub is_dots : Entry → Bool
is_dots entry =
    entry.maybe_directory
    && (bytes_eq entry.d_name (codes ".") || bytes_eq entry.d_name (codes ".."))

-- The names of the entries that are given: those that match, but for the directory and its parent, and for an
-- empty name.
unfoldable pub picked : Bytes → List Entry → List Bytes
picked mask [] = []
picked mask (entry ∷ entries) =
    let rest = picked mask entries in
    if is_dots entry || length entry.d_name == 0
    then rest
    else if mask_match mask entry.d_name
    then entry.d_name ∷ rest
    else rest

-- What `StringPieceFromEntry` looks at is whether the name is "." or "..".
dots_lem :
    (s : Bytes)
    → (get_or s 0 0 == 46 && (length s == 1 || (get_or s 1 0 == 46 && length s == 2)))
      ≡ (bytes_eq s (codes ".") || bytes_eq s (codes ".."))
unfolding bytes_eq
dots_lem [] = refl
dots_lem (a ∷ []) = elim (Bool-cases (a == 46)) [ inl e ↦ rw e refl | inr e ↦ rw e refl ]
dots_lem (a ∷ (b ∷ [])) = elim (Bool-cases (a == 46)) [
  | inl e ↦ elim (Bool-cases (b == 46)) [ inl h ↦ rw (e, h) refl | inr h ↦ rw (e, h) refl ]
  | inr e ↦ rw e refl
]
dots_lem (a ∷ (b ∷ (c ∷ s))) =
    let one_more : (length (a ∷ (b ∷ (c ∷ s))) == 1) ≡ false = ground arith in
    let two_more : (length (a ∷ (b ∷ (c ∷ s))) == 2) ≡ false = ground arith in
    rw (one_more, two_more)
      (elim (Bool-cases (a == 46)) [
        | inl e ↦ elim (Bool-cases (b == 46)) [ inl h ↦ rw (e, h) refl | inr h ↦ rw (e, h) refl ]
        | inr e ↦ rw e refl
      ])

entry_name_lem : (entry : Entry) → entry_name entry ≡ (if is_dots entry then [] else entry.d_name)
unfolding entry_name is_dots
entry_name_lem entry =
    ap (λ b. if entry.maybe_directory && b then [] else entry.d_name) (dots_lem entry.d_name)

-- The paths that calls of `Next` give until one returns false, on fuel.
unfoldable pub all_files : ℕ → FileIterator → List Bytes
all_files zero it = []
all_files (suc fuel) it =
    let (it1, more) = next_file it in
    let rest = all_files fuel it1 in if more then it1.file_path ∷ rest else []

-- What a call of `Next` does, for the names that are left to give.
data Gives (sp mask : Bytes) (n : ℕ) : List Bytes → FileIterator × Bool → Type 0 where
  stops : (it : FileIterator) → Gives sp mask n [] (it, false)
  gives :
      (name : Bytes) (names : List Bytes) (it : FileIterator) (entries : List Entry)
      → it.file_path ≡ sp ++ name
      → Rooted sp it
      → it.mask ≡ mask
      → it.entries ≡ some entries
      → picked mask entries ≡ names
      → length entries < n
      → Gives sp mask n (name ∷ names) (it, true)

Gives-suc :
    (sp mask : Bytes) (n : ℕ) (names : List Bytes) (r : FileIterator × Bool)
    → Gives sp mask n names r
    → Gives sp mask (suc n) names r
Gives-suc sp mask n names r (stops it) = stops it
Gives-suc sp mask n names r (gives name rest it entries p q m e k l) =
    gives name rest it entries p q m e k (omega (arith, l))

next_entry-Gives :
    (dir_path : Bytes) (it : FileIterator) (entries : List Entry)
    → Rooted (search_path dir_path) it
    → Gives
        (search_path dir_path)
        it.mask
        (length entries)
        (picked it.mask entries)
        (next_entry it entries)
unfolding next_entry picked
next_entry-Gives dir_path it [] r = stops (record it { entries = none })
next_entry-Gives dir_path it (entry ∷ entries) r =
    let name = entry.d_name in
    let rest = next_entry-Gives dir_path it entries r in
    let later = Gives-suc (search_path dir_path) it.mask (length entries) _ _ rest in
    let (path, size) = set_file_path-Rooted dir_path name it r in
    let seen = entry_name_lem entry in
    elim (Bool-cases (is_dots entry)) [
      | inl dots ↦ rw (seen, dots) later
      | inr no_dots ↦ elim (Bool-cases (length name == 0)) [
        | inl unnamed ↦ rw (seen, no_dots, unnamed) later
        | inr named ↦ elim (Bool-cases (mask_match it.mask name)) [
          | inl matched ↦
              rw (seen, no_dots, named, matched, named)
                (gives name (picked it.mask entries)
                  (record (set_file_path it name) { entries = some entries }) entries path
                  (moved size (take-path (search_path dir_path) name _ path)) (mask_kept it name)
                  refl refl (omega arith))
          | inr other ↦ rw (seen, no_dots, named, other) later
        ]
      ]
    ]

next_file_open :
    (it : FileIterator) (entries : List Entry)
    → it.entries ≡ some entries
    → next_file it ≡ next_entry it entries
unfolding next_file
next_file_open it entries e =
    ap (λ left. elim left [ none ↦ (it, false) | some rest ↦ next_entry it rest ]) e

-- One call of `Next` and the calls behind it.
all_files-Gives :
    (sp mask : Bytes) (fuel n : ℕ) (names : List Bytes) (it : FileIterator)
    (r : FileIterator × Bool)
    → ((it1 : FileIterator) (entries : List Entry)
        → Rooted sp it1
        → it1.mask ≡ mask
        → it1.entries ≡ some entries
        → length entries < n
        → all_files fuel it1 ≡ map (λ name. sp ++ name) (picked mask entries))
    → next_file it ≡ r
    → Gives sp mask n names r
    → all_files (suc fuel) it ≡ map (λ name. sp ++ name) names
unfolding all_files
all_files-Gives sp mask fuel n names it r ih e (stops it1) = rw (all_files, e) refl
all_files-Gives sp mask fuel n names it r ih e (gives name rest it1 entries p q m k l h) =
    rw (all_files, e) (ap₂ (λ x y. x ∷ y) p (ih it1 entries q m k h ∙ ap (map (λ x. sp ++ x)) l))

all_files-picked :
    (dir_path mask : Bytes) (fuel : ℕ) (it : FileIterator) (entries : List Entry)
    → length entries < fuel
    → Rooted (search_path dir_path) it
    → it.mask ≡ mask
    → it.entries ≡ some entries
    → all_files fuel it ≡ map (λ name. search_path dir_path ++ name) (picked mask entries)
all_files-picked dir_path mask zero it entries h r m e = absurd (omega arith)
all_files-picked dir_path mask (suc fuel) it entries h r m e =
    all_files-Gives (search_path dir_path) mask fuel (length entries) (picked mask entries) it
      (next_entry it entries)
      (λ it1 rest r1 m1 e1 l.
        all_files-picked dir_path mask fuel it1 rest (omega (arith, h, l)) r1 m1 e1)
      (next_file_open it entries e)
      (subst
        (λ x.
          Gives (search_path dir_path) x (length entries) (picked x entries)
            (next_entry it entries))
        m (next_entry-Gives dir_path it entries r))

-- Where the directory of a path opens, the calls of `Next` until one returns false give, with fuel for one call more than
-- there are entries, a path for each entry whose name `mask_match` takes with the mask of the path, in the order of
-- the entries: the directory's path, a slash and the name. Passed over are the entries of an empty name, and those
-- that may be directories and have the name "." or "..".
pub open_path-picked :
    (name_max fuel : ℕ) (opendir : Bytes → Option (List Entry)) (path : Bytes)
    (entries : List Entry)
    → opendir (search_path (split_path path).0) ≡ some entries
    → length entries < fuel
    → all_files fuel (open_path name_max opendir path)
      ≡ map
          (λ name. search_path (split_path path).0 ++ name)
          (picked (init_mask name_max (split_path path).1) entries)
unfolding open_path
open_path-picked name_max fuel opendir path entries e h =
    all_files-picked (split_path path).0 (init_mask name_max (split_path path).1) fuel
      (open_path name_max opendir path) entries h (fresh refl refl) refl e

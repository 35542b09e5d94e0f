-- ===== src/Paths/Parts.antt =====
-- A path taken apart: its directory, its name and its extension.
use image_proxy.Base.{
  ℕ, zero, suc, ◌+◌, ◌≤◌, ◌<◌, ◌≡◌, refl, sym, ap, ◌∙◌, inl, inr, Bool, true, false, [], ◌∷◌, ◌++◌,
  append_assoc, arith, ◌==◌, if◌then◌else◌, Bool-cases, length, get_or, take, drop, length-append,
  take-all, take-append_le, drop-append_add, Bytes,
}
use image_proxy.Paths.{name_from, file_name, dir_to, dir_name, extension_from, file_extension}
use image_proxy.Split.{scan}

-- No character of the text is the given one.
abbrev pub Without : ℕ → Bytes → Type 0
Without c s = scan c s ≡ length s

pub Without-tail : (c x : ℕ) (s : Bytes) → Without c (x ∷ s) → ((x == c) ≡ false) × Without c s
unfolding scan
Without-tail c x s h = elim (Bool-cases (x == c)) [
  | inl e ↦ absurd (stops (scanned true e))
  | inr e ↦ (e, omega (arith, sym (scanned false e) ∙ h))
]
  where
    scanned : (b : Bool) → (x == c) ≡ b → scan c (x ∷ s) ≡ (if b then 0 else 1 + scan c s)
    scanned b e = rw e refl

    stops : scan c (x ∷ s) ≡ 0 → ⊥
    stops z = let n : 0 ≡ suc (length s) = sym z ∙ h in omega arith

Without-get : (c : ℕ) (s : Bytes) (k : ℕ) → Without c s → k < length s → (get_or s k 0 == c) ≡ false
Without-get c [] k h l = absurd (omega arith)
Without-get c (x ∷ s) zero h l = (Without-tail c x s h).0
Without-get c (x ∷ s) (suc k) h l = Without-get c s k (Without-tail c x s h).1 (omega arith)

pub get-behind :
    (pre post : Bytes) (k i : ℕ) → i ≡ length pre + k → get_or (pre ++ post) i 0 ≡ get_or post k 0
get-behind [] post k i e = let n : i ≡ k = omega arith in ap (λ j. get_or post j 0) n
get-behind (x ∷ pre) post k zero e = absurd (omega arith)
get-behind (x ∷ pre) post k (suc i) e = get-behind pre post k i (omega arith)

-- The loop of `FileName` goes back over a name and stops at the delimiter.
name_from-stops :
    (d : ℕ) (dir name : Bytes) (k i : ℕ)
    → Without d name
    → k ≤ length name
    → i ≡ length dir + 1 + k
    → name_from d (dir ++ (d ∷ name)) i ≡ length dir + 1
unfolding name_from
name_from-stops d dir name zero zero w l e = absurd (omega arith)
name_from-stops d dir name zero (suc i) w l e =
    let at : get_or (dir ++ (d ∷ name)) i 0 ≡ d = get-behind dir (d ∷ name) 0 i (omega arith) in
    let same : (d == d) ≡ true = ground arith in rw (at, same) (omega arith)
name_from-stops d dir name (suc k) zero w l e = absurd (omega arith)
name_from-stops d dir name (suc k) (suc i) w l e =
    let at : get_or (dir ++ (d ∷ name)) i 0 ≡ get_or name k 0 =
      get-behind dir (d ∷ name) (suc k) i (omega arith) in
    let other : (get_or name k 0 == d) ≡ false = Without-get d name k w (omega arith) in
    rw (at, other) (name_from-stops d dir name k i w (omega arith) (omega arith))

-- The loop of `DirName` behind the name, once it is at the delimiter.
dir_to-stops :
    (d : ℕ) (dir name : Bytes) (last k i : ℕ)
    → Without d name
    → (last == d) ≡ false
    → k ≤ length name
    → i ≡ length dir + 2 + k
    → dir_to d ((dir ++ (last ∷ [])) ++ (d ∷ name)) i false ≡ (length dir + 1, true)
unfolding dir_to
dir_to-stops d dir name last k zero w n l e = absurd (omega arith)
dir_to-stops d dir name last zero (suc zero) w n l e = absurd (omega arith)
dir_to-stops d dir name last zero (suc (suc i)) w n l e =
    let size : length (dir ++ (last ∷ [])) ≡ length dir + 1 = length-append dir (last ∷ []) in
    let at : get_or ((dir ++ (last ∷ [])) ++ (d ∷ name)) (suc i) 0 ≡ d =
      get-behind (dir ++ (last ∷ [])) (d ∷ name) 0 (suc i) (omega (arith, size)) in
    let same : (d == d) ≡ true = ground arith in
    let before : get_or ((dir ++ (last ∷ [])) ++ (d ∷ name)) i 0 ≡ last =
      ap (λ t. get_or t i 0) (append_assoc dir (last ∷ []) (d ∷ name))
      ∙ get-behind dir (last ∷ d ∷ name) 0 i (omega arith) in
    let here : suc i ≡ length dir + 1 = omega arith in
    rw (at, same, before, n) (ap (λ j. (j, true)) here)
dir_to-stops d dir name last (suc k) (suc i) w n l e =
    let size : length (dir ++ (last ∷ [])) ≡ length dir + 1 = length-append dir (last ∷ []) in
    let at : get_or ((dir ++ (last ∷ [])) ++ (d ∷ name)) i 0 ≡ get_or name k 0 =
      get-behind (dir ++ (last ∷ [])) (d ∷ name) (suc k) i (omega (arith, size)) in
    let other : (get_or name k 0 == d) ≡ false = Without-get d name k w (omega arith) in
    rw (at, other) (dir_to-stops d dir name last k i w n (omega arith) (omega arith))

-- The loop of `FileExtension` goes back over the extension and stops at the point.
extension_from-stops :
    (stem ext : Bytes) (k i : ℕ)
    → Without 46 ext
    → k ≤ length ext
    → i ≡ length stem + 1 + k
    → extension_from (stem ++ (46 ∷ ext)) i ≡ (length stem + 1, true)
unfolding extension_from
extension_from-stops stem ext zero zero w l e = absurd (omega arith)
extension_from-stops stem ext zero (suc i) w l e =
    let at : get_or (stem ++ (46 ∷ ext)) i 0 ≡ 46 = get-behind stem (46 ∷ ext) 0 i (omega arith) in
    let here : suc i ≡ length stem + 1 = omega arith in rw at (ap (λ j. (j, true)) here)
extension_from-stops stem ext (suc k) zero w l e = absurd (omega arith)
extension_from-stops stem ext (suc k) (suc i) w l e =
    let at : get_or (stem ++ (46 ∷ ext)) i 0 ≡ get_or ext k 0 =
      get-behind stem (46 ∷ ext) (suc k) i (omega arith) in
    let other : (get_or ext k 0 == 46) ≡ false = Without-get 46 ext k w (omega arith) in
    rw (at, other) (extension_from-stops stem ext k i w (omega arith) (omega arith))

file_name-drop : (d : ℕ) (s : Bytes) → file_name d s ≡ drop (name_from d s (length s)) s
unfolding file_name name_from
file_name-drop d [] = refl
file_name-drop d (x ∷ xs) = refl

dir_name-take :
    (d : ℕ) (s : Bytes) (i : ℕ) → dir_to d s (length s) false ≡ (i, true) → dir_name d s ≡ take i s
unfolding dir_name dir_to
dir_name-take d [] i h = absurd (cc (ap (λ (r : ℕ × Bool). r.1) h))
dir_name-take d (x ∷ xs) i h = rw h refl

file_extension-drop :
    (s : Bytes) (i : ℕ) → extension_from s (length s) ≡ (i, true) → file_extension s ≡ drop i s
unfolding file_extension extension_from
file_extension-drop [] i h = absurd (cc (ap (λ (r : ℕ × Bool). r.1) h))
file_extension-drop (x ∷ xs) i h = rw h refl

-- A path of a directory that does not end in the delimiter, the delimiter, and a name without it:
-- `DirName` gives the directory and `FileName` the name.
pub dir_name-file_name :
    (d : ℕ) (dir name : Bytes) (last : ℕ)
    → Without d name
    → (last == d) ≡ false
    → (dir_name d ((dir ++ (last ∷ [])) ++ (d ∷ name)) ≡ dir ++ (last ∷ []))
      × (file_name d ((dir ++ (last ∷ [])) ++ (d ∷ name)) ≡ name)
dir_name-file_name d dir name last w n =
    let path : Bytes = (dir ++ (last ∷ [])) ++ (d ∷ name) in
    let size : length (dir ++ (last ∷ [])) ≡ length dir + 1 = length-append dir (last ∷ []) in
    let whole : length path ≡ length dir + 2 + length name =
      omega (arith, size, length-append (dir ++ (last ∷ [])) (d ∷ name)) in
    (
      dir_name-take d path (length dir + 1)
            (dir_to-stops d dir name last (length name) (length path) w n (omega arith) whole)
          ∙ take-append_le (length dir + 1) (dir ++ (last ∷ [])) (d ∷ name) (omega (arith, size))
          ∙ take-all (length dir + 1) (dir ++ (last ∷ [])) (omega (arith, size)),
      file_name-drop d path
          ∙ ap (λ j. drop j path)
              (name_from-stops d (dir ++ (last ∷ [])) name (length name) (length path) w
                (omega arith) (omega (arith, size, whole)))
          ∙ drop-append_add (length (dir ++ (last ∷ [])) + 1) 1 (dir ++ (last ∷ [])) (d ∷ name)
              refl,
    )

-- `FileExtension` gives what stands behind the last point of the text, wherever the delimiters are.
pub file_extension-last :
    (stem ext : Bytes) → Without 46 ext → file_extension (stem ++ (46 ∷ ext)) ≡ ext
file_extension-last stem ext w =
    file_extension-drop (stem ++ (46 ∷ ext)) (length stem + 1) (
      extension_from-stops stem ext (length ext) (length (stem ++ (46 ∷ ext))) w (omega arith)
        (omega (arith, length-append stem (46 ∷ ext))))
    ∙ drop-append_add (length stem + 1) 1 stem (46 ∷ ext) refl

-- ===== src/Paths/Names.antt =====
-- The names without a suffix against the name of a file.
use image_proxy.Base.{
  ℕ, zero, suc, ◌-◌, ◌≤◌, ◌≡◌, refl, sym, ap, ap₂, ◌∙◌, inl, inr, Bool, true, false, [], ◌∷◌, ◌++◌,
  arith, ◌==◌, Bool-cases, length, get_or, take, drop, take-all, take-append_le, Bytes,
}
use image_proxy.Paths.{name_from, file_name, base_from, base_name, base_file_from, base_file_name}
use image_proxy.Paths.Parts.{Without}
use image_proxy.Paths.Places.{
  first_place, last_place, first_place-scan, between, between-none, length-between,
  first_place-between, last_place-between, last_place-stem, between-all,
}
use image_proxy.Split.{scan}

name_from_le : (d : ℕ) (s : Bytes) (i : ℕ) → name_from d s i ≤ i
unfolding name_from
name_from_le d s zero = omega arith
name_from_le d s (suc i) = let rest = name_from_le d s i in ground (arith, rest)

base_from-first :
    (d t i : ℕ) (s : Bytes)
    → (46 == d) ≡ false
    → i ≤ length s
    → base_from d s i t
      ≡ (name_from d s i, first_place 46 (between (name_from d s i) i s) (name_from d s i) t)
unfolding base_from name_from first_place between
base_from-first d t zero s o h = refl
base_from-first d t (suc i) s o h =
    let a = name_from d s i in
    let grown = λ (b : Bool) (e : (get_or s i 0 == 46) ≡ b).
      first_place-between a t i s b (name_from_le d s i) h e in
    elim (Bool-cases (get_or s i 0 == 46)) [
      | inl point ↦
          let other : (get_or s i 0 == d) ≡ false = ground (arith, point, o) in
          rw (point, other)
            (base_from-first d i i s o (omega arith) ∙ ap (λ j. (a, j)) (sym (grown true point)))
      | inr plain ↦ elim (Bool-cases (get_or s i 0 == d)) [
        | inl delimiter ↦
            rw (plain, delimiter)
              (ap (λ p. (suc i, first_place 46 p (suc i) t)) (sym (between-none (suc i) s)))
        | inr other ↦
            rw (plain, other)
              (base_from-first d t i s o (omega arith) ∙ ap (λ j. (a, j)) (sym (grown false plain)))
      ]
    ]

base_file_from-kept : (d t i : ℕ) (s : Bytes) → base_file_from d s i t true ≡ (name_from d s i, t)
unfolding base_file_from name_from
base_file_from-kept d t zero s = refl
base_file_from-kept d t (suc i) s = elim (Bool-cases (get_or s i 0 == d)) [
  | inl delimiter ↦ rw delimiter refl
  | inr other ↦ rw other (base_file_from-kept d t i s)
]

base_file_from-last :
    (d t i : ℕ) (s : Bytes)
    → (46 == d) ≡ false
    → i ≤ length s
    → base_file_from d s i t false
      ≡ (name_from d s i, last_place 46 (between (name_from d s i) i s) (name_from d s i) t)
unfolding base_file_from name_from last_place between
base_file_from-last d t zero s o h = refl
base_file_from-last d t (suc i) s o h =
    let a = name_from d s i in
    let grown = λ (b : Bool) (e : (get_or s i 0 == 46) ≡ b).
      last_place-between a t i s b (name_from_le d s i) h e in
    elim (Bool-cases (get_or s i 0 == 46)) [
      | inl point ↦
          let other : (get_or s i 0 == d) ≡ false = ground (arith, point, o) in
          rw (point, other)
            (base_file_from-kept d i i s ∙ ap (λ j. (a, j)) (sym (grown true point)))
      | inr plain ↦ elim (Bool-cases (get_or s i 0 == d)) [
        | inl delimiter ↦
            rw (plain, delimiter)
              (ap (λ p. (suc i, last_place 46 p (suc i) t)) (sym (between-none (suc i) s)))
        | inr other ↦
            rw (plain, other)
              (base_file_from-last d t i s o (omega arith)
                ∙ ap (λ j. (a, j)) (sym (grown false plain)))
      ]
    ]

-- Where the delimiter is no point, `BaseName` is what `FileName` gives, up to its first point.
pub base_name-file_name :
    (d : ℕ) (s : Bytes)
    → (46 == d) ≡ false
    → base_name d s ≡ take (scan 46 (file_name d s)) (file_name d s)
unfolding base_name file_name scan
base_name-file_name d [] o = refl
base_name-file_name d (x ∷ xs) o =
    let s : Bytes = x ∷ xs in
    let n = length s in
    let a = name_from d s n in
    let place =
      first_place-scan 46 (between a n s) a n
        (sym (length-between a n s (name_from_le d s n) (omega arith))) in
    let cut : first_place 46 (between a n s) a n - a ≡ scan 46 (drop a s) =
      omega (arith, place) ∙ ap (scan 46) (between-all a s) in
    ap (λ (r : ℕ × ℕ). take (r.1 - r.0) (drop r.0 s)) (base_from-first d n n s o (omega arith))
    ∙ ap (λ k. take k (drop a s)) cut

base_file_name-last :
    (d : ℕ) (s : Bytes)
    → (46 == d) ≡ false
    → (a : ℕ) × (file_name d s ≡ drop a s)
      × (a ≤ length s)
      × (base_file_name d s ≡ take (last_place 46 (drop a s) a (length s) - a) (drop a s))
unfolding base_file_name file_name last_place
base_file_name-last d [] o = (0, refl, omega arith, refl)
base_file_name-last d (x ∷ xs) o =
    let s : Bytes = x ∷ xs in
    let n = length s in
    let a = name_from d s n in
    (
      a,
      refl,
      name_from_le d s n,
      ap (λ (r : ℕ × ℕ). take (r.1 - r.0) (drop r.0 s))
            (base_file_from-last d n n s o (omega arith))
          ∙ ap (λ p. take (last_place 46 p a n - a) (drop a s)) (between-all a s),
    )

-- Where the delimiter is no point and what `FileName` gives has a last point, `BaseFileName` is what stands
-- in front of that point.
pub base_file_name-stem :
    (d : ℕ) (s stem ext : Bytes)
    → (46 == d) ≡ false
    → file_name d s ≡ stem ++ (46 ∷ ext)
    → Without 46 ext
    → base_file_name d s ≡ stem
base_file_name-stem d s stem ext o e w =
    let (a, name, low, base) = base_file_name-last d s o in
    let split : drop a s ≡ stem ++ (46 ∷ ext) = sym name ∙ e in
    let place : last_place 46 (drop a s) a (length s) - a ≡ length stem =
      ap (λ p. last_place 46 p a (length s) - a) split
      ∙ omega (arith, last_place-stem 46 stem ext a (length s) w) in
    base
    ∙ ap₂ take place split
    ∙ take-append_le (length stem) stem (46 ∷ ext) (omega arith)
    ∙ take-all (length stem) stem (omega arith)

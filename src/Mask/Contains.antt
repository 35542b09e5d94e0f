-- ===== src/Mask/Contains.antt =====
-- A mask of a star and a text.
use image_proxy.Base.{
  ℕ, zero, suc, ◌+◌, ◌≤◌, ◌<◌, ◌≡◌, refl, sym, ap, subst, ◌∙◌, ◌≢◌, ◌↔◌, inl, inr, true, false,
  Option, none, some, [], ◌∷◌, ◌++◌, arith, ◌==◌, Bool-cases, length, length-append, Bytes,
}
use image_proxy.Mask.{
  star, skip_stars, skip_to, match_alike, try_match, next_place, star_loop, match_loop, mask_match,
}
use image_proxy.Paths.Parts.{Without, Without-tail}

-- The text `w` stands somewhere in `s`.
abbrev pub Contains : Bytes → Bytes → Type 0
Contains w s = (a : Bytes) × (b : Bytes) × (s ≡ a ++ (w ++ b))

-- Something of the mask is left behind its stars.
abbrev Unmatched : Bytes → Type 0
Unmatched mask = 0 < length (skip_stars mask)

Contains-cons : (w s : Bytes) (x : ℕ) → Contains w s → Contains w (x ∷ s)
Contains-cons w s x (a, b, e) = (x ∷ a, b, ap (◌∷◌ x) e)

-- A text that is not at the front is behind it.
Contains-tail :
    (w s : Bytes) (x : ℕ) → ((b : Bytes) → x ∷ s ≢ w ++ b) → Contains w (x ∷ s) → Contains w s
Contains-tail w s x n ([], b, e) = absurd (n b e)
Contains-tail w s x n (y ∷ a, b, e) = (a, b, cc e)

Contains-length : (w s : Bytes) → Contains w s → length w ≤ length s
Contains-length w s (a, b, e) =
    omega (arith, ap length e, length-append a (w ++ b), length-append w b)

-- `SkipTo` passes no place where the text could start.
skip_to-Contains : (c : ℕ) (w s : Bytes) → Contains (c ∷ w) s ↔ Contains (c ∷ w) (skip_to c s)
unfolding skip_to
skip_to-Contains c w [] = (λ h. h, λ h. h)
skip_to-Contains c w (x ∷ s) = elim (Bool-cases (x == c)) [
  | inl here ↦ rw here (λ h. h, λ h. h)
  | inr other ↦
      let away : (b : Bytes) → x ∷ s ≢ (c ∷ w) ++ b = λ b e. ground (arith, other, e) in
      let (there, back) = skip_to-Contains c w s in
      rw other
        ((λ h. there (Contains-tail (c ∷ w) s x away h)), (λ h. Contains-cons (c ∷ w) s x (back h)))
]

Without-Unmatched : (w : Bytes) → Without star w → 0 < length w → Unmatched w
unfolding skip_stars
Without-Unmatched [] n h = absurd (omega arith)
Without-Unmatched (c ∷ w) n h =
    let (other, rest) = Without-tail star c w n in rw other (omega arith)

skip_stars-other : (c : ℕ) (w : Bytes) → (c == star) ≡ false → skip_stars (c ∷ w) ≡ c ∷ w
unfolding skip_stars
skip_stars-other c w e = rw e refl

star-Unmatched : (c : ℕ) (w : Bytes) → Without star (c ∷ w) → Unmatched (star ∷ (c ∷ w))
unfolding skip_stars
star-Unmatched c w n = Without-Unmatched (c ∷ w) n (omega arith)

-- What the loop of `TryMatch` finds, for a mask without stars: the mask at the front of the text, a text
-- that is too short, or a difference.
data Alike (w s : Bytes) : Option (Bytes × Bytes) → Type 0 where
  front : (b : Bytes) → s ≡ w ++ b → Alike w s (some ([], b))
  short : (w1 : Bytes) → length s < length w → Unmatched w1 → Alike w s (some (w1, []))
  differs : ((b : Bytes) → s ≢ w ++ b) → Alike w s none

Alike-cons :
    (w s : Bytes) (c : ℕ) (r : Option (Bytes × Bytes)) → Alike w s r → Alike (c ∷ w) (c ∷ s) r
Alike-cons w s c r (front b e) = front b (ap (◌∷◌ c) e)
Alike-cons w s c r (short w1 l u) = short w1 (omega arith) u
Alike-cons w s c r (differs n) = differs (λ b e. n b (cc e))

match_alike-Alike : (w s : Bytes) → Without star w → Alike w s (match_alike w s)
unfolding match_alike
match_alike-Alike [] s n = front s refl
match_alike-Alike (c ∷ w) [] n =
    short (c ∷ w) (omega arith) (Without-Unmatched (c ∷ w) n (omega arith))
match_alike-Alike (c ∷ w) (x ∷ s) n =
    let (other, rest) = Without-tail star c w n in
    elim (Bool-cases (x == c)) [
      | inl same ↦
          let e : x ≡ c = ground (arith, same) in
          rw (other, same)
            (subst (λ y. Alike (c ∷ w) (y ∷ s) (match_alike w s)) (sym e)
              (Alike-cons w s c (match_alike w s) (match_alike-Alike w s rest)))
      | inr not_same ↦ rw (other, not_same) (differs (λ b e. ground (arith, not_same, e)))
    ]

pub length-skip_to : (c : ℕ) (s : Bytes) → length (skip_to c s) ≤ length s
unfolding skip_to
length-skip_to c [] = omega arith
length-skip_to c (x ∷ s) = let rest = length-skip_to c s in ground (arith, rest)

next_place-skip_to : (c : ℕ) (w s : Bytes) (x : ℕ) → next_place (c ∷ w) (x ∷ s) ≡ skip_to c s
unfolding next_place skip_to
next_place-skip_to c w [] x = refl
next_place-skip_to c w (y ∷ s) x = ground arith

-- What the loop behind a star leaves.
data Finds (w s : Bytes) : Bytes × Bytes → Type 0 where
  found : (rest : Bytes) → Contains w s → Finds w s ([], rest)
  missed : (w1 : Bytes) → Unmatched w1 → ¬ Contains w s → Finds w s (w1, [])

Unmatched-some : (w : Bytes) → Unmatched w → (length w == 0) ≡ false
unfolding skip_stars
Unmatched-some [] u = absurd (omega arith)
Unmatched-some (c ∷ w) u = ground arith

-- What is found behind a place where the text does not start.
Finds-back :
    (c : ℕ) (w s : Bytes) (x : ℕ)
    → ((b : Bytes) → x ∷ s ≢ (c ∷ w) ++ b)
    → (r : Bytes × Bytes) → Finds (c ∷ w) (skip_to c s) r
    → Finds (c ∷ w) (x ∷ s) r
Finds-back c w s x n r (found rest h) =
    found rest (Contains-cons (c ∷ w) s x ((skip_to-Contains c w s).1 h))
Finds-back c w s x n r (missed w1 u away) =
    missed w1 u (λ h. away ((skip_to-Contains c w s).0 (Contains-tail (c ∷ w) s x n h)))

-- The rounds of the loop, by what `TryMatch` finds.
star_round :
    (fuel : ℕ) (c : ℕ) (w s : Bytes) (x : ℕ) (o : Option (Bytes × Bytes))
    → Alike (c ∷ w) (x ∷ s) o
    → match_alike (c ∷ w) (x ∷ s) ≡ o
    → Finds (c ∷ w) (skip_to c s) (star_loop fuel (c ∷ w) (skip_to c s))
    → Finds (c ∷ w) (x ∷ s) (star_loop (suc fuel) (c ∷ w) (x ∷ s))
unfolding star_loop try_match next_place
star_round fuel c w s x (some ([], b)) (front b1 e) m f =
    rw (star_loop, try_match, m) (found b ([], b1, e))
star_round fuel c w s x (some (w1, [])) (short w2 l u) m f =
    let some_left : (length w1 == 0) ≡ false = Unmatched-some w1 u in
    let none_inside : ¬ Contains (c ∷ w) (x ∷ s) =
      λ h. absurd (omega (arith, l, Contains-length (c ∷ w) (x ∷ s) h)) in
    rw (star_loop, try_match, m, some_left) (missed w1 u none_inside)
star_round fuel c w s x none (differs n) m f =
    rw (star_loop, try_match, m)
      (rw (next_place-skip_to c w s x)
        (Finds-back c w s x n (star_loop fuel (c ∷ w) (skip_to c s)) f))

star_loop-Finds :
    (fuel : ℕ) (c : ℕ) (w s : Bytes)
    → Without star (c ∷ w)
    → length s ≤ fuel
    → Finds (c ∷ w) s (star_loop fuel (c ∷ w) s)
unfolding star_loop
star_loop-Finds fuel c w [] n h =
    missed (c ∷ w) (Without-Unmatched (c ∷ w) n (omega arith))
      (λ h. absurd (omega (arith, Contains-length (c ∷ w) [] h)))
star_loop-Finds zero c w (x ∷ s) n h = absurd (omega arith)
star_loop-Finds (suc fuel) c w (x ∷ s) n h =
    star_round fuel c w s x (match_alike (c ∷ w) (x ∷ s)) (match_alike-Alike (c ∷ w) (x ∷ s) n) refl
      (star_loop-Finds fuel c w (skip_to c s) n (omega (arith, h, length-skip_to c s)))

pub match_loop-nil : (fuel : ℕ) (mask : Bytes) → match_loop fuel mask [] ≡ mask
unfolding match_loop
match_loop-nil fuel [] = refl
match_loop-nil fuel (m ∷ mask) = refl

match_loop-Finds :
    (c : ℕ) (w s : Bytes) (fuel : ℕ) (r : Bytes × Bytes)
    → Finds (c ∷ w) s r
    → ((length (skip_stars (match_loop fuel r.0 r.1)) == 0) ≡ true) ↔ Contains (c ∷ w) s
unfolding match_loop skip_stars
match_loop-Finds c w s fuel r (found rest h) = (λ e. h, λ e. refl)
match_loop-Finds c w s fuel r (missed w1 u away) =
    let left : (length (skip_stars w1) == 0) ≡ false = ground (arith, u) in
    rw (match_loop-nil fuel w1) ((λ e. absurd (ground (arith, left, e))), (λ h. absurd (away h)))

-- A star, and a text behind it that starts with no star.
pub match_loop-star :
    (fuel c : ℕ) (w s : Bytes) (x : ℕ)
    → (c == star) ≡ false
    → let r = star_loop (length (x ∷ s)) (c ∷ w) (skip_to c (x ∷ s)) in
      match_loop (suc fuel) (star ∷ (c ∷ w)) (x ∷ s) ≡ match_loop fuel r.0 r.1
unfolding match_loop
match_loop-star fuel c w s x e =
    let kept : skip_stars (c ∷ w) ≡ c ∷ w = skip_stars-other c w e in
    let some_left : (length (c ∷ w) == 0) ≡ false = ground arith in
    rw (match_loop, kept, some_left) refl

pub mask_match-some :
    (m : ℕ) (mask s : Bytes)
    → mask_match (m ∷ mask) s
      ≡ (length (skip_stars (match_loop (length (m ∷ mask) + length s) (m ∷ mask) s)) == 0)
unfolding mask_match
mask_match-some m mask s =
    let some_left : (length (m ∷ mask) == 0) ≡ false = ground arith in
    rw (mask_match, some_left) refl

-- A mask of a star and a text without a star, which is not empty, matches exactly the names in which the
-- text stands somewhere, at their end or not.
pub mask_match-Contains :
    (c : ℕ) (w s : Bytes)
    → Without star (c ∷ w)
    → (mask_match (star ∷ (c ∷ w)) s ≡ true) ↔ Contains (c ∷ w) s
mask_match-Contains c w [] n = rw (mask_match-some star (c ∷ w) []) (
    match_loop-Finds c w [] _ (star ∷ (c ∷ w), [])
      (missed (star ∷ (c ∷ w)) (star-Unmatched c w n)
        (λ h. absurd (omega (arith, Contains-length (c ∷ w) [] h)))))
mask_match-Contains c w (x ∷ s) n =
    let other = (Without-tail star c w n).0 in
    let fuel = length w + length s + 2 in
    let enough : length (star ∷ (c ∷ w)) + length (x ∷ s) ≡ suc fuel = omega arith in
    let t = skip_to c (x ∷ s) in
    let r = star_loop (length (x ∷ s)) (c ∷ w) t in
    let f = star_loop-Finds (length (x ∷ s)) c w t n (length-skip_to c (x ∷ s)) in
    let (there, back) = match_loop-Finds c w t fuel r f in
    let (inside, outside) = skip_to-Contains c w (x ∷ s) in
    let same : match_loop (length (star ∷ (c ∷ w)) + length (x ∷ s)) (star ∷ (c ∷ w)) (x ∷ s)
        ≡ match_loop fuel r.0 r.1 =
      ap (λ k. match_loop k (star ∷ (c ∷ w)) (x ∷ s)) enough ∙ match_loop-star fuel c w s x other in
    rw (mask_match-some star (c ∷ w) (x ∷ s)) (
      (λ e. outside (there (ap (λ m. length (skip_stars m) == 0) (sym same) ∙ e))),
      (λ h. ap (λ m. length (skip_stars m) == 0) same ∙ back (inside h)),
    )

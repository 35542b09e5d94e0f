-- ===== src/Mask/Stars.antt =====
-- What the loops of `MaskMatch` miss: a second star, and a difference at the last character before a star.
use image_proxy.Base.{
  ℕ, zero, suc, ◌+◌, ◌≤◌, ◌<◌, ◌≡◌, refl, sym, ap, subst, ◌∙◌, inl, inr, true, false, Option, none,
  some, [], ◌∷◌, ◌++◌, append_assoc, arith, ◌==◌, Bool-cases, length, get_or, length-append, Bytes,
}
use image_proxy.Mask.{
  star, skip_stars, skip_to, match_alike, try_match, next_place, star_loop, match_loop, mask_match,
}
use image_proxy.Mask.Contains.{mask_match-some, match_loop-nil, match_loop-star, length-skip_to}
use image_proxy.Paths.Parts.{Without, Without-tail}

-- A mask that has a star, and some other text behind it.
record Blocked (t m : Bytes) : Type 0 where
  front : Bytes
  no_star : Without star front
  whole : m ≡ front ++ (star ∷ t)

-- What the loop of `TryMatch` leaves.
data Stays (t s : Bytes) : Option (Bytes × Bytes) → Type 0 where
  differs : Stays t s none
  stays : (m s1 : Bytes) → Blocked t m → length s1 ≤ length s → Stays t s (some (m, s1))

Stays-cons : (t s : Bytes) (x : ℕ) (o : Option (Bytes × Bytes)) → Stays t s o → Stays t (x ∷ s) o
Stays-cons t s x o differs = differs
Stays-cons t s x o (stays m s1 b l) = stays m s1 b (omega (arith, l))

mask-Blocked : (t p : Bytes) → Without star p → Blocked t (p ++ (star ∷ t))
mask-Blocked t p n = record { front = p; no_star = n; whole = refl }

match_alike-Stays : (t p s : Bytes) → Without star p → Stays t s (match_alike (p ++ (star ∷ t)) s)
unfolding match_alike
match_alike-Stays t [] [] n = stays (star ∷ t) [] (mask-Blocked t [] n) (omega arith)
match_alike-Stays t [] (x ∷ s) n = stays (star ∷ t) (x ∷ s) (mask-Blocked t [] n) (omega arith)
match_alike-Stays t (c ∷ p) [] n =
    stays ((c ∷ p) ++ (star ∷ t)) [] (mask-Blocked t (c ∷ p) n) (omega arith)
match_alike-Stays t (c ∷ p) (x ∷ s) n =
    let (other, rest) = Without-tail star c p n in
    elim (Bool-cases (x == c)) [
      | inl same ↦ rw (other, same) (Stays-cons t s x _ (match_alike-Stays t p s rest))
      | inr not_same ↦ rw (other, not_same) differs
    ]

length-next_place : (m s : Bytes) (n : ℕ) → length s ≤ suc n → length (next_place m s) ≤ n
unfolding next_place
length-next_place m [] n h = omega arith
length-next_place m (x ∷ s) n h =
    let rest = length-skip_to (get_or m 0 0) s in ground (arith, rest, h)

-- The loop behind a star goes through the text, and the mask keeps its second star.
record Ends (t : Bytes) (r : Bytes × Bytes) : Type 0 where
  kept : Blocked t r.0
  at_end : r.1 ≡ []

Blocked-some : (t m : Bytes) → Blocked t m → (length m == 0) ≡ false
Blocked-some t m b =
    let size = length-append b.front (star ∷ t) in
    let e : length m ≡ length b.front + length (star ∷ t) = ap length b.whole ∙ size in
    ground (arith, e)

-- One round, by what `TryMatch` leaves.
try_round :
    (fuel : ℕ) (t m s : Bytes) (x : ℕ) (o : Option (Bytes × Bytes))
    → ((m1 s1 : Bytes) → Blocked t m1 → length s1 ≤ fuel → Ends t (star_loop fuel m1 s1))
    → Blocked t m
    → length (x ∷ s) ≤ suc fuel
    → match_alike m (x ∷ s) ≡ o
    → Stays t (x ∷ s) o
    → Ends t (star_loop (suc fuel) m (x ∷ s))
unfolding star_loop try_match
try_round fuel t m s x none ih b h e differs =
    rw (star_loop, try_match, e)
      (ih m (next_place m (x ∷ s)) b (length-next_place m (x ∷ s) fuel h))
try_round fuel t m s x (some (m1, s1)) ih b h e (stays m2 s2 k l) =
    let some_left = Blocked-some t m1 k in
    rw (star_loop, try_match, e, some_left)
      (ih m1 (next_place m1 s1) k (length-next_place m1 s1 fuel (omega (arith, l, h))))

star_loop-Ends :
    (fuel : ℕ) (t m s : Bytes) → Blocked t m → length s ≤ fuel → Ends t (star_loop fuel m s)
unfolding star_loop
star_loop-Ends fuel t m [] b h = record { kept = b; at_end = refl }
star_loop-Ends zero t m (x ∷ s) b h = absurd (omega arith)
star_loop-Ends (suc fuel) t m (x ∷ s) b h =
    try_round fuel t m s x (match_alike m (x ∷ s)) (star_loop-Ends fuel t) b h refl (
      subst (λ y. Stays t (x ∷ s) (match_alike y (x ∷ s))) (sym b.whole)
        (match_alike-Stays t b.front (x ∷ s) b.no_star))

-- A text that ends in no star is more than stars.
stars-last :
    (v : Bytes) (z : ℕ) → (z == star) ≡ false → (length (skip_stars (v ++ (z ∷ []))) == 0) ≡ false
unfolding skip_stars
stars-last [] z e = rw e (ground arith)
stars-last (c ∷ v) z e = elim (Bool-cases (c == star)) [
  | inl skipped ↦ rw skipped (stars-last v z e)
  | inr other ↦ rw other (ground arith)
]

Blocked-stars :
    (v m : Bytes) (z : ℕ)
    → (z == star) ≡ false
    → Blocked (v ++ (z ∷ [])) m
    → (length (skip_stars m) == 0) ≡ false
Blocked-stars v m z e b =
    ap (λ y. length (skip_stars y) == 0) (b.whole ∙ sym (append_assoc b.front (star ∷ v) (z ∷ [])))
    ∙ stars-last (b.front ++ (star ∷ v)) z e

-- A mask of a star, a text without a star, a second star and anything behind it that ends in no star matches
-- no name at all, as behind the second star no place of the name is tried.
pub two_stars-none :
    (c : ℕ) (w v s : Bytes) (z : ℕ)
    → Without star (c ∷ w)
    → (z == star) ≡ false
    → mask_match (star ∷ ((c ∷ w) ++ (star ∷ (v ++ (z ∷ []))))) s ≡ false
unfolding skip_stars
two_stars-none c w v [] z n e =
    let m = (c ∷ w) ++ (star ∷ (v ++ (z ∷ []))) in
    mask_match-some star m []
    ∙ ap (λ y. length (skip_stars y) == 0) (match_loop-nil (length (star ∷ m) + 0) (star ∷ m))
    ∙ Blocked-stars v m z e (mask-Blocked (v ++ (z ∷ [])) (c ∷ w) n)
two_stars-none c w v (x ∷ s) z n e =
    let t = v ++ (z ∷ []) in
    let m = (c ∷ w) ++ (star ∷ t) in
    let fuel = length m + length s + 1 in
    let enough : length (star ∷ m) + length (x ∷ s) ≡ suc fuel = omega arith in
    let start = skip_to c (x ∷ s) in
    let r = star_loop (length (x ∷ s)) m start in
    let ends =
      star_loop-Ends (length (x ∷ s)) t m start (mask-Blocked t (c ∷ w) n)
        (length-skip_to c (x ∷ s)) in
    let left : match_loop (length (star ∷ m) + length (x ∷ s)) (star ∷ m) (x ∷ s) ≡ r.0 =
      ap (λ k. match_loop k (star ∷ m) (x ∷ s)) enough
      ∙ match_loop-star fuel c (w ++ (star ∷ t)) s x (Without-tail star c w n).0
      ∙ ap (match_loop fuel r.0) ends.at_end
      ∙ match_loop-nil fuel r.0 in
    mask_match-some star m (x ∷ s)
    ∙ ap (λ y. length (skip_stars y) == 0) left
    ∙ Blocked-stars v r.0 z e ends.kept

match_loop-mismatch :
    (fuel : ℕ) (p s stars : Bytes) (c d : ℕ)
    → Without star (p ++ (c ∷ []))
    → (d == c) ≡ false
    → length p < fuel
    → match_loop fuel (p ++ (c ∷ stars)) (p ++ (d ∷ s)) ≡ stars
unfolding match_loop
match_loop-mismatch zero p s stars c d n o h = absurd (omega arith)
match_loop-mismatch (suc fuel) [] s stars c d n o h =
    let other = (Without-tail star c [] n).0 in rw (match_loop, other, o) refl
match_loop-mismatch (suc fuel) (x ∷ p) s stars c d n o h =
    let (other, rest) = Without-tail star x (p ++ (c ∷ [])) n in
    let same : (x == x) ≡ true = ground arith in
    rw (match_loop, other, same) (match_loop-mismatch fuel p s stars c d rest o (omega arith))

-- A mask without a star up to a character `c`, with stars or nothing behind it, matches every name that is like
-- it up to `c` and has another character there: the loop moves behind `c` before it ends.
pub mismatch-passes :
    (p s stars : Bytes) (c d : ℕ)
    → Without star (p ++ (c ∷ []))
    → (d == c) ≡ false
    → skip_stars stars ≡ []
    → mask_match (p ++ (c ∷ stars)) (p ++ (d ∷ s)) ≡ true
unfolding mask_match
mismatch-passes p s stars c d n o e =
    let mask = p ++ (c ∷ stars) in
    let size = length-append p (c ∷ stars) in
    let some_left : (length mask == 0) ≡ false = ground (arith, size) in
    rw (mask_match, some_left)
      (ap (λ y. length (skip_stars y) == 0)
          (match_loop-mismatch (length mask + length (p ++ (d ∷ s))) p s stars c d n o
            (omega (arith, size)))
        ∙ ap (λ y. length y == 0) e)

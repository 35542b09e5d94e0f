-- ===== src/Paths/Places.antt =====
-- Places of a character in a text, and a text between two places.
use image_proxy.Base.{
  ℕ, zero, suc, ◌+◌, ◌-◌, ◌≤◌, ◌<◌, ◌≡◌, refl, ap, ap₂, ◌∙◌, inl, inr, Bool, true, [], ◌∷◌, ◌++◌,
  arith, ◌==◌, if◌then◌else◌, Bool-cases, length, get_or, take, drop, length-take, length-drop,
  take-all, Bytes,
}
use image_proxy.Paths.Parts.{Without, Without-tail}
use image_proxy.Split.{scan}

-- The place of the first character `c` of a text that starts at `n`, or else `t`.
unfoldable pub first_place : ℕ → Bytes → ℕ → ℕ → ℕ
first_place c [] n t = t
first_place c (x ∷ xs) n t = if x == c then n else first_place c xs (n + 1) t

-- The place of the last.
unfoldable pub last_place : ℕ → Bytes → ℕ → ℕ → ℕ
last_place c [] n t = t
last_place c (x ∷ xs) n t = last_place c xs (n + 1) (if x == c then n else t)

pub first_place-append :
    (c : ℕ) (xs : Bytes) (x n t : ℕ)
    → first_place c (xs ++ (x ∷ [])) n t ≡ first_place c xs n (if x == c then n + length xs else t)
unfolding first_place
first_place-append c [] x n t = ground arith
first_place-append c (y ∷ xs) x n t =
    let rest = first_place-append c xs x (n + 1) t in
    let shift : n + 1 + length xs ≡ n + suc (length xs) = omega arith in
    elim (Bool-cases (y == c)) [
      | inl here ↦ rw here refl
      | inr other ↦
          rw other (rest ∙ ap (λ j. first_place c xs (n + 1) (if x == c then j else t)) shift)
    ]

pub last_place-append :
    (c : ℕ) (xs : Bytes) (x n t : ℕ)
    → last_place c (xs ++ (x ∷ [])) n t ≡ (if x == c then n + length xs else last_place c xs n t)
unfolding last_place
last_place-append c [] x n t = ground arith
last_place-append c (y ∷ xs) x n t =
    let t1 = if y == c then n else t in
    let shift : n + 1 + length xs ≡ n + suc (length xs) = omega arith in
    last_place-append c xs x (n + 1) t1
    ∙ ap (λ j. if x == c then j else last_place c xs (n + 1) t1) shift

pub first_place-scan :
    (c : ℕ) (xs : Bytes) (n t : ℕ) → t ≡ n + length xs → first_place c xs n t ≡ n + scan c xs
unfolding first_place scan
first_place-scan c [] n t e = e
first_place-scan c (x ∷ xs) n t e =
    let rest = first_place-scan c xs (n + 1) t (omega (arith, e)) in ground (arith, rest)

pub take-get :
    (k : ℕ) (xs : Bytes) → k < length xs → take (suc k) xs ≡ take k xs ++ (get_or xs k 0 ∷ [])
take-get k [] h = absurd (omega arith)
take-get zero (x ∷ xs) h = refl
take-get (suc k) (x ∷ xs) h = ap (◌∷◌ x) (take-get k xs (omega arith))

pub get-drop : (a k i : ℕ) (xs : Bytes) → i ≡ a + k → get_or (drop a xs) k 0 ≡ get_or xs i 0
get-drop zero k i xs e = let n : k ≡ i = omega arith in ap (λ j. get_or xs j 0) n
get-drop (suc a) k i [] e = refl
get-drop (suc a) k zero (x ∷ xs) e = absurd (omega arith)
get-drop (suc a) k (suc i) (x ∷ xs) e = get-drop a k i xs (omega arith)

-- The text between two places.
unfoldable pub between : ℕ → ℕ → Bytes → Bytes
between a i s = take (i - a) (drop a s)

pub between-suc :
    (a i : ℕ) (s : Bytes)
    → a ≤ i
    → i < length s
    → between a (suc i) s ≡ between a i s ++ (get_or s i 0 ∷ [])
unfolding between
between-suc a i s h l =
    let n : suc i - a ≡ suc (i - a) = omega arith in
    ap (λ k. take k (drop a s)) n
    ∙ take-get (i - a) (drop a s) (omega (arith, length-drop a s))
    ∙ ap (λ x. take (i - a) (drop a s) ++ (x ∷ [])) (get-drop a (i - a) i s (omega arith))

pub between-none : (a : ℕ) (s : Bytes) → between a a s ≡ []
unfolding between
between-none a s = let n : a - a ≡ 0 = omega arith in ap (λ k. take k (drop a s)) n

pub length-between : (a i : ℕ) (s : Bytes) → a ≤ i → i ≤ length s → a + length (between a i s) ≡ i
unfolding between
length-between a i s h l = omega (arith, length-take (i - a) (drop a s), length-drop a s)

pub first_place-between :
    (a t i : ℕ) (s : Bytes) (point : Bool)
    → a ≤ i
    → i < length s
    → (get_or s i 0 == 46) ≡ point
    → first_place 46 (between a (suc i) s) a t
      ≡ first_place 46 (between a i s) a (if point then i else t)
first_place-between a t i s point h l e =
    ap (λ p. first_place 46 p a t) (between-suc a i s h l)
    ∙ first_place-append 46 (between a i s) (get_or s i 0) a t
    ∙ ap₂ (λ b j. first_place 46 (between a i s) a (if b then j else t)) e
        (length-between a i s h (omega arith))

pub last_place-between :
    (a t i : ℕ) (s : Bytes) (point : Bool)
    → a ≤ i
    → i < length s
    → (get_or s i 0 == 46) ≡ point
    → last_place 46 (between a (suc i) s) a t
      ≡ (if point then i else last_place 46 (between a i s) a t)
last_place-between a t i s point h l e =
    ap (λ p. last_place 46 p a t) (between-suc a i s h l)
    ∙ last_place-append 46 (between a i s) (get_or s i 0) a t
    ∙ ap₂ (λ b j. if b then j else last_place 46 (between a i s) a t) e
        (length-between a i s h (omega arith))

pub last_place-Without : (c : ℕ) (xs : Bytes) (n t : ℕ) → Without c xs → last_place c xs n t ≡ t
unfolding last_place
last_place-Without c [] n t w = refl
last_place-Without c (x ∷ xs) n t w =
    let (other, rest) = Without-tail c x xs w in rw other (last_place-Without c xs (n + 1) t rest)

pub last_place-stem :
    (c : ℕ) (stem ext : Bytes) (n t : ℕ)
    → Without c ext
    → last_place c (stem ++ (c ∷ ext)) n t ≡ n + length stem
unfolding last_place
last_place-stem c [] ext n t w =
    let same : (c == c) ≡ true = ground arith in
    rw (last_place, same) (last_place-Without c ext (n + 1) n w ∙ omega arith)
last_place-stem c (x ∷ stem) ext n t w =
    last_place-stem c stem ext (n + 1) (if x == c then n else t) w ∙ omega arith

pub between-all : (a : ℕ) (s : Bytes) → between a (length s) s ≡ drop a s
unfolding between
between-all a s = take-all (length s - a) (drop a s) (omega (arith, length-drop a s))

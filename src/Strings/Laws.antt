-- ===== src/Strings/Laws.antt =====
-- Laws of the string helpers.
use image_proxy.Base.{
  ℕ, suc, ◌-◌, ◌<◌, ◌≡◌, refl, sym, ap, ◌∙◌, ◌≢◌, ◌↔◌, inl, inr, true, false, List, [], ◌∷◌, map,
  arith, ◌==◌, lt→ltb, ==→eq, Bool-cases, length, take, All, take-take-min, take-all, holds_below,
  holds_below_at, Bytes, bytes_eq, bytes_eq_iff,
}
use image_proxy.Strings.{string_copy, to_lower, same_letters, fold_char, equals_ignore_case}

-- What is copied is the string cut to what fits before the NUL.
pub string_copy-take : (n : ℕ) (s : Bytes) → 0 < n → string_copy n s ≡ take (n - 1) s
unfolding string_copy
string_copy-take n s h = rw (lt→ltb 0 n h) (
    sym (take-take-min (length s) (n - 1) _ s refl)
    ∙ ap (take (n - 1)) (take-all (length s) s (omega arith)))

fold_table : holds_below (λ c. fold_char c == to_lower c) 256 ≡ true
unfolding fold_char to_lower holds_below
fold_table = refl

-- The table folds a byte as the function `ToLowerASCII` does.
pub fold_char-to_lower : (c : ℕ) → c < 256 → fold_char c ≡ to_lower c
fold_char-to_lower c h =
    ==→eq _ _ (holds_below_at (λ x. fold_char x == to_lower x) 256 c h fold_table)

abbrev pub IsByteString : Bytes → Type 0
IsByteString = All (λ (c : ℕ). c < 256)

same_letters-map :
    (cs bs : Bytes)
    → length cs ≡ length bs
    → IsByteString cs
    → IsByteString bs
    → same_letters cs bs ≡ bytes_eq (map to_lower cs) (map to_lower bs)
unfolding same_letters bytes_eq
same_letters-map [] [] h p q = refl
same_letters-map [] (b ∷ bs) h p q = absurd (omega arith)
same_letters-map (a ∷ cs) [] h p q = absurd (omega arith)
same_letters-map (a ∷ cs) (b ∷ bs) h p q =
    rw (fold_char-to_lower a p.0, fold_char-to_lower b q.0) (ground (arith, same_letters-map cs bs))

length-map {ℓ κ} :
    {A : Type ℓ} {B : Type κ} (f : A → B) (xs : List A) → length (map f xs) ≡ length xs
length-map f [] = refl
length-map f (x ∷ xs) = ap suc (length-map f xs)

-- Two byte strings pass for equal exactly when their forms in lower case are the same.
pub equals_ignore_case-map :
    (cs bs : Bytes)
    → IsByteString cs
    → IsByteString bs
    → (equals_ignore_case cs bs ≡ true) ↔ (map to_lower cs ≡ map to_lower bs)
unfolding equals_ignore_case
equals_ignore_case-map cs bs p q = elim (Bool-cases (length cs == length bs)) [
  | inl e ↦
      rw (e, same_letters-map cs bs (==→eq _ _ e) p q)
        (bytes_eq_iff (map to_lower cs) (map to_lower bs))
  | inr e ↦ rw e ((λ h. cc), λ h. absurd (differ e h))
]
  where
    differ : (length cs == length bs) ≡ false → map to_lower cs ≢ map to_lower bs
    differ e h =
        let l : length cs ≡ length bs =
          sym (length-map to_lower cs) ∙ ap length h ∙ length-map to_lower bs in
        ground arith

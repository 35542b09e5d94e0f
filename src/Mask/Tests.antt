-- ===== src/Mask/Tests.antt =====
-- Concrete masks.
use image_proxy.Base.{◌≡◌, refl, ◌↔◌, true, false, [], codes}
use image_proxy.Mask.Contains.{Contains, mask_match-Contains}
use image_proxy.Mask.Stars.{two_stars-none, mismatch-passes}
use image_proxy.Split.{scan}
use image_proxy.Mask.{
  skip_stars, skip_to, match_alike, try_match, next_place, star_loop, match_loop, mask_match,
}

-- A star at the front finds the text wherever it stands.
inner_run : mask_match (codes "*.so") (codes "a.so.1") ≡ true
unfolding mask_match match_loop star_loop try_match match_alike next_place skip_to skip_stars
inner_run = refl

miss_run : mask_match (codes "*.so") (codes "a.s") ≡ false
unfolding mask_match match_loop star_loop try_match match_alike next_place skip_to skip_stars
miss_run = refl

-- The last character before a star is not compared.
last_run : mask_match (codes "lib*") (codes "lixyz") ≡ true
unfolding mask_match match_loop star_loop try_match match_alike next_place skip_to skip_stars
last_run = refl

two_stars_run : mask_match (codes "*a*b") (codes "ab") ≡ false
unfolding mask_match match_loop star_loop try_match match_alike next_place skip_to skip_stars
two_stars_run = refl

overlap_run : mask_match (codes "*aab") (codes "aaab") ≡ true
unfolding mask_match match_loop star_loop try_match match_alike next_place skip_to skip_stars
overlap_run = refl

mask_match-Contains_example :
    (mask_match (codes "*.so") (codes "a.so.1") ≡ true) ↔ Contains (codes ".so") (codes "a.so.1")
unfolding scan
mask_match-Contains_example = mask_match-Contains 46 (codes "so") (codes "a.so.1") refl

two_stars-none_example : mask_match (codes "*a*b") (codes "ab") ≡ false
unfolding scan
two_stars-none_example = two_stars-none 97 [] [] (codes "ab") 98 refl refl

mismatch-passes_run : mask_match (codes "lib*") (codes "lixyz") ≡ true
unfolding scan skip_stars
mismatch-passes_run = mismatch-passes (codes "li") (codes "yz") (codes "*") 98 120 refl refl refl

-- ===== src/Piece/Tests.antt =====
-- Concrete pieces.
use image_proxy.Base.{◌≡◌, refl, true, [], arith, codes, bytes_eq}
use image_proxy.Piece.{
  find, skip_head, tail_from, trim, trim_head, remove_prefix, remove_suffix, substr, ends_with,
}
use image_proxy.Piece.Trim.{Trimmed, trim-Trimmed}

trim_run : trim (codes " -") (codes " -a b- ") ≡ codes "a b"
unfolding trim skip_head tail_from find
trim_run = refl

trim_all_run : trim (codes " ") (codes "   ") ≡ []
unfolding trim skip_head tail_from find
trim_all_run = refl

trim_head_run : trim_head (codes " ") (codes " a ") ≡ codes "a "
unfolding trim_head skip_head find
trim_head_run = refl

substr_run : substr (codes "abcdef") 4 9 ≡ codes "ef"
unfolding substr
substr_run = refl

removed_run : remove_suffix (remove_prefix (codes "abcdef") 2) 9 ≡ []
unfolding remove_suffix remove_prefix
removed_run = refl

ends_with_run : ends_with (codes "a.so") (codes ".so") ≡ true
unfolding ends_with bytes_eq
ends_with_run = refl

trim-Trimmed_example : Trimmed (codes " ") (codes " a ") (trim (codes " ") (codes " a "))
trim-Trimmed_example = trim-Trimmed (codes " ") (codes " a ") (omega arith)

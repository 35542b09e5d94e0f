-- ===== src/Strings/Tests.antt =====
-- Concrete cases of the string helpers.
use image_proxy.Base.{◌≡◌, refl, ◌↔◌, true, map, arith, codes}
use image_proxy.Strings.{to_lower, equals_ignore_case, fold_char, same_letters}
use image_proxy.Strings.Laws.{equals_ignore_case-map}

location_matches : equals_ignore_case (codes "Location") (codes "LOCATION") ≡ true
unfolding equals_ignore_case same_letters fold_char
location_matches = refl

ignore_case_run :
    (equals_ignore_case (codes "Ab") (codes "aB") ≡ true)
    ↔ (map to_lower (codes "Ab") ≡ map to_lower (codes "aB"))
ignore_case_run =
    equals_ignore_case-map (codes "Ab") (codes "aB") (omega arith, (omega arith, tt))
      (omega arith, (omega arith, tt))

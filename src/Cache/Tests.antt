-- ===== src/Cache/Tests.antt =====
-- Concrete runs of the image cache.
use image_proxy.Base.{
  ◌≡◌, refl, true, false, none, some, List, [], ◌∷◌, length, Bytes, codes, bytes_eq,
}
use image_proxy.Cache.{Value, Lock, init, get, put, Call, gets, puts, step, run, find, gives_up}
use image_proxy.Cache.Refine.{table_of, table_run, run-table}
use image_proxy.Cache.Bound
use image_proxy.Cache.Bound.{IsValid, keys, put_all, map_unbounded, put-IsValid, init-IsValid}

abbrev granted : Lock
granted = record { try_lock = false; timed_lock = true }

abbrev refused : Lock
refused = record { try_lock = false; timed_lock = false }

abbrev page : Bytes
page = codes "/a.pdf"

abbrev other_page : Bytes
other_page = codes "/b.pdf"

abbrev script : List Call
script =
    gets granted 1 page
    ∷ puts granted page (some 1)
    ∷ gets refused 2 page
    ∷ gets granted 3 page
    ∷ puts granted other_page (some 3)
    ∷ gets granted 4 other_page
    ∷ []

script_replies :
    (run (init 1) script).1
    ≡ some (1, false) ∷ none ∷ some (2, false) ∷ some (1, true) ∷ none ∷ some (3, true) ∷ []
unfolding run step get put init bytes_eq find
script_replies = refl

run-table_example :
    let (c, rs) = run (init 1) script in (table_of c, rs) ≡ table_run (table_of (init 1)) script
run-table_example = run-table (init 1) script

put-IsValid_example : IsValid (put (init 0) granted page (some 1))
put-IsValid_example = put-IsValid (init 0) granted page (some 1) (init-IsValid 0)

abbrev entries : List (Bytes × Value)
entries = (page, some 1) ∷ (other_page, some 2) ∷ []

map_unbounded_example :
    (length (put_all (init 1) granted entries).map ≡ 2)
    × (length (put_all (init 1) granted entries).queue ≡ 1)
unfolding gives_up bytes_eq Bound.contains
map_unbounded_example = map_unbounded 1 granted entries refl (refl, (refl, tt))

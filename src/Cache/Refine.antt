-- ===== src/Cache/Refine.antt =====
-- `Get` and `Put` against a table: a function from keys to what was last stored.
use image_proxy.Base.{
  ℕ, ◌≡◌, refl, ap, ◌∙◌, Bool, true, false, Option, none, some, List, [], ◌∷◌, arith, if◌then◌else◌,
  Option-cases, Bytes, bytes_eq, bytes_eq_iff,
}
use image_proxy.Cache.{
  Value, Map, find, insert, assign, ImageCache, push, Lock, gives_up, get, put, Call, gets, puts,
  Reply, step, run,
}

find-assign_self :
    (k : Bytes) (v : Value) (m : Map)
    → find k (assign k v m) ≡ elim (find k m) [ none ↦ none | some w ↦ some v ]
unfolding find assign
find-assign_self k v [] = refl
find-assign_self k v ((j, u) ∷ m) = ground (arith, find-assign_self k v m)

find-assign_ne :
    (k j : Bytes) (v : Value) (m : Map) → bytes_eq k j ≡ false → find j (assign k v m) ≡ find j m
unfolding find assign
find-assign_ne k j v [] h = refl
find-assign_ne k j v ((i, u) ∷ m) h =
    ground (arith, find-assign_ne k j v m h, bytes_eq_iff i k, bytes_eq_iff i j, bytes_eq_iff k j)

map-push : (c : ImageCache) (k : Bytes) → (push c k).map ≡ c.map
unfolding push
map-push c k = refl

-- A key that `Put` stored under the lock has the value stored, and every other key keeps its own.
pub find-put :
    (c : ImageCache) (l : Lock) (k j : Bytes) (v : Value)
    → find j (put c l k v).map
      ≡ (if gives_up l then find j c.map else if bytes_eq k j then some v else find j c.map)
unfolding put gives_up find insert
find-put c l k j v = ground (
  arith,
  find-assign_ne k j v c.map,
  find-assign_self k v c.map,
  bytes_eq_iff k j,
  Option-cases (find k c.map),
)

abbrev pub Table : Type 0
Table = Bytes → Option Value

-- What `Get` owes its caller: on a hit the stored stream, else the fresh one.
unfoldable pub answer : Option Value → ℕ → ℕ × Bool
answer none fresh = (fresh, false)
answer (some none) fresh = (fresh, true)
answer (some (some s)) fresh = (s, true)

unfoldable pub table_step : Table → Call → Table × Reply
table_step t (gets l fresh k) = (t, some (answer (if gives_up l then none else t k) fresh))
table_step t (puts l k v) =
    (λ j. if gives_up l then t j else if bytes_eq k j then some v else t j, none)

unfoldable pub table_run : Table → List Call → Table × List Reply
table_run t [] = (t, [])
table_run t (x ∷ xs) =
    let (t1, r) = table_step t x in let (t2, rs) = table_run t1 xs in (t2, r ∷ rs)

unfoldable pub table_of : ImageCache → Table
table_of c = λ k. find k c.map

get-answer :
    (c : ImageCache) (l : Lock) (fresh : ℕ) (k : Bytes)
    → get c l fresh k ≡ answer (if gives_up l then none else find k c.map) fresh
unfolding get answer
get-answer c l fresh k = ground (arith, Option-cases (find k c.map))

step-table :
    (c : ImageCache) (x : Call)
    → let (c', r) = step c x in (table_of c', r) ≡ table_step (table_of c) x
unfolding step table_step table_of
step-table c (gets l fresh k) = rw (get-answer c l fresh k)
step-table c (puts l k v) = λ i. ((λ j. find-put c l k j v i), none)

-- No sequence of calls, whichever of them gives up on the lock, tells the cache from a table: the
-- replies are those of the table, and so is the table that is left.
pub run-table :
    (c : ImageCache) (xs : List Call)
    → let (c', rs) = run c xs in (table_of c', rs) ≡ table_run (table_of c) xs
unfolding run table_run
run-table c [] = refl
run-table c (x ∷ xs) =
    ap (λ (p : Table × List Reply). (p.0, (step c x).1 ∷ p.1)) (run-table (step c x).0 xs)
    ∙ ap (λ (p : Table × Reply). ((table_run p.0 xs).0, p.1 ∷ (table_run p.0 xs).1))
        (step-table c x)

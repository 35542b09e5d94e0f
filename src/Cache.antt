-- ===== src/Cache.antt =====
-- The image cache: webhdfs_image_proxy/image_cache.h and image_cache.cpp.
-- A `shared_ptr<IOStream>` is the handle of a stream, `none` if it is empty. A map iterator stands
-- for its key, since iterators of a `std::map` stay valid and keys are distinct.
pub mod Bound
pub mod Refine
mod Tests
use image_proxy.Base.{
  ℕ, zero, suc, ◌+◌, ◌-◌, ◌*◌, ◌/◌, ◌%◌, ◌^◌, ◌≤◌, ◌<◌, min, max, ◌≡◌, refl, sym, ap, ap₂, subst,
  ◌∙◌, ◌≢◌, ◌↔◌, ◌⊎◌, inl, inr, Bool, true, false, not, ◌&&◌, ◌||◌, Option, none, some, List, [],
  ◌∷◌, ◌++◌, flatten, append-nil, append_assoc, arith, ltb, leb, ◌==◌, if◌then◌else◌, ltb→lt,
  lt→ltb, leb→le, ==→eq, ==_iff, tests, Bool-cases, Option-cases, length, get_elem?, set, get_or,
  take, drop, replicate, All, length-append, length-set, length-take, length-drop, length-replicate,
  take-append-drop, get_elem?-set_self, get_elem?-set_ne, take-all, drop-all, take-append_le,
  take-append_add, drop-append_le, drop-append_add, Bytes, codes, bytes_eq, bytes_eq_refl,
  bytes_eq→eq, bytes_eq_iff,
}

abbrev pub Value : Type 0
Value = Option ℕ

abbrev pub Map : Type 0
Map = List (Bytes × Value)

-- `map.find`, with the end iterator as `none`.
unfoldable pub find : Bytes → Map → Option Value
find k [] = none
find k ((j, w) ∷ m) = if bytes_eq j k then some w else find k m

-- `map.insert`: does nothing if the key is there, and says whether it inserted.
unfoldable pub insert : Bytes → Value → Map → Map × Bool
insert k v m = elim (find k m) [ none ↦ ((k, v) ∷ m, true) | some w ↦ (m, false) ]

-- `it.first->second = v` at the iterator of `k`.
unfoldable pub assign : Bytes → Value → Map → Map
assign k v [] = []
assign k v ((j, w) ∷ m) = (j, if bytes_eq j k then v else w) ∷ assign k v m

pub record ImageCache : Type 0 where
  pub map : Map
  pub queue : List Bytes
  pub items_cap : ℕ

-- The constructor.
unfoldable pub init : ℕ → ImageCache
init cap = record { map = []; queue = []; items_cap = cap }

-- `queue.pop()` of a queue that is not empty.
abbrev pub tail : List Bytes → List Bytes
tail [] = []
tail (x ∷ xs) = xs

-- `Push`.
unfoldable pub push : ImageCache → Bytes → ImageCache
push c it =
    let queue = c.queue ++ (it ∷ []) in
    record c { queue = if ltb c.items_cap (length queue) then tail queue else queue }

-- How the lock was asked for: `try_to_lock` at once, then `timed_lock` for one second.
pub record Lock : Type 0 where
  pub try_lock : Bool
  pub timed_lock : Bool

-- The test `!lock && !lock.timed_lock(seconds(1))`, under which both operations give up.
unfoldable pub gives_up : Lock → Bool
gives_up l = not l.try_lock && not l.timed_lock

-- The part of `Get` under the lock: the item and the hit.
unfoldable pub search_map : ImageCache → Lock → Bytes → Value × Bool
unfolding gives_up
search_map c l k =
    if gives_up l
    then (none, false)
    else elim (find k c.map) [ none ↦ (none, false) | some item ↦ (item, true) ]

-- `Get`; `fresh` is the handle of the stream that `new DynamicMemoryStream()` would give.
unfoldable pub get : ImageCache → Lock → ℕ → Bytes → ℕ × Bool
unfolding search_map
get c l fresh k =
    let (item, hit) = search_map c l k in elim item [ none ↦ (fresh, hit) | some s ↦ (s, hit) ]

-- `Put`.
unfoldable pub put : ImageCache → Lock → Bytes → Value → ImageCache
unfolding gives_up push insert
put c l k v =
    if gives_up l
    then c
    else let (map', inserted) = insert k v c.map in
      if inserted then push (record c { map = map' }) k else record c { map = assign k v c.map }

-- The calls of many threads, in the order in which they take the lock.
pub data Call : Type 0 where
  gets : Lock → ℕ → Bytes → Call
  puts : Lock → Bytes → Value → Call

-- What a call returns to its caller.
abbrev pub Reply : Type 0
Reply = Option (ℕ × Bool)

unfoldable pub step : ImageCache → Call → ImageCache × Reply
step c (gets l fresh k) = (c, some (get c l fresh k))
step c (puts l k v) = (put c l k v, none)

unfoldable pub run : ImageCache → List Call → ImageCache × List Reply
run c [] = (c, [])
run c (x ∷ xs) = let (c1, r) = step c x in let (c2, rs) = run c1 xs in (c2, r ∷ rs)

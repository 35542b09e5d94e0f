-- ===== src/Cache/Bound.antt =====
-- What the cache's limit `items_cap` bounds: the queue, and not the map.
use image_proxy.Base.{
  ℕ, ◌+◌, ◌-◌, ◌≤◌, min, ◌≡◌, refl, Bool, false, ◌||◌, none, List, [], ◌∷◌, ◌++◌, arith, length,
  length-append, Bytes, bytes_eq, bytes_eq_iff,
}
use image_proxy.Cache.{
  Value, Map, find, insert, assign, ImageCache, init, tail, push, Lock, gives_up, put,
}
use image_proxy.Cache.Refine.{find-put}

-- The keys of the map, newest first.
abbrev pub keys : Map → List Bytes
keys [] = []
keys ((k, v) ∷ m) = k ∷ keys m

unfoldable pub contains : Bytes → List Bytes → Bool
contains k [] = false
contains k (j ∷ js) = bytes_eq j k || contains k js

-- No key stands twice.
abbrev pub Distinct : List Bytes → Type 0
Distinct [] = Unit {0}
Distinct (k ∷ ks) = (contains k ks ≡ false) × Distinct ks

-- The queue is within the limit, and the map has each key once.
pub record IsValid (c : ImageCache) : Type 0 where
  pub within : length c.queue ≤ c.items_cap
  pub distinct : Distinct (keys c.map)

length-tail : (q : List Bytes) → length (tail q) ≡ length q - 1
length-tail [] = omega arith
length-tail (x ∷ xs) = omega arith

keys-assign : (k : Bytes) (v : Value) (m : Map) → keys (assign k v m) ≡ keys m
unfolding assign
keys-assign k v [] = refl
keys-assign k v ((j, w) ∷ m) = rw (keys-assign k v m)

find-none : (k : Bytes) (m : Map) → find k m ≡ none → contains k (keys m) ≡ false
unfolding find contains
find-none k [] h = refl
find-none k ((j, w) ∷ m) h = ground (arith, find-none k m)

-- A new cache is valid.
pub init-IsValid : (cap : ℕ) → IsValid (init cap)
unfolding init
init-IsValid cap = record { within = omega arith; distinct = tt }

-- `Put` keeps a cache valid, whether it gets the lock or not: the queue stays within its limit, and
-- the map has each key once.
pub put-IsValid :
    (c : ImageCache) (l : Lock) (k : Bytes) (v : Value) → IsValid c → IsValid (put c l k v)
unfolding put insert push
put-IsValid c l k v h = ground (
  arith,
  find-none k c.map,
  keys-assign k v c.map,
  length-tail (c.queue ++ k ∷ []),
  length-append c.queue (k ∷ []),
)

-- A `Put` under the lock for each entry in turn.
unfoldable pub put_all : ImageCache → Lock → List (Bytes × Value) → ImageCache
put_all c l [] = c
put_all c l ((k, v) ∷ xs) = put_all (put c l k v) l xs

-- None of the keys is in the map.
abbrev AllNew : Map → List (Bytes × Value) → Type 0
AllNew m [] = Unit {0}
AllNew m ((k, v) ∷ xs) = (find k m ≡ none) × AllNew m xs

AllNew-put :
    (c : ImageCache) (l : Lock) (k : Bytes) (v : Value) (xs : List (Bytes × Value))
    → contains k (keys xs) ≡ false
    → AllNew c.map xs
    → AllNew (put c l k v).map xs
unfolding contains
AllNew-put c l k v [] d n = tt
AllNew-put c l k v ((j, w) ∷ xs) d n = (
  ground (arith, find-put c l k j v, bytes_eq_iff k j, bytes_eq_iff j k),
  AllNew-put c l k v xs (ground arith) n.1,
)

AllNew-empty : (xs : List (Bytes × Value)) → AllNew [] xs
unfolding find
AllNew-empty [] = tt
AllNew-empty ((k, v) ∷ xs) = (refl, AllNew-empty xs)

put-grows :
    (c : ImageCache) (l : Lock) (k : Bytes) (v : Value)
    → gives_up l ≡ false
    → find k c.map ≡ none
    → length c.queue ≤ c.items_cap
    → (length (put c l k v).map ≡ length c.map + 1)
      × (length (put c l k v).queue ≡ min (length c.queue + 1) c.items_cap)
      × ((put c l k v).items_cap ≡ c.items_cap)
unfolding put insert push
put-grows c l k v g n q =
    ground (arith, length-tail (c.queue ++ k ∷ []), length-append c.queue (k ∷ []))

put_all-grows :
    (c : ImageCache) (l : Lock) (xs : List (Bytes × Value))
    → gives_up l ≡ false
    → Distinct (keys xs)
    → AllNew c.map xs
    → length c.queue ≤ c.items_cap
    → (length (put_all c l xs).map ≡ length c.map + length xs)
      × (length (put_all c l xs).queue ≡ min (length c.queue + length xs) c.items_cap)
unfolding put_all
put_all-grows c l [] g d n q = omega arith
put_all-grows c l ((k, v) ∷ xs) g d n q =
    let one = put-grows c l k v g n.0 q in
    omega (
      arith,
      one,
      put_all-grows (put c l k v) l xs g d.1 (AllNew-put c l k v xs d.0 n.1) (omega (arith, one)),
    )

-- Storing under n distinct keys leaves n streams in the map, whatever the limit is; only the queue
-- stays within it.
pub map_unbounded :
    (cap : ℕ) (l : Lock) (xs : List (Bytes × Value))
    → gives_up l ≡ false
    → Distinct (keys xs)
    → (length (put_all (init cap) l xs).map ≡ length xs)
      × (length (put_all (init cap) l xs).queue ≡ min (length xs) cap)
unfolding init
map_unbounded cap l xs g d =
    omega (arith, put_all-grows (init cap) l xs g d (AllNew-empty xs) (omega arith))

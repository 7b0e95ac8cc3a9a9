-- ===== src/Dtree/Cache/Lookup.antt =====
-- The cache as a map from watch descriptors to pathnames.
use bookcode_linux.Common.{
  ℕ, zero, suc, ◌+◌, ◌-◌, ◌≡◌, refl, ap, inl, inr, false, Option, none, some, [], ◌∷◌, ◌++◌, Bytes,
  length, take, get_elem?, set, replicate, ◌==◌, if◌then◌else◌, arith, Bool-cases,
}
use bookcode_linux.Common.Int.{ℤ, pos, negsuc, eq_ℤ, is_nonneg, minus_one, eq_ℤ_iff}
use bookcode_linux.Dtree.Cache.{
  Watch, Cache, unused, find_watch, find_watch_from, alloc_incr, unused_slot_from, slot_or_grow,
  find_empty_cache_slot, add_watch_to_cache, path_max,
}

unfoldable pub lookup : ℤ → Cache → Option Bytes
lookup wd [] = none
lookup wd (x ∷ c) = if eq_ℤ x.wd wd then some x.path else lookup wd c

-- The slot found holds the descriptor, and none is found exactly if the map has none.
abbrev pub Found : ℤ → ℕ → Cache → ℤ → Type 0
Found wd i c (pos j) =
    (k : ℕ) × (x : Watch) × (j ≡ i + k)
    × (get_elem? c k ≡ some x)
    × (x.wd ≡ wd)
    × (lookup wd c ≡ some x.path)
Found wd i c (negsuc k) = (k ≡ 0) × (lookup wd c ≡ none)

shift-Found :
    (wd r : ℤ) (i : ℕ) (x : Watch) (c : Cache)
    → eq_ℤ x.wd wd ≡ false
    → Found wd (i + 1) c r
    → Found wd i (x ∷ c) r
unfolding lookup
shift-Found wd (pos j) i x c e (k, y, p, g, w, l) = (suc k, y, omega arith, g, w, rw e l)
shift-Found wd (negsuc k) i x c e (z, l) = (z, rw e l)

find_watch_from-Found : (wd : ℤ) (i : ℕ) (c : Cache) → Found wd i c (find_watch_from wd i c)
unfolding lookup
find_watch_from-Found wd i [] = (refl, refl)
find_watch_from-Found wd i (x ∷ c) = elim (Bool-cases (eq_ℤ x.wd wd)) [
  | inl e ↦ rw e (0, x, omega arith, refl, (eq_ℤ_iff x.wd wd).0 e, rw e)
  | inr e ↦
      rw e
        (shift-Found wd (find_watch_from wd (i + 1) c) i x c e (find_watch_from-Found wd (i + 1) c))
]

-- `findWatch` returns a slot that holds the descriptor, together with the pathname that the map has
-- for it; it returns -1 if the map has none.
pub find_watch-Found : (wd : ℤ) (c : Cache) → Found wd 0 c (find_watch wd c)
unfolding find_watch
find_watch-Found wd c = find_watch_from-Found wd 0 c

pub lookup_of_not_found :
    (wd : ℤ) (c : Cache) → is_nonneg (find_watch wd c) ≡ false → lookup wd c ≡ none
lookup_of_not_found wd c h = go (find_watch wd c) h (find_watch-Found wd c)
  where
    go : (r : ℤ) → is_nonneg r ≡ false → Found wd 0 c r → lookup wd c ≡ none
    go (pos j) e f = cc
    go (negsuc k) e f = f.1

-- Where `addWatchToCache` puts an entry: in the first unused slot, or in the first of the
-- `alloc_incr` slots that it adds.
unfoldable pub place : Watch → Cache → Cache
place w [] = w ∷ replicate (alloc_incr - 1) unused
place w (x ∷ c) = if eq_ℤ x.wd minus_one then w ∷ c else x ∷ place w c

-- The slot is counted from `i`, and the entry is put into the list from there.
abbrev Placed : Watch → ℕ → Cache → Option ℕ → Type 0
Placed w i c (some j) = (k : ℕ) × (j ≡ i + k) × (set c k w ≡ place w c)
Placed w i c none = set (c ++ replicate alloc_incr unused) (length c) w ≡ place w c

shift-Placed :
    (w x : Watch) (i : ℕ) (c : Cache) (o : Option ℕ)
    → eq_ℤ x.wd minus_one ≡ false
    → Placed w (i + 1) c o
    → Placed w i (x ∷ c) o
unfolding place
shift-Placed w x i c (some j) e (k, p, q) = (suc k, omega arith, rw e (ap (λ t. x ∷ t) q))
shift-Placed w x i c none e q = rw e (ap (λ t. x ∷ t) q)

unused_slot_from-Placed : (w : Watch) (i : ℕ) (c : Cache) → Placed w i c (unused_slot_from i c)
unfolding place
unused_slot_from-Placed w i [] = refl
unused_slot_from-Placed w i (x ∷ c) = elim (Bool-cases (eq_ℤ x.wd minus_one)) [
  | inl e ↦ rw e (0, omega arith, rw e)
  | inr e ↦
      rw e
        (shift-Placed w x i c (unused_slot_from (i + 1) c) e (unused_slot_from-Placed w (i + 1) c))
]

pub add_watch_to_cache_lem :
    (wd : ℤ) (path : Bytes) (c : Cache)
    → (add_watch_to_cache wd path c).1 ≡ place (record { wd = wd; path = take path_max path }) c
unfolding add_watch_to_cache find_empty_cache_slot
add_watch_to_cache_lem wd path c = go (unused_slot_from 0 c) (unused_slot_from-Placed w 0 c)
  where
    w : Watch
    w = record { wd = wd; path = take path_max path }

    go :
        (o : Option ℕ)
        → Placed w 0 c o
        → set (slot_or_grow o c).1 (slot_or_grow o c).0 w ≡ place w c
    go (some j) (k, e, q) = let e' : j ≡ k = omega arith in rw e' q
    go none q = q

pub lookup-replicate : (m n : ℕ) → lookup (pos m) (replicate n unused) ≡ none
unfolding lookup
lookup-replicate m zero = refl
lookup-replicate m (suc n) = lookup-replicate m n

pub lookup-place :
    (n m : ℕ) (path : Bytes) (c : Cache)
    → lookup (pos n) c ≡ none
    → lookup (pos m) (place (record { wd = pos n; path = path }) c)
      ≡ (if n == m then some path else lookup (pos m) c)
unfolding lookup place
lookup-place n m path [] h = rw (lookup-replicate m (alloc_incr - 1))
lookup-place n m path (x ∷ c) h = ground (
  arith,
  lookup-place n m path c,
  eq_ℤ_iff x.wd minus_one,
  eq_ℤ_iff x.wd (pos n),
  eq_ℤ_iff x.wd (pos m),
)

-- Adding an entry for a descriptor that the cache does not have adds it to the map, its pathname
-- cut to PATH_MAX bytes, and changes no other entry.
pub lookup-add_watch_to_cache :
    (n m : ℕ) (path : Bytes) (c : Cache)
    → lookup (pos n) c ≡ none
    → lookup (pos m) (add_watch_to_cache (pos n) path c).1
      ≡ (if n == m then some (take path_max path) else lookup (pos m) c)
lookup-add_watch_to_cache n m path c h =
    rw (add_watch_to_cache_lem (pos n) path c) (lookup-place n m (take path_max path) c h)

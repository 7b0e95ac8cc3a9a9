-- ===== src/Dtree/Cache/Unique.antt =====
-- No watch descriptor stands in two slots of the cache.
use bookcode_linux.Common.{
  ℕ, zero, suc, ◌-◌, ◌≡◌, ◌≢◌, refl, ap, ◌∙◌, inl, inr, true, false, Option, none, some, [], ◌∷◌,
  Bytes, take, get_elem?, set, replicate, if◌then◌else◌, arith, Bool-cases,
}
use bookcode_linux.Common.Int.{ℤ, pos, negsuc, eq_ℤ, minus_one, eq_ℤ_iff}
use bookcode_linux.Dtree.Cache.{
  Watch, Cache, unused, alloc_incr, add_watch_to_cache, path_max, mark_cache_slot_empty,
  rewrite_from, rewrite_path, rewrite_cached_paths, join_path,
}
use bookcode_linux.Dtree.Cache.Lookup.{
  lookup, place, lookup-place, add_watch_to_cache_lem, lookup-replicate,
}

-- An unused slot, or a descriptor that the other slots do not have.
abbrev pub IsFresh : ℤ → Cache → Type 0
IsFresh (pos n) c = lookup (pos n) c ≡ none
IsFresh (negsuc k) c = Unit

abbrev pub IsUnique : Cache → Type 0
IsUnique [] = Unit
IsUnique (x ∷ c) = IsFresh x.wd c × IsUnique c

replicate-IsUnique : (n : ℕ) → IsUnique (replicate n unused)
replicate-IsUnique zero = tt
replicate-IsUnique (suc n) = (tt, replicate-IsUnique n)

IsFresh-place :
    (wd : ℤ) (n : ℕ) (path : Bytes) (c : Cache)
    → IsFresh wd c
    → lookup (pos n) c ≡ none
    → eq_ℤ wd (pos n) ≡ false
    → IsFresh wd (place (record { wd = pos n; path = path }) c)
IsFresh-place (pos m) n path c f h e = ground (arith, lookup-place n m path c h)
IsFresh-place (negsuc k) n path c f h e = tt

place-IsUnique :
    (n : ℕ) (path : Bytes) (c : Cache)
    → lookup (pos n) c ≡ none
    → IsUnique c
    → IsUnique (place (record { wd = pos n; path = path }) c)
unfolding lookup place
place-IsUnique n path [] h u =
    (lookup-replicate n (alloc_incr - 1), replicate-IsUnique (alloc_incr - 1))
place-IsUnique n path (x ∷ c) h u = elim (Bool-cases (eq_ℤ x.wd minus_one)) [
  | inl e ↦ rw e (ground (arith, eq_ℤ_iff x.wd minus_one), u.1)
  | inr e ↦ elim (Bool-cases (eq_ℤ x.wd (pos n))) [
    | inl same ↦ cc (rw same at h)
    | inr other ↦ rw e (
      IsFresh-place x.wd n path c u.0 (rw other at h) other,
      place-IsUnique n path c (rw other at h) u.1,
    )
  ]
]

lookup-place_neg :
    (k m : ℕ) (path : Bytes) (c : Cache)
    → lookup (pos m) (place (record { wd = negsuc k; path = path }) c) ≡ lookup (pos m) c
unfolding lookup place
lookup-place_neg k m path [] = lookup-replicate m (alloc_incr - 1)
lookup-place_neg k m path (x ∷ c) =
    ground (arith, lookup-place_neg k m path c, eq_ℤ_iff x.wd minus_one)

IsFresh-place_neg :
    (wd : ℤ) (k : ℕ) (path : Bytes) (c : Cache)
    → IsFresh wd c
    → IsFresh wd (place (record { wd = negsuc k; path = path }) c)
IsFresh-place_neg (pos m) k path c f = lookup-place_neg k m path c ∙ f
IsFresh-place_neg (negsuc j) k path c f = tt

place-IsUnique_neg :
    (k : ℕ) (path : Bytes) (c : Cache)
    → IsUnique c
    → IsUnique (place (record { wd = negsuc k; path = path }) c)
unfolding place
place-IsUnique_neg k path [] u = (tt, replicate-IsUnique (alloc_incr - 1))
place-IsUnique_neg k path (x ∷ c) u = elim (Bool-cases (eq_ℤ x.wd minus_one)) [
  | inl e ↦ rw e (tt, u.1)
  | inr e ↦ rw e (IsFresh-place_neg x.wd k path c u.0, place-IsUnique_neg k path c u.1)
]

-- `addWatchToCache` keeps the descriptors unique if it is given a new one.
pub add_watch_to_cache-IsUnique :
    (wd : ℤ) (path : Bytes) (c : Cache)
    → lookup wd c ≡ none
    → IsUnique c
    → IsUnique (add_watch_to_cache wd path c).1
add_watch_to_cache-IsUnique (pos n) path c h u =
    rw (add_watch_to_cache_lem (pos n) path c) (place-IsUnique n (take path_max path) c h u)
add_watch_to_cache-IsUnique (negsuc k) path c h u =
    rw (add_watch_to_cache_lem (negsuc k) path c) (place-IsUnique_neg k (take path_max path) c u)

lookup-set-unused :
    (c : Cache) (j m : ℕ) → lookup (pos m) c ≡ none → lookup (pos m) (set c j unused) ≡ none
unfolding lookup
lookup-set-unused [] j m h = refl
lookup-set-unused (x ∷ c) zero m h = ground arith
lookup-set-unused (x ∷ c) (suc j) m h = ground (arith, lookup-set-unused c j m)

IsFresh-set : (wd : ℤ) (c : Cache) (j : ℕ) → IsFresh wd c → IsFresh wd (set c j unused)
IsFresh-set (pos m) c j f = lookup-set-unused c j m f
IsFresh-set (negsuc k) c j f = tt

pub mark_cache_slot_empty-IsUnique :
    (j : ℕ) (c : Cache) → IsUnique c → IsUnique (mark_cache_slot_empty j c)
unfolding mark_cache_slot_empty
mark_cache_slot_empty-IsUnique j [] u = tt
mark_cache_slot_empty-IsUnique zero (x ∷ c) u = (tt, u.1)
mark_cache_slot_empty-IsUnique (suc j) (x ∷ c) u =
    (IsFresh-set x.wd c j u.0, mark_cache_slot_empty-IsUnique j c u.1)

pub fresh_lookup :
    (wd : ℤ) (m : ℕ) (c : Cache) → IsFresh wd c → eq_ℤ wd (pos m) ≡ true → lookup (pos m) c ≡ none
fresh_lookup (pos n) m c f e = ground (arith, eq_ℤ_iff (pos n) (pos m))
fresh_lookup (negsuc k) m c f e = cc

lookup_of_slot :
    (j m : ℕ) (x : Watch) (c : Cache)
    → get_elem? c j ≡ some x
    → eq_ℤ x.wd (pos m) ≡ true
    → lookup (pos m) c ≢ none
unfolding lookup
lookup_of_slot j m x [] g e = ground arith
lookup_of_slot zero m x (y ∷ c) g e = ground arith
lookup_of_slot (suc j) m x (y ∷ c) g e = ground (arith, lookup_of_slot j m x c g e)

-- Marking a slot as unused removes its descriptor from the map, and changes no other entry.
pub lookup-mark_cache_slot_empty :
    (j m : ℕ) (x : Watch) (c : Cache)
    → IsUnique c
    → get_elem? c j ≡ some x
    → lookup (pos m) (mark_cache_slot_empty j c)
      ≡ (if eq_ℤ x.wd (pos m) then none else lookup (pos m) c)
unfolding mark_cache_slot_empty lookup
lookup-mark_cache_slot_empty j m x [] u e = cc
lookup-mark_cache_slot_empty zero m x (y ∷ c) u e = ground (arith, fresh_lookup y.wd m c u.0)
lookup-mark_cache_slot_empty (suc j) m x (y ∷ c) u e = ground (
  arith,
  fresh_lookup y.wd m c u.0,
  lookup-mark_cache_slot_empty j m x c u.1 e,
  lookup-set-unused c j m,
  lookup_of_slot j m x c e,
)

abbrev pub map_option : (Bytes → Bytes) → Option Bytes → Option Bytes
map_option f none = none
map_option f (some p) = some (f p)

-- The loop of `rewriteCachedPaths` changes the pathname of every entry of the map by one function,
-- and no descriptor.
pub lookup-rewrite_from :
    (wd : ℤ) (full new : Bytes) (c : Cache)
    → lookup wd (rewrite_from full new c) ≡ map_option (rewrite_path full new) (lookup wd c)
unfolding lookup
lookup-rewrite_from wd full new [] = refl
lookup-rewrite_from wd full new (x ∷ c) = elim (Bool-cases (eq_ℤ x.wd wd)) [
  | inl e ↦ rw e
  | inr e ↦ rw e (lookup-rewrite_from wd full new c)
]

IsFresh-rewrite :
    (wd : ℤ) (full new : Bytes) (c : Cache) → IsFresh wd c → IsFresh wd (rewrite_from full new c)
IsFresh-rewrite (pos m) full new c f =
    lookup-rewrite_from (pos m) full new c ∙ ap (map_option (rewrite_path full new)) f
IsFresh-rewrite (negsuc k) full new c f = tt

pub rewrite_from-IsUnique :
    (full new : Bytes) (c : Cache) → IsUnique c → IsUnique (rewrite_from full new c)
rewrite_from-IsUnique full new [] u = tt
rewrite_from-IsUnique full new (x ∷ c) u =
    (IsFresh-rewrite x.wd full new c u.0, rewrite_from-IsUnique full new c u.1)

-- The rename of a directory keeps the descriptors unique.
pub rewrite_cached_paths-IsUnique :
    (old old_name new new_name : Bytes) (c : Cache)
    → IsUnique c
    → IsUnique (rewrite_cached_paths old old_name new new_name c)
unfolding rewrite_cached_paths
rewrite_cached_paths-IsUnique old old_name new new_name c u =
    rewrite_from-IsUnique (join_path old old_name) (join_path new new_name) c u

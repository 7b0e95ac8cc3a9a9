-- ===== src/Dtree/Cache/Map.antt =====
-- The cache with its operations as a map from watch descriptors to pathnames.
use bookcode_linux.Common.{
  ℕ, ◌-◌, ◌≡◌, ◌⊎◌, ◌↔◌, true, none, some, [], ◌∷◌, ◌++◌, Bytes, take, get_elem?, ◌==◌,
  if◌then◌else◌,
}
use bookcode_linux.Common.Int.{ℤ, pos, eq_ℤ}
use bookcode_linux.Dtree.Cache.{
  Watch, Cache, find_watch, add_watch_to_cache, mark_cache_slot_empty, rewrite_from, rewrite_path,
  path_max, in_subtree, slash,
}
use bookcode_linux.Dtree.Cache.Lookup.{lookup, Found, find_watch-Found, lookup-add_watch_to_cache}
use bookcode_linux.Dtree.Cache.Unique.{
  IsUnique, lookup-mark_cache_slot_empty, map_option, lookup-rewrite_from,
}
use bookcode_linux.Dtree.Cache.Subtree.{Below, in_subtree_iff, rewrite_path-Below}

-- Every operation of the cache does what its counterpart on maps does. With unique descriptors:
-- findWatch returns a slot that holds the descriptor with the pathname that the map has for it,
-- and -1 exactly if the map has none; adding a descriptor that the map does not have adds it,
-- with its pathname cut to PATH_MAX bytes, and changes no other entry; marking a slot as unused
-- removes its descriptor and changes no other entry; the loop of rewriteCachedPaths changes the
-- pathname of every entry by one function, and no descriptor.
pub lookup-operations :
    (c : Cache) (wd : ℤ) (n m j : ℕ) (x : Watch) (path full new : Bytes)
    → IsUnique c
    → lookup (pos n) c ≡ none
    → get_elem? c j ≡ some x
    → Found wd 0 c (find_watch wd c)
      × (lookup (pos m) (add_watch_to_cache (pos n) path c).1
          ≡ (if n == m then some (take path_max path) else lookup (pos m) c))
      × (lookup (pos m) (mark_cache_slot_empty j c)
          ≡ (if eq_ℤ x.wd (pos m) then none else lookup (pos m) c))
      × (lookup wd (rewrite_from full new c) ≡ map_option (rewrite_path full new) (lookup wd c))
lookup-operations c wd n m j x path full new unique fresh at = (
  find_watch-Found wd c,
  lookup-add_watch_to_cache n m path c fresh,
  lookup-mark_cache_slot_empty j m x c unique at,
  lookup-rewrite_from wd full new c,
)

-- The test of rewriteCachedPaths and zapSubtree holds of the directory itself and of the pathnames
-- below it, and of no other: not of a sibling whose name begins with the directory's; and a rename
-- moves those to the new name, cut to PATH_MAX - 1 bytes.
pub in_subtree-rewrite_path :
    (dir path rest new : Bytes)
    → (rest ≡ []) ⊎ ((tail : Bytes) × (rest ≡ slash ∷ tail))
    → ((in_subtree dir path ≡ true) ↔ Below dir path)
      × (rewrite_path dir new (dir ++ rest) ≡ take (path_max - 1) (new ++ rest))
in_subtree-rewrite_path dir path rest new b =
    (in_subtree_iff dir path, rewrite_path-Below dir rest new b)

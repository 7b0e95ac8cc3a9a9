-- ===== src/Dtree/Cache/Tests.antt =====
-- The cache of the directory-tree monitor on a few entries.
use bookcode_linux.Common.{
  ◌-◌, ◌≡◌, ◌↔◌, refl, true, false, none, some, [], ◌∷◌, ◌++◌, Bytes, if◌then◌else◌, ◌==◌, codes,
  take, inr,
}
use bookcode_linux.Common.Int.{pos, eq_ℤ}
use bookcode_linux.Dtree.Cache.{
  Cache, unused, path_max, find_watch, add_watch_to_cache, mark_cache_slot_empty, rewrite_from,
  in_subtree, rewrite_path,
}
use bookcode_linux.Dtree.Cache.Lookup.{lookup, Found}
use bookcode_linux.Dtree.Cache.Unique.{IsUnique, map_option}
use bookcode_linux.Dtree.Cache.Map.{lookup-operations, in_subtree-rewrite_path}
use bookcode_linux.Dtree.Cache.Subtree.{Below}

abbrev dir : Bytes
dir = codes "/a"

abbrev child : Bytes
child = codes "/a/b"

-- The descriptor 2 is in the second slot, and the third is unused.
abbrev three : Cache
three = record { wd = pos 1; path = dir } ∷ record { wd = pos 2; path = child } ∷ unused ∷ []

three-IsUnique : IsUnique three
unfolding lookup
three-IsUnique = (refl, (refl, (tt, tt)))

find_watch_two : find_watch (pos 2) three ≡ pos 1
unfolding find_watch
find_watch_two = refl

-- A sibling whose name begins with the directory's is not in its subtree.
sibling : in_subtree dir (codes "/ab") ≡ false
sibling = refl

lookup-operations_example :
    Found (pos 2) 0 three (find_watch (pos 2) three)
    × (lookup (pos 1) (add_watch_to_cache (pos 7) child three).1
        ≡ (if 7 == 1 then some (take path_max child) else lookup (pos 1) three))
    × (lookup (pos 1) (mark_cache_slot_empty 1 three)
        ≡ (if eq_ℤ (pos 2) (pos 1) then none else lookup (pos 1) three))
    × (lookup (pos 2) (rewrite_from dir (codes "/x") three)
        ≡ map_option (rewrite_path dir (codes "/x")) (lookup (pos 2) three))
unfolding lookup
lookup-operations_example =
    lookup-operations three (pos 2) 7 1 1 (record { wd = pos 2; path = child }) child dir
      (codes "/x") three-IsUnique refl refl

in_subtree-rewrite_path_example :
    ((in_subtree dir child ≡ true) ↔ Below dir child)
    × (rewrite_path dir (codes "/x") (dir ++ codes "/b")
        ≡ take (path_max - 1) (codes "/x" ++ codes "/b"))
in_subtree-rewrite_path_example =
    in_subtree-rewrite_path dir child (codes "/b") (codes "/x") (inr (codes "b", refl))

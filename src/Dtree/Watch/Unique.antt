-- ===== src/Dtree/Watch/Unique.antt =====
-- Whatever the kernel answers, watching, zapping and rebuilding keep the descriptors unique.
use bookcode_linux.Common.{Bool, true, false, none, some, List, [], ◌∷◌, Bytes, ◌==◌, if_rule}
use bookcode_linux.Common.Int.{ℤ, is_nonneg, minus_one, eq_ℤ}
use bookcode_linux.Dtree.Outcome.{running, Returns, Returns->>=}
use bookcode_linux.Dtree.Cache.{find_watch}
use bookcode_linux.Dtree.Cache.Lookup.{lookup_of_not_found}
use bookcode_linux.Dtree.Cache.Unique.{IsUnique, add_watch_to_cache-IsUnique}
use bookcode_linux.Dtree.Kernel.{Kernel, State, Added, added, refused}
use bookcode_linux.Dtree.Roots.{Roots, is_root_dir_path}
use bookcode_linux.Dtree.Watch.{
  watch_flags, enoent, watch_added, traverse_tree, traverse_all, watch_dir, watch_subtree,
  watch_roots, reset, reinitialize,
}

module _ (os : Kernel) where
  open os use {World, add_watch, rm_watch, walk, init, close}

  abbrev pub Unique : State World → Type 0
  Unique s = IsUnique s.cache

  watch_added-Unique :
      (p : Bytes) (r : Added) (s : State World) → Unique s → Returns Unique (watch_added os p r s)
  watch_added-Unique p (refused e) s u = if_rule (Returns Unique) (e == enoent) (λ t. u) (λ f. tt)
  watch_added-Unique p (added wd) s u =
      if_rule (Returns Unique) (is_nonneg (find_watch wd s.cache)) (λ t. u)
        (λ f. add_watch_to_cache-IsUnique wd p s.cache (lookup_of_not_found wd s.cache f) u)

  traverse_tree-Unique :
      (fd : ℤ) (p : Bytes) (d : Bool) (s : State World)
      → Unique s
      → Returns Unique (traverse_tree os fd p d s)
  unfolding traverse_tree
  traverse_tree-Unique fd p true s u =
      let r = add_watch s.world fd p (watch_flags (is_root_dir_path p s.roots)) in
      watch_added-Unique p r.0 (record s { world = r.1 }) u
  traverse_tree-Unique fd p false s u = u

  traverse_all-Unique :
      (fd : ℤ) (files : List (Bytes × Bool)) (s : State World)
      → Unique s
      → Returns Unique (traverse_all os fd files s)
  unfolding traverse_all
  traverse_all-Unique fd [] s u = u
  traverse_all-Unique fd ((p, d) ∷ files) s u =
      Returns->>= Unique Unique (traverse_tree os fd p d s) (traverse_all os fd files)
        (traverse_tree-Unique fd p d s u) (traverse_all-Unique fd files)

  pub watch_subtree-Unique :
      (fd : ℤ) (p : Bytes) (s : State World) → Unique s → Returns Unique (watch_subtree os fd p s)
  unfolding watch_subtree watch_dir
  watch_subtree-Unique fd p s u =
      traverse_all-Unique fd (walk s.world p).0 (record s { dir_cnt = 0 }) u

  watch_roots-Unique :
      (fd : ℤ) (rs : Roots) (s : State World) → Unique s → Returns Unique (watch_roots os fd rs s)
  unfolding watch_roots
  watch_roots-Unique fd [] s u = u
  watch_roots-Unique fd (none ∷ rs) s u = watch_roots-Unique fd rs s u
  watch_roots-Unique fd (some p ∷ rs) s u =
      Returns->>= Unique Unique (watch_subtree os fd p s) (watch_roots os fd rs)
        (watch_subtree-Unique fd p s u) (watch_roots-Unique fd rs)

  abbrev pub UniqueReply : ℤ × State World → Type 0
  UniqueReply (fd, s) = Unique s

  -- The rebuilt cache has unique descriptors, whatever was in the old one.
  pub reinitialize-Unique : (fd : ℤ) (s : State World) → Returns UniqueReply (reinitialize os fd s)
  unfolding reinitialize
  reinitialize-Unique fd s =
      let s1 = reset os fd s in
      let r = init s1.world in
      if_rule (Returns UniqueReply) (eq_ℤ r.0 minus_one) (λ t. tt)
        (λ f.
          Returns->>= Unique UniqueReply
            (watch_roots os r.0 s1.roots (record s1 { world = r.1; cache = [] }))
            (λ s'. running (r.0, s'))
            (watch_roots-Unique r.0 s1.roots (record s1 { world = r.1; cache = [] }) tt)
            (λ s' u. u))

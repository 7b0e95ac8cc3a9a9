-- ===== src/Dtree/Watch/Frame.antt =====
-- Watching, zapping and rebuilding leave the list of root directories alone.
use bookcode_linux.Common.{ℕ, Bool, true, false, none, some, List, [], ◌∷◌, Bytes, ◌==◌, if_rule}
use bookcode_linux.Common.Int.{ℤ, is_nonneg, minus_one, eq_ℤ}
use bookcode_linux.Dtree.Outcome.{running, Returns, Returns->>=}
use bookcode_linux.Dtree.Cache.{find_watch}
use bookcode_linux.Dtree.Kernel.{Kernel, State, Added, added, refused}
use bookcode_linux.Dtree.Roots.{Roots, is_root_dir_path}
use bookcode_linux.Dtree.Watch.{
  watch_flags, enoent, watch_added, traverse_tree, traverse_all, watch_dir, watch_subtree,
  watch_roots, reset, reinitialize, zap_subtree,
}

-- `P` is any predicate on `rootDirPaths` and `ignoredRootCnt`.
module _ (os : Kernel) (P : Roots → ℕ → Type 0) where
  open os use {World, add_watch, walk, init}

  abbrev pub Rooted : State World → Type 0
  Rooted s = P s.roots s.ignored_roots

  watch_added-Rooted :
      (p : Bytes) (r : Added) (s : State World) → Rooted s → Returns Rooted (watch_added os p r s)
  watch_added-Rooted p (refused e) s u = if_rule (Returns Rooted) (e == enoent) (λ t. u) (λ f. tt)
  watch_added-Rooted p (added wd) s u =
      if_rule (Returns Rooted) (is_nonneg (find_watch wd s.cache)) (λ t. u) (λ f. u)

  traverse_tree-Rooted :
      (fd : ℤ) (p : Bytes) (d : Bool) (s : State World)
      → Rooted s
      → Returns Rooted (traverse_tree os fd p d s)
  unfolding traverse_tree
  traverse_tree-Rooted fd p true s u =
      let r = add_watch s.world fd p (watch_flags (is_root_dir_path p s.roots)) in
      watch_added-Rooted p r.0 (record s { world = r.1 }) u
  traverse_tree-Rooted fd p false s u = u

  traverse_all-Rooted :
      (fd : ℤ) (files : List (Bytes × Bool)) (s : State World)
      → Rooted s
      → Returns Rooted (traverse_all os fd files s)
  unfolding traverse_all
  traverse_all-Rooted fd [] s u = u
  traverse_all-Rooted fd ((p, d) ∷ files) s u =
      Returns->>= Rooted Rooted (traverse_tree os fd p d s) (traverse_all os fd files)
        (traverse_tree-Rooted fd p d s u) (traverse_all-Rooted fd files)

  pub watch_subtree-Rooted :
      (fd : ℤ) (p : Bytes) (s : State World) → Rooted s → Returns Rooted (watch_subtree os fd p s)
  unfolding watch_subtree watch_dir
  watch_subtree-Rooted fd p s u =
      traverse_all-Rooted fd (walk s.world p).0 (record s { dir_cnt = 0 }) u

  watch_roots-Rooted :
      (fd : ℤ) (rs : Roots) (s : State World) → Rooted s → Returns Rooted (watch_roots os fd rs s)
  unfolding watch_roots
  watch_roots-Rooted fd [] s u = u
  watch_roots-Rooted fd (none ∷ rs) s u = watch_roots-Rooted fd rs s u
  watch_roots-Rooted fd (some p ∷ rs) s u =
      Returns->>= Rooted Rooted (watch_subtree os fd p s) (watch_roots os fd rs)
        (watch_subtree-Rooted fd p s u) (watch_roots-Rooted fd rs)

  reset-Rooted : (fd : ℤ) (s : State World) → Rooted s → Rooted (reset os fd s)
  reset-Rooted fd s u = if_rule Rooted (is_nonneg fd) (λ t. u) (λ f. u)

  pub reinitialize-Rooted :
      (fd : ℤ) (s : State World) → Rooted s → Returns (λ r. Rooted r.1) (reinitialize os fd s)
  unfolding reinitialize
  reinitialize-Rooted fd s u =
      let s1 = reset os fd s in
      let r = init s1.world in
      if_rule (Returns (λ (q : ℤ × State World). Rooted q.1)) (eq_ℤ r.0 minus_one) (λ t. tt)
        (λ f.
          Returns->>= Rooted (λ (q : ℤ × State World). Rooted q.1)
            (watch_roots os r.0 s1.roots (record s1 { world = r.1; cache = [] }))
            (λ s'. running (r.0, s'))
            (watch_roots-Rooted r.0 s1.roots (record s1 { world = r.1; cache = [] })
              (reset-Rooted fd s u))
            (λ s' u'. u'))

  pub zap_subtree-Rooted :
      (fd : ℤ) (p : Bytes) (s : State World) → Rooted s → Rooted (zap_subtree os fd p s).1
  unfolding zap_subtree
  zap_subtree-Rooted fd p s u = u

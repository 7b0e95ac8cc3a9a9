-- ===== src/Dtree/Roots/Laws.antt =====
-- The list of root directories: which pathname is a root, and when the program ends.
use bookcode_linux.Common.{
  length-set, ℕ, zero, suc, ◌+◌, ◌≤◌, ◌≡◌, refl, sym, ap, inl, inr, true, false, Option, none, some,
  List, [], ◌∷◌, ◌++◌, append-nil, append_assoc, Bytes, length, set, ◌==◌, arith, if_rule,
  Bool-cases, Option-cases, subst,
}
use bookcode_linux.Dtree.Outcome.{
  Outcome, running, exited, aborted, undefined, Returns, Returns->>=,
}
use bookcode_linux.Dtree.Cache.Unique.{IsUnique}
use bookcode_linux.Dtree.Kernel.{Kernel, State, Stat}
use bookcode_linux.Dtree.Roots.{
  Roots, find_root_dir_path, is_some, is_root_dir_path, zap_root_at, zap_root_dir_path,
  all_directories, any_same, copy_roots, copy_root_dir_paths,
}

-- The roots that are still monitored.
abbrev pub live : Roots → ℕ
live [] = 0
live (none ∷ rs) = live rs
live (some p ∷ rs) = suc (live rs)

-- Every zapped root has been counted.
abbrev pub IsCounted : {W : Type 0} → State W → Type 0
IsCounted s = live s.roots + s.ignored_roots ≡ length s.roots

-- The root that is found is one that is still monitored.
live-set :
    (path : Bytes) (rs : Roots) (j : ℕ)
    → find_root_dir_path path rs ≡ some j
    → suc (live (set rs j none)) ≡ live rs
unfolding find_root_dir_path
live-set path [] j e = cc
live-set path (none ∷ rs) zero e = ground (arith, live-set path rs)
live-set path (none ∷ rs) (suc j) e = ground (arith, live-set path rs j)
live-set path (some p ∷ rs) zero e = refl
live-set path (some p ∷ rs) (suc j) e = ground (arith, live-set path rs j)

module _ (os : Kernel) where
  open os use {World, lstat}

  -- What `zapRootDirPath` does to a root, and that it ends the program with the last one.
  abbrev pub Zapped : Bytes → State World → Outcome (State World) → Type 0
  Zapped path s (running s') =
      (is_root_dir_path path s.roots ≡ true)
      × (suc (live s'.roots) ≡ live s.roots)
      × (1 ≤ live s'.roots)
      × IsCounted s'
      × (s'.cache ≡ s.cache)
  Zapped path s (exited zero) = (is_root_dir_path path s.roots ≡ true) × (live s.roots ≡ 1)
  Zapped path s (exited (suc n)) = is_root_dir_path path s.roots ≡ false
  Zapped path s aborted = ⊥
  Zapped path s undefined = ⊥

  zap_root_at-Zapped :
      (path : Bytes) (s : State World) (j : Option ℕ)
      → find_root_dir_path path s.roots ≡ j
      → IsCounted s
      → Zapped path s (zap_root_at os j s)
  unfolding is_root_dir_path
  zap_root_at-Zapped path s none e h = ap is_some e
  zap_root_at-Zapped path s (some j) e h =
      if_rule (Zapped path s) (s.ignored_roots + 1 == length s.roots)
        (λ t. (ap is_some e, ground arith))
        (λ f. (
          ap is_some e,
          live-set path s.roots j e,
          ground (arith, live-set path s.roots j e),
          ground (arith, length-set s.roots j none, live-set path s.roots j e),
          refl,
        ))

  -- `zapRootDirPath`, when every zapped root has been counted: a path that is no root ends the
  -- program with a failure; the last live root ends it with success; and otherwise one live root
  -- less is left, at least one, the count is still right and the cache is as before.
  pub zap_root_dir_path-Zapped :
      (path : Bytes) (s : State World) → IsCounted s → Zapped path s (zap_root_dir_path os path s)
  unfolding zap_root_dir_path
  zap_root_dir_path-Zapped path s h =
      zap_root_at-Zapped path s (find_root_dir_path path s.roots) refl h

  zap_root_at-Unique :
      (j : Option ℕ) (s : State World)
      → IsUnique s.cache
      → Returns (λ s'. IsUnique s'.cache) (zap_root_at os j s)
  zap_root_at-Unique none s u = tt
  zap_root_at-Unique (some j) s u =
      if_rule (Returns (λ (s' : State World). IsUnique s'.cache))
        (s.ignored_roots + 1 == length s.roots) (λ t. tt) (λ f. u)

  pub zap_root_dir_path-Unique :
      (path : Bytes) (s : State World)
      → IsUnique s.cache
      → Returns (λ s'. IsUnique s'.cache) (zap_root_dir_path os path s)
  unfolding zap_root_dir_path
  zap_root_dir_path-Unique path s u = zap_root_at-Unique (find_root_dir_path path s.roots) s u

  abbrev pub all_live : List Bytes → Roots
  all_live [] = []
  all_live (p ∷ ps) = some p ∷ all_live ps

  copy_roots_lem :
      (w : World) (seen : List Stat) (done : Roots) (ps : List Bytes)
      → Returns (λ rs. rs ≡ done ++ all_live ps) (copy_roots os w seen done ps)
  copy_roots_lem w seen done [] = sym (append-nil done)
  copy_roots_lem w seen done (p ∷ ps) = elim (Option-cases (lstat w p)) [
    | inl e ↦ rw (e, copy_roots) tt
    | inr (st, e) ↦ elim (Bool-cases (any_same os st seen)) [
      | inl t ↦ rw (e, t, copy_roots) tt
      | inr f ↦
          rw (e, f, copy_roots)
            (subst
              (λ l.
                Returns (λ rs. rs ≡ l)
                  (copy_roots os w (seen ++ (st ∷ [])) (done ++ (some p ∷ [])) ps))
              (append_assoc done (some p ∷ []) (all_live ps))
              (copy_roots_lem w (seen ++ (st ∷ [])) (done ++ (some p ∷ [])) ps))
    ]
  ]

  live-all_live : (ps : List Bytes) → live (all_live ps) ≡ length (all_live ps)
  live-all_live [] = refl
  live-all_live (p ∷ ps) = ap suc (live-all_live ps)

  -- `copyRootDirPaths` returns only with every argument as a live root, in order, and none zapped.
  pub copy_root_dir_paths_lem :
      (argv : List Bytes) (s : State World)
      → Returns (λ s'. (s'.roots ≡ all_live argv) × IsCounted s') (copy_root_dir_paths os argv s)
  unfolding copy_root_dir_paths
  copy_root_dir_paths_lem argv s =
      if_rule (Returns (λ (s' : State World). (s'.roots ≡ all_live argv) × IsCounted s'))
        (all_directories os s.world argv)
        (λ t.
          Returns->>= (λ rs. rs ≡ all_live argv) _ (copy_roots os s.world [] [] argv) _
            (copy_roots_lem s.world [] [] argv)
            (λ rs e. (e, rw e (omega (arith, live-all_live argv)))))
        (λ f. tt)

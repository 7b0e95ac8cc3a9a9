-- ===== src/Dtree/Watch/Zap.antt =====
-- What zapSubtree() removes from the cache.
use bookcode_linux.Common.{
  ℕ, suc, ◌+◌, ◌≡◌, refl, true, false, ◌&&◌, Option, none, some, [], ◌∷◌, Bytes, if◌then◌else◌,
  arith, Bool-cases, inl, inr, ◌⊎◌, ap, ◌∙◌,
}
use bookcode_linux.Common.Int.{ℤ, pos, negsuc}
use bookcode_linux.Dtree.Cache.{Watch, Cache, unused, is_used, in_subtree}
use bookcode_linux.Dtree.Cache.Lookup.{lookup}
use bookcode_linux.Dtree.Cache.Unique.{IsFresh, IsUnique, fresh_lookup}
use bookcode_linux.Dtree.Kernel.{Kernel, State}
use bookcode_linux.Dtree.Watch.{zap_from, zap_subtree}

-- A pathname, unless it lies in the subtree.
abbrev pub keep_outside : Bytes → Option Bytes → Option Bytes
keep_outside dir none = none
keep_outside dir (some p) = if in_subtree dir p then none else some p

abbrev pub used_count : Cache → ℕ
used_count [] = 0
used_count (x ∷ c) = if is_used x then suc (used_count c) else used_count c

module _ (os : Kernel) where
  open os use {World, rm_watch}

  -- What one descriptor `m` maps to in the new cache, and how many entries are gone.
  abbrev pub Zapped : Bytes → ℕ → ℕ → Cache → ℤ × Cache × World → Type 0
  Zapped dir m cnt c (pos k, c', w) =
      (lookup (pos m) c' ≡ keep_outside dir (lookup (pos m) c))
      × (k + used_count c' ≡ cnt + used_count c)
  Zapped dir m cnt c (negsuc k, c', w) =
      (k ≡ 0)
      × ((lookup (pos m) c' ≡ lookup (pos m) c)
          ⊎ (lookup (pos m) c' ≡ keep_outside dir (lookup (pos m) c)))

  kept-Zapped :
      (dir : Bytes) (m cnt : ℕ) (x : Watch) (c : Cache) (r : ℤ × Cache × World)
      → (is_used x && in_subtree dir x.path) ≡ false
      → Zapped dir m cnt c r
      → Zapped dir m cnt (x ∷ c) (r.0, x ∷ r.1, r.2)
  unfolding lookup
  kept-Zapped dir m cnt x c (pos k, c', w) out z = ground arith
  kept-Zapped dir m cnt x c (negsuc k, c', w) out z = ground arith

  removed-Zapped :
      (dir : Bytes) (m cnt : ℕ) (x : Watch) (c : Cache) (r : ℤ × Cache × World)
      → (is_used x && in_subtree dir x.path) ≡ true
      → IsFresh x.wd c
      → Zapped dir m (cnt + 1) c r
      → Zapped dir m cnt (x ∷ c) (r.0, unused ∷ r.1, r.2)
  unfolding lookup
  removed-Zapped dir m cnt x c (pos k, c', w) out f z = ground (arith, fresh_lookup x.wd m c f)
  removed-Zapped dir m cnt x c (negsuc k, c', w) out f z = ground (arith, fresh_lookup x.wd m c f)

  zap_from-Zapped :
      (fd : ℤ) (dir : Bytes) (m cnt : ℕ) (c : Cache) (w : World)
      → IsUnique c
      → Zapped dir m cnt c (zap_from os fd dir cnt c w)
  unfolding zap_from lookup
  zap_from-Zapped fd dir m cnt [] w u = (refl, refl)
  zap_from-Zapped fd dir m cnt (x ∷ c) w u =
      elim (Bool-cases (is_used x && in_subtree dir x.path)) [
        | inr out ↦
            rw (out, zap_from)
              (kept-Zapped dir m cnt x c (zap_from os fd dir cnt c w) out
                (zap_from-Zapped fd dir m cnt c w u.1))
        | inl below ↦ elim (Bool-cases (rm_watch w fd x.wd).0) [
          | inl done ↦
              rw (below, done, zap_from)
                (removed-Zapped dir m cnt x c
                  (zap_from os fd dir (cnt + 1) c (rm_watch w fd x.wd).1) below u.0
                  (zap_from-Zapped fd dir m (cnt + 1) c (rm_watch w fd x.wd).1 u.1))
          | inr failed ↦ rw (below, failed, zap_from) (refl, inl refl)
        ]
      ]

  -- If `zapSubtree` succeeds, it removes the directory and all that lies below it from the cache,
  -- changes no other entry, and returns the number of entries removed. If it returns -1, each entry
  -- is as before, or was in the subtree and is gone.
  pub zap_subtree-Zapped :
      (fd : ℤ) (dir : Bytes) (m : ℕ) (s : State World)
      → IsUnique s.cache
      → let (r, s') = zap_subtree os fd dir s in Zapped dir m 0 s.cache (r, s'.cache, s'.world)
  unfolding zap_subtree
  zap_subtree-Zapped fd dir m s u = zap_from-Zapped fd dir m 0 s.cache s.world u

  IsFresh-zap :
      (fd wd : ℤ) (dir : Bytes) (cnt : ℕ) (c : Cache) (w : World)
      → IsUnique c
      → IsFresh wd c
      → IsFresh wd (zap_from os fd dir cnt c w).1
  IsFresh-zap fd (pos m) dir cnt c w u f =
      go (zap_from os fd dir cnt c w) (zap_from-Zapped fd dir m cnt c w u)
    where
      go : (r : ℤ × Cache × World) → Zapped dir m cnt c r → lookup (pos m) r.1 ≡ none
      go (pos k, c', w') z = z.0 ∙ ap (keep_outside dir) f
      go (negsuc k, c', w') (e, inl z) = z ∙ f
      go (negsuc k, c', w') (e, inr z) = z ∙ ap (keep_outside dir) f
  IsFresh-zap fd (negsuc k) dir cnt c w u f = tt

  zap_from-IsUnique :
      (fd : ℤ) (dir : Bytes) (cnt : ℕ) (c : Cache) (w : World)
      → IsUnique c
      → IsUnique (zap_from os fd dir cnt c w).1
  unfolding zap_from
  zap_from-IsUnique fd dir cnt [] w u = tt
  zap_from-IsUnique fd dir cnt (x ∷ c) w u =
      elim (Bool-cases (is_used x && in_subtree dir x.path)) [
        | inr out ↦
            rw (out, zap_from)
              (IsFresh-zap fd x.wd dir cnt c w u.1 u.0, zap_from-IsUnique fd dir cnt c w u.1)
        | inl below ↦ elim (Bool-cases (rm_watch w fd x.wd).0) [
          | inl done ↦
              rw (below, done, zap_from)
                (tt, zap_from-IsUnique fd dir (cnt + 1) c (rm_watch w fd x.wd).1 u.1)
          | inr failed ↦ rw (below, failed, zap_from) u
        ]
      ]

  pub zap_subtree-IsUnique :
      (fd : ℤ) (dir : Bytes) (s : State World)
      → IsUnique s.cache
      → IsUnique (zap_subtree os fd dir s).1.cache
  unfolding zap_subtree
  zap_subtree-IsUnique fd dir s u = zap_from-IsUnique fd dir 0 s.cache s.world u

  -- inotify_rm_watch(2) does not fail on this descriptor.
  abbrev pub Removes : ℤ → Type 0
  Removes fd = (w : World) (wd : ℤ) → (rm_watch w fd wd).0 ≡ true

  zap_from-pos :
      (fd : ℤ) (dir : Bytes) (cnt : ℕ) (c : Cache) (w : World)
      → Removes fd
      → (k : ℕ) × ((zap_from os fd dir cnt c w).0 ≡ pos k)
  unfolding zap_from
  zap_from-pos fd dir cnt [] w h = (cnt, refl)
  zap_from-pos fd dir cnt (x ∷ c) w h = elim (Bool-cases (is_used x && in_subtree dir x.path)) [
    | inr out ↦ rw (out, zap_from) (zap_from-pos fd dir cnt c w h)
    | inl below ↦
        rw (below, h w x.wd, zap_from) (zap_from-pos fd dir (cnt + 1) c (rm_watch w fd x.wd).1 h)
  ]

  -- A removal of a subtree that goes through, as far as the descriptor `m` is concerned.
  abbrev pub Gone : Bytes → ℕ → State World → ℤ × State World → Type 0
  Gone dir m s (r, s') =
      (k : ℕ) × (r ≡ pos k)
      × (s'.check_cache ≡ s.check_cache)
      × (lookup (pos m) s'.cache ≡ keep_outside dir (lookup (pos m) s.cache))

  pub zap_subtree-Gone :
      (fd : ℤ) (dir : Bytes) (m : ℕ) (s : State World)
      → IsUnique s.cache
      → Removes fd
      → Gone dir m s (zap_subtree os fd dir s)
  unfolding zap_subtree
  zap_subtree-Gone fd dir m s u h =
      let (k, e) = zap_from-pos fd dir 0 s.cache s.world h in
      go (zap_from os fd dir 0 s.cache s.world) k e (zap_from-Zapped fd dir m 0 s.cache s.world u)
    where
      go :
          (r : ℤ × Cache × World) (k : ℕ)
          → r.0 ≡ pos k
          → Zapped dir m 0 s.cache r
          → Gone dir m s (r.0, record s { cache = r.1; world = r.2 })
      go (pos n, c, w) k e z = (k, e, refl, z.0)
      go (negsuc n, c, w) k e z = absurd (ground arith)

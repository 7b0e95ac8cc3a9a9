-- ===== src/Dtree/Cache/Subtree.antt =====
-- Which pathnames a rename or a removal concerns, and what becomes of them.
use bookcode_linux.Common.{
  ◌-◌, ◌≡◌, refl, ap₂, ◌⊎◌, ◌↔◌, inl, inr, true, [], ◌∷◌, ◌++◌, Bytes, length, take, drop,
  get_elem?, arith,
}
use bookcode_linux.Dtree.Cache.{in_subtree, is_boundary, slash, rewrite_path, path_max}

-- The directory itself, or a pathname that goes on with a slash.
abbrev pub Below : Bytes → Bytes → Type 0
Below dir path =
    (rest : Bytes) × (path ≡ dir ++ rest) × ((rest ≡ []) ⊎ ((tail : Bytes) × (rest ≡ slash ∷ tail)))

boundary-Below : (path : Bytes) → is_boundary (get_elem? path 0) ≡ true → Below [] path
boundary-Below [] h = ([], refl, inl refl)
boundary-Below (c ∷ path) h = (c ∷ path, refl, inr (path, ground arith))

in_subtree-Below : (dir path : Bytes) → in_subtree dir path ≡ true → Below dir path
in_subtree-Below [] path h = boundary-Below path h
in_subtree-Below (x ∷ dir) [] h = cc
in_subtree-Below (x ∷ dir) (y ∷ path) h =
    let same : y ≡ x = ground arith in extend (in_subtree-Below dir path (ground arith)) same
  where
    extend : Below dir path → y ≡ x → Below (x ∷ dir) (y ∷ path)
    extend (rest, e, b) same = (rest, ap₂ ◌∷◌ same e, b)

Below-in_subtree :
    (dir rest : Bytes)
    → (rest ≡ []) ⊎ ((tail : Bytes) × (rest ≡ slash ∷ tail))
    → in_subtree dir (dir ++ rest) ≡ true
Below-in_subtree [] rest (inl e) = rw e
Below-in_subtree [] rest (inr (tail, e)) = rw e
Below-in_subtree (x ∷ dir) rest b = ground (arith, Below-in_subtree dir rest b)

-- The test of `rewriteCachedPaths` and `zapSubtree` holds of the directory itself and of the
-- pathnames below it, and of no other: not of a sibling whose name begins with the directory's.
pub in_subtree_iff : (dir path : Bytes) → (in_subtree dir path ≡ true) ↔ Below dir path
in_subtree_iff dir path = (in_subtree-Below dir path, λ b. rw (b.1) (Below-in_subtree dir b.0 b.2))

drop-append : (dir rest : Bytes) → drop (length dir) (dir ++ rest) ≡ rest
drop-append [] rest = refl
drop-append (x ∷ dir) rest = drop-append dir rest

-- A rename moves the directory and all below it to the new name, cut to PATH_MAX - 1 bytes.
pub rewrite_path-Below :
    (dir rest new : Bytes)
    → (rest ≡ []) ⊎ ((tail : Bytes) × (rest ≡ slash ∷ tail))
    → rewrite_path dir new (dir ++ rest) ≡ take (path_max - 1) (new ++ rest)
rewrite_path-Below dir rest new b = rw (Below-in_subtree dir rest b, drop-append dir rest)

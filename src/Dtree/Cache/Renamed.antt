-- ===== src/Dtree/Cache/Renamed.antt =====
-- rewriteCachedPaths() of inotify_dtree.c, as a change of the map from watch descriptors to
-- pathnames.
use bookcode_linux.Common.{
  ◌-◌, ◌<◌, ◌≡◌, ◌⊎◌, refl, sym, ap, ◌∙◌, subst, if_rule, none, some, [], ◌∷◌, ◌++◌, Bytes, length,
  take, take_all, arith,
}
use bookcode_linux.Common.Int.{ℤ}
use bookcode_linux.Dtree.Cache.{
  Cache, slash, path_max, join_path, in_subtree, rewrite_path, rewrite_from, rewrite_cached_paths,
}
use bookcode_linux.Dtree.Cache.Lookup.{lookup}
use bookcode_linux.Dtree.Cache.Subtree.{Below, in_subtree_iff, rewrite_path-Below}
use bookcode_linux.Dtree.Cache.Unique.{map_option, lookup-rewrite_from}

-- What the renaming of a directory to a new pathname does to the cache: the descriptors of the
-- directory and of all below it get their pathname with the new beginning, cut to PATH_MAX - 1
-- bytes, and no other entry changes.
abbrev pub Renamed : Bytes → Bytes → Cache → Cache → Type 0
Renamed from to c c' =
    ((wd : ℤ) (rest : Bytes)
      → (rest ≡ []) ⊎ ((tail : Bytes) × (rest ≡ slash ∷ tail))
      → lookup wd c ≡ some (from ++ rest)
      → lookup wd c' ≡ some (take 4095 (to ++ rest)))
    × ((wd : ℤ) (path : Bytes)
        → (Below from path → ⊥)
        → lookup wd c ≡ some path
        → lookup wd c' ≡ some path)
    × ((wd : ℤ) → lookup wd c ≡ none → lookup wd c' ≡ none)

rewrite_path-beside :
    (from to path : Bytes) → (Below from path → ⊥) → rewrite_path from to path ≡ path
rewrite_path-beside from to path out =
    if_rule (λ p. p ≡ path) (in_subtree from path)
      (λ t. absurd (out ((in_subtree_iff from path).0 t))) (λ f. refl)

rewrite_from-Renamed : (from to : Bytes) (c : Cache) → Renamed from to c (rewrite_from from to c)
rewrite_from-Renamed from to c = (
  λ wd rest b h.
      lookup-rewrite_from wd from to c
      ∙ ap (map_option (rewrite_path from to)) h
      ∙ ap some (rewrite_path-Below from rest to b),
  λ wd path out h.
      lookup-rewrite_from wd from to c
      ∙ ap (map_option (rewrite_path from to)) h
      ∙ ap some (rewrite_path-beside from to path out),
  λ wd h. lookup-rewrite_from wd from to c ∙ ap (map_option (rewrite_path from to)) h,
)

-- Pathnames that fit are not cut.
pub rewrite_cached_paths-Renamed :
    (old from new to : Bytes) (c : Cache)
    → length (old ++ slash ∷ from) < path_max
    → length (new ++ slash ∷ to) < path_max
    → Renamed (old ++ slash ∷ from) (new ++ slash ∷ to) c (rewrite_cached_paths old from new to c)
unfolding rewrite_cached_paths
rewrite_cached_paths-Renamed old from new to c h k =
    let f = old ++ slash ∷ from in
    let t = new ++ slash ∷ to in
    subst (λ g. Renamed f t c (rewrite_from g (join_path new to) c))
      (sym (take_all (path_max - 1) f (omega (arith, h))))
      (subst (λ g. Renamed f t c (rewrite_from f g c))
        (sym (take_all (path_max - 1) t (omega (arith, k)))) (rewrite_from-Renamed f t c))

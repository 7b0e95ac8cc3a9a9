-- ===== src/Dtree/Roots.antt =====
-- The directories named on the command line.
pub mod Laws
use bookcode_linux.Common.{
  ℕ, suc, ◌+◌, Bool, true, false, ◌&&◌, Option, none, some, List, [], ◌∷◌, ◌++◌, Bytes, length, set,
  bytes_eq, ◌==◌, if◌then◌else◌,
}
use bookcode_linux.Dtree.Outcome.{Outcome, running, exited, exit_success, exit_failure, ◌>>=◌}
use bookcode_linux.Dtree.Kernel.{Kernel, State, Stat}

abbrev pub Roots : Type 0
Roots = List (Option Bytes)

abbrev pub is_root : Bytes → Option Bytes → Bool
is_root path none = false
is_root path (some p) = bytes_eq path p

-- The index of the first element that is `path`.
unfoldable pub find_root_dir_path : Bytes → Roots → Option ℕ
find_root_dir_path path [] = none
find_root_dir_path path (r ∷ rs) =
    let rest = find_root_dir_path path rs in
    if is_root path r then some 0 else (elim rest [ none ↦ none | some j ↦ some (j + 1) ])

abbrev pub is_some {ℓ} : {A : Type ℓ} → Option A → Bool
is_some none = false
is_some (some a) = true

unfoldable pub is_root_dir_path : Bytes → Roots → Bool
is_root_dir_path path rs = is_some (find_root_dir_path path rs)

module _ (os : Kernel) where
  open os use {World, lstat}

  abbrev pub zap_root_at : Option ℕ → State World → Outcome (State World)
  zap_root_at none s = exited exit_failure
  zap_root_at (some j) s =
      if s.ignored_roots + 1 == length s.roots
      then exited exit_success
      else running (record s { roots = set s.roots j none; ignored_roots = s.ignored_roots + 1 })

  pub zap_root_dir_path : Bytes → State World → Outcome (State World)
  zap_root_dir_path path s = zap_root_at (find_root_dir_path path s.roots) s

  -- The first loop of `copyRootDirPaths`: every argument is a directory.
  abbrev pub all_directories : World → List Bytes → Bool
  all_directories w [] = true
  all_directories w (p ∷ ps) =
      (elim (lstat w p) [ none ↦ false | some st ↦ st.is_dir ]) && all_directories w ps

  abbrev pub same_object : Stat → Stat → Bool
  same_object a b = a.ino == b.ino && a.dev == b.dev

  abbrev pub any_same : Stat → List Stat → Bool
  any_same a [] = false
  any_same a (b ∷ bs) = if same_object a b then true else any_same a bs

  -- The second loop: the path is copied, and refused if an earlier one is the same object.
  abbrev pub copy_roots : World → List Stat → Roots → List Bytes → Outcome Roots
  copy_roots w seen done [] = running done
  copy_roots w seen done (p ∷ ps) = elim (lstat w p) [
    | none ↦ exited exit_failure
    | some st ↦ elim (any_same st seen) [
      | true ↦ exited exit_failure
      | false ↦ copy_roots w (seen ++ (st ∷ [])) (done ++ (some p ∷ [])) ps
    ]
  ]

  unfoldable pub copy_root_dir_paths : List Bytes → State World → Outcome (State World)
  copy_root_dir_paths argv s =
      if all_directories s.world argv
      then (copy_roots s.world [] [] argv >>= λ rs.
          running (record s { roots = rs; ignored_roots = 0 }))
      else exited exit_failure

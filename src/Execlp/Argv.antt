-- ===== src/Execlp/Argv.antt =====
-- The arrays of execlp.c: which argument vectors are built, and what execShScript does with them.
use bookcode_linux.Common.{
  ℕ, zero, suc, ◌+◌, ◌-◌, ◌≤◌, ◌<◌, ◌≡◌, refl, Option, none, some, List, [], ◌∷◌, ◌++◌, Bytes, Bool,
  length, replicate, get_elem?, set, arith, ap, ap₂, sym, ◌∙◌, ltb, append_assoc, leb, length-set,
  length-append, if_rule,
}
use bookcode_linux.Execlp.{
  Argv, until_null, write_at, copied, stored, copy_args, exec_sh_script, exec_shell, shell_path,
  fill_argv, built, va_list, argv_of, Built, add_arg, unless_null, outside, overrun, Execve, resize,
}

-- `execShScript` stores `argc + 2` pointers into an array of `argc + 1`.
copied-outside :
    (next : Argv → Option Argv) (i : ℕ) (sh_argv : Argv) (arg : Option (Option Bytes))
    → ((cells : Argv) → length cells ≡ length sh_argv → next cells ≡ none)
    → copied next i sh_argv arg ≡ none
copied-outside next i sh_argv none rest = refl
copied-outside next i sh_argv (some arg) rest =
    if_rule (λ o. stored next none o ≡ none) (ltb i (length sh_argv))
      (λ t. rest (set sh_argv i arg) (length-set sh_argv i arg)) (λ f. refl)

copied-full :
    (next : Argv → Option Argv) (i : ℕ) (sh_argv : Argv) (arg : Option (Option Bytes))
    → length sh_argv ≤ i
    → copied next i sh_argv arg ≡ none
copied-full next i sh_argv none full = refl
copied-full next i sh_argv (some arg) full =
    if_rule (λ o. stored next none o ≡ none) (ltb i (length sh_argv)) (λ t. absurd (ground arith))
      (λ f. refl)

copy_args-outside :
    (k j : ℕ) (argv sh_argv : Argv)
    → 0 < k
    → length sh_argv ≤ j + k
    → copy_args k j argv sh_argv ≡ none
unfolding copy_args
copy_args-outside zero j argv sh_argv more le = absurd (omega arith)
copy_args-outside (suc zero) j argv sh_argv more le =
    copied-full (copy_args 0 (j + 1) argv) (j + 1) sh_argv (get_elem? argv j) (omega arith)
copy_args-outside (suc (suc k)) j argv sh_argv more le =
    copied-outside (copy_args (suc k) (j + 1) argv) (j + 1) sh_argv (get_elem? argv j)
      (λ cells e. copy_args-outside (suc k) (j + 1) argv cells (omega arith) (omega arith))

length-replicate : (n : ℕ) (x : Option Bytes) → length (replicate n x) ≡ n
length-replicate zero x = refl
length-replicate (suc n) x = omega (arith, length-replicate n x)

pub exec_sh_script-overrun :
    (execve : Execve) (envp : List Bytes) (argc : ℕ) (argv : Argv)
    → exec_sh_script execve envp argc argv ≡ some overrun
unfolding exec_sh_script
exec_sh_script-overrun execve envp argc argv = ap (exec_shell execve envp) (
    copy_args-outside (argc + 1) 0 argv (some shell_path ∷ replicate argc none) (omega arith)
      (omega (arith, length-replicate argc none)))

abbrev pub somes : List Bytes → Argv
somes [] = []
somes (arg ∷ args) = some arg ∷ somes args

pub until_null-somes :
    (args : List Bytes) (rest : Argv) → until_null (somes args ++ none ∷ rest) ≡ args
until_null-somes [] rest = refl
until_null-somes (arg ∷ args) rest = ap (◌∷◌ arg) (until_null-somes args rest)

length-somes : (args : List Bytes) → length (somes args) ≡ length args
length-somes [] = refl
length-somes (arg ∷ args) = omega (arith, length-somes args)

get_elem?-middle :
    (xs : Argv) (y : Option Bytes) (rest : Argv) → get_elem? (xs ++ y ∷ rest) (length xs) ≡ some y
get_elem?-middle [] y rest = refl
get_elem?-middle (x ∷ xs) y rest = get_elem?-middle xs y rest

set-middle :
    (xs : Argv) (y z : Option Bytes) (rest : Argv)
    → set (xs ++ y ∷ rest) (length xs) z ≡ xs ++ z ∷ rest
set-middle [] y z rest = refl
set-middle (x ∷ xs) y z rest = ap (◌∷◌ x) (set-middle xs y z rest)

write_at-middle :
    (xs : Argv) (y z : Option Bytes) (rest : Argv)
    → write_at (length xs) z (xs ++ y ∷ rest) ≡ some (xs ++ z ∷ rest)
write_at-middle xs y z rest =
    if_rule (λ o. o ≡ some (xs ++ z ∷ rest)) (ltb (length xs) (length (xs ++ y ∷ rest)))
      (λ t. ap some (set-middle xs y z rest))
      (λ f. absurd (let e = length-append xs (y ∷ rest) in ground arith))

one_back : (xs : Argv) → length xs + 1 - 1 ≡ length xs
one_back xs = omega arith

-- The cell behind the last argument is filled.
fill_argv-step :
    (fits : Bool) (next : Option Bytes) (va xs : Argv) (arg : Bytes) (rest : Argv)
    → length xs < 98
    → fill_argv fits (next ∷ va) (length xs + 1) 100 (xs ++ some arg ∷ none ∷ rest)
      ≡ fill_argv fits va (length xs + 1 + 1) 100 (xs ++ some arg ∷ next ∷ rest)
unfolding fill_argv
fill_argv-step fits next va xs arg rest small =
    ap (unless_null (length xs + 1) argv added) last
    ∙ if_rule (λ o. add_arg go (length xs + 1) next o ≡ go 100 argv') (leb 100 (length xs + 1 + 1))
        (λ t. absurd (ground arith)) (λ f. ap (stored (go 100) outside) stores)
  where
    argv : Argv
    argv = xs ++ some arg ∷ none ∷ rest

    argv' : Argv
    argv' = xs ++ some arg ∷ next ∷ rest

    go : ℕ → Argv → Built
    go = fill_argv fits va (length xs + 1 + 1)

    added : Built
    added = add_arg go (length xs + 1) next (resize fits (length xs + 1) 100 argv)

    last : get_elem? argv (length xs + 1 - 1) ≡ some (some arg)
    last = ap (get_elem? argv) (one_back xs) ∙ get_elem?-middle xs (some arg) (none ∷ rest)

    stores : write_at (length xs + 1) next argv ≡ some argv'
    stores =
        ap₂ (λ n cells. write_at n next cells) (sym (length-append xs (some arg ∷ [])))
          (sym (append_assoc xs (some arg ∷ []) (none ∷ rest)))
        ∙ write_at-middle (xs ++ some arg ∷ []) none next rest
        ∙ ap some (append_assoc xs (some arg ∷ []) (next ∷ rest))

fill_argv-null :
    (fits : Bool) (xs rest : Argv)
    → fill_argv fits [] (length xs + 1) 100 (xs ++ none ∷ rest)
      ≡ built (length xs + 1) (xs ++ none ∷ rest)
unfolding fill_argv
fill_argv-null fits xs rest =
    ap (unless_null (length xs + 1) (xs ++ none ∷ rest) outside)
      (ap (get_elem? (xs ++ none ∷ rest)) (one_back xs) ∙ get_elem?-middle xs none rest)

snoc_length : (xs : Argv) (arg : Bytes) → length xs + 1 + 1 ≡ length (xs ++ some arg ∷ []) + 1
snoc_length xs arg = omega (arith, length-append xs (some arg ∷ []))

-- The vector is right: the arguments, then a null pointer.
abbrev Holds : Argv → List Bytes → Built → Type 0
Holds xs args b =
    (argc : ℕ) × (cells : Argv) × (rest : Argv) × (b ≡ built argc (xs ++ cells))
    × (cells ≡ somes args ++ none ∷ rest)

fill_argv-last :
    (fits : Bool) (xs : Argv) (arg : Bytes) (rest : Argv)
    → length xs < 98
    → fill_argv fits (none ∷ []) (length xs + 1) 100 (xs ++ some arg ∷ none ∷ rest)
      ≡ built (length xs + 1 + 1) (xs ++ some arg ∷ none ∷ rest)
fill_argv-last fits xs arg rest small =
    fill_argv-step fits none [] xs arg rest small
    ∙ ap₂ (λ n cells. fill_argv fits [] n 100 cells) (snoc_length xs arg)
        (sym (append_assoc xs (some arg ∷ []) (none ∷ rest)))
    ∙ fill_argv-null fits (xs ++ some arg ∷ []) rest
    ∙ ap₂ built (sym (snoc_length xs arg)) (append_assoc xs (some arg ∷ []) (none ∷ rest))

fill_argv-room :
    (fits : Bool) (args : List Bytes) (xs : Argv) (arg : Bytes) (pad : ℕ)
    → length xs + length args < 98
    → length args < pad
    → Holds xs
        (arg ∷ args)
        (fill_argv fits (va_list args) (length xs + 1) 100 (xs ++ some arg ∷ replicate pad none))
fill_argv-room fits args xs arg zero small room = absurd (omega arith)
fill_argv-room fits [] xs arg (suc pad) small room = (
  length xs + 1 + 1,
  some arg ∷ none ∷ replicate pad none,
  replicate pad none,
  fill_argv-last fits xs arg (replicate pad none) (omega arith),
  refl,
)
fill_argv-room fits (next ∷ args) xs arg (suc pad) small room =
    let (argc, cells, rest, e, f) =
      fill_argv-room fits args (xs ++ some arg ∷ []) next pad
        (omega (arith, length-append xs (some arg ∷ []))) (omega arith) in
    (
      argc,
      some arg ∷ cells,
      rest,
      fill_argv-step fits (some next) (va_list args) xs arg (replicate pad none) (omega arith)
          ∙ ap₂ (λ n cells. fill_argv fits (va_list args) n 100 cells) (snoc_length xs arg)
              (sym (append_assoc xs (some arg ∷ []) (some next ∷ replicate pad none)))
          ∙ e
          ∙ ap (built argc) (append_assoc xs (some arg ∷ []) cells),
      ap (◌∷◌ (some arg)) f,
    )

-- Up to 98 arguments fit the array.
pub argv_of-Holds :
    (fits : Bool) (args : List Bytes)
    → length args < 99
    → (argc : ℕ) × (cells : Argv) × (argv_of fits (va_list args) ≡ built argc cells)
      × (until_null cells ≡ args)
argv_of-Holds fits [] few =
    (1, none ∷ replicate 99 none, fill_argv-null fits [] (replicate 99 none), refl)
argv_of-Holds fits (arg ∷ args) few =
    let (argc, cells, rest, e, f) =
      fill_argv-room fits args [] arg 99 (omega arith) (omega arith) in
    (argc, cells, e, ap until_null f ∙ until_null-somes (arg ∷ args) rest)

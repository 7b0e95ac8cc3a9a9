-- ===== src/Execlp/Search.antt =====
-- The search of PATH in execlp.c: the order of the directories, and the error that is returned.
use bookcode_linux.Common.{
  ℕ, zero, suc, ◌+◌, ◌≤◌, ◌<◌, ◌≡◌, refl, ◌⊎◌, inl, inr, Option, none, some, Bool, true, false,
  List, [], ◌∷◌, ◌++◌, Bytes, length, All, ◌==◌, ==_iff, if_rule, if◌then◌else◌, arith, ap, sym,
  ◌∙◌, subst, cut-append, cut-none, Lacks, Next, again, stop, loop, length-append,
}
use bookcode_linux.Execlp.{
  Argv, until_null, Execve, Outcome, replaced, returned, overrun, eacces, enoexec, colon, in_dir,
  next_prefix, or_script, after_execve, search_round, search_path,
}
use bookcode_linux.Execlp.Argv.{exec_sh_script-overrun}

-- The text of PATH for a first directory and more.
abbrev pub path_text : Bytes → List Bytes → Bytes
path_text d [] = d
path_text d (d' ∷ ds) = d ++ colon ∷ path_text d' ds

-- The last of a list.
abbrev pub last : Bytes → List Bytes → Bytes
last d [] = d
last d (d' ∷ ds) = last d' ds

module _ (execve : Execve) (envp args : List Bytes) (filename : Bytes) where
  -- What execve(2) gives for the file in a directory.
  abbrev pub tried : Bytes → Option ℕ
  tried d = execve (in_dir d filename) args envp

  abbrev pub Fails : Bytes → Type 0
  Fails d = (e : ℕ) × (tried d ≡ some e) × ((e == enoexec) ≡ false)

  abbrev pub Denied : Bytes → Type 0
  Denied d = tried d ≡ some eacces

  -- The first directory at which execve(2) does something else than to fail.
  abbrev pub AtFirst : (Bytes → Type 0) → List Bytes → Type 0
  AtFirst P dirs =
      (pre : List Bytes) × (d : Bytes) × (post : List Bytes) × (dirs ≡ pre ++ d ∷ post)
      × All Fails pre
      × P d

  abbrev pub Some : (Bytes → Type 0) → List Bytes → Type 0
  Some P [] = ⊥
  Some P (d ∷ ds) = P d ⊎ Some P ds

  -- EACCES if it was found before or is found now, else the error of the last directory.
  abbrev pub Errno : Bool → Bytes → List Bytes → ℕ → Type 0
  Errno found d ds e =
      (((found ≡ true) ⊎ Some Denied (d ∷ ds)) × (e ≡ eacces))
      ⊎ ((found ≡ false) × (Some Denied (d ∷ ds) → ⊥) × (tried (last d ds) ≡ some e))

  -- What the search returns: the first program that can be executed; an access outside an array at
  -- the first file without a known format; or an error when all of them fail.
  abbrev pub Result : Bool → Bytes → List Bytes → Option Outcome → Type 0
  Result found d ds o =
      AtFirst (λ x. (tried x ≡ none) × (o ≡ some (replaced (in_dir x filename) args))) (d ∷ ds)
      ⊎ (AtFirst (λ x. (tried x ≡ some enoexec) × (o ≡ some overrun)) (d ∷ ds)
          ⊎ (All Fails (d ∷ ds) × (e : ℕ) × (o ≡ some (returned e)) × Errno found d ds e))

module _ (execve : Execve) (envp : List Bytes) (argc : ℕ) (argv : Argv) (filename : Bytes) where
  abbrev tries : Bytes → Option ℕ
  tries d = execve (in_dir d filename) (until_null argv) envp

  round : Bytes × Bool → Next (Bytes × Bool) Outcome
  round = search_round execve envp argc argv filename

  abbrev run : ℕ → Next (Bytes × Bool) Outcome → Option Outcome
  run fuel n = elim n [ again s ↦ loop fuel round s | stop r ↦ some r ]

  -- The cases of one directory.
  after_execve-cases :
      (R : Option Outcome → Type 0) (fuel : ℕ) (d : Bytes) (behind : Option Bytes) (found : Bool)
      (o : Option ℕ)
      → tries d ≡ o
      → (tries d ≡ none → R (some (replaced (in_dir d filename) (until_null argv))))
      → (tries d ≡ some enoexec → R (some overrun))
      → (tries d ≡ some eacces → R (run fuel (next_prefix behind true eacces)))
      → ((e : ℕ)
          → tries d ≡ some e
          → (e == eacces) ≡ false
          → (e == enoexec) ≡ false
          → R (run fuel (next_prefix behind found e)))
      → R (run fuel (after_execve execve envp argc argv (in_dir d filename) behind found o))
  after_execve-cases R fuel d behind found none eq runs script denied fails = runs eq
  after_execve-cases R fuel d behind found (some e) eq runs script denied fails =
      if_rule (λ n. R (run fuel n)) (e == eacces)
        (λ t.
          subst (λ x. R (run fuel (next_prefix behind true x))) (sym ((==_iff e eacces).0 t))
            (denied (eq ∙ ap some ((==_iff e eacces).0 t))))
        (λ f.
          if_rule (λ n. R (run fuel n)) (e == enoexec)
            (λ t.
              subst (λ x. R (run fuel (or_script x (next_prefix behind found e))))
                (sym (exec_sh_script-overrun execve envp argc argv))
                (script (eq ∙ ap some ((==_iff e enoexec).0 t))))
            (λ g. fails e eq f g))

  not-Denied :
      (d : Bytes) (e : ℕ)
      → tries d ≡ some e
      → (e == eacces) ≡ false
      → Denied execve envp (until_null argv) filename d
      → ⊥
  not-Denied d e t f g =
      let h : some e ≡ some eacces = sym t ∙ g in
      let k : (e == eacces) ≡ true = (==_iff e eacces).1 cc in cc

  last_error :
      (found : Bool) (d : Bytes) (e : ℕ)
      → tries d ≡ some e
      → (e == eacces) ≡ false
      → Errno execve envp (until_null argv) filename found d [] (if found then eacces else e)
  last_error true d e t f = inl (inl refl, refl)
  last_error false d e t f =
      inr (refl, (λ h. elim h [ inl g ↦ not-Denied d e t f g | inr g ↦ g ]), t)

  -- At the last directory.
  last-Result :
      (fuel : ℕ) (d : Bytes) (found : Bool)
      → Result execve envp
          (until_null argv)
          filename
          found
          d
          []
          (run fuel (after_execve execve envp argc argv (in_dir d filename) none found (tries d)))
  last-Result fuel d found =
      after_execve-cases (Result execve envp (until_null argv) filename found d []) fuel d none
        found (tries d) refl (λ t. inl ([], d, [], refl, tt, (t, refl)))
        (λ t. inr (inl ([], d, [], refl, tt, (t, refl))))
        (λ t. inr (inr (((eacces, t, refl), tt), eacces, refl, inl (inr (inl t), refl))))
        (λ e t f g.
          inr
            (inr (((e, t, g), tt), (if found then eacces else e), refl, last_error found d e t f)))

  AtFirst-next :
      (P : Bytes → Type 0) (d : Bytes) (dirs : List Bytes)
      → Fails execve envp (until_null argv) filename d
      → AtFirst execve envp (until_null argv) filename P dirs
      → AtFirst execve envp (until_null argv) filename P (d ∷ dirs)
  AtFirst-next P d dirs fails (pre, x, post, e, all, p) =
      (d ∷ pre, x, post, ap (◌∷◌ d) e, (fails, all), p)

  Errno-next :
      (found found' : Bool) (d d' : Bytes) (ds : List Bytes) (e : ℕ)
      → ((found' ≡ true) × Denied execve envp (until_null argv) filename d)
        ⊎ ((found' ≡ found) × (Denied execve envp (until_null argv) filename d → ⊥))
      → Errno execve envp (until_null argv) filename found' d' ds e
      → Errno execve envp (until_null argv) filename found d (d' ∷ ds) e
  Errno-next found found' d d' ds e (inl (t, now)) (inl (h, eq)) = inl (inr (inl now), eq)
  Errno-next found found' d d' ds e (inl (t, now)) (inr (f, safe, h)) = absurd cc
  Errno-next found found' d d' ds e (inr (same, safe)) (inl (inl t, eq)) =
      inl (inl (sym same ∙ t), eq)
  Errno-next found found' d d' ds e (inr (same, safe)) (inl (inr h, eq)) = inl (inr (inr h), eq)
  Errno-next found found' d d' ds e (inr (same, safe)) (inr (f, none_denied, t)) =
      inr (sym same ∙ f, (λ h. elim h [ inl g ↦ safe g | inr g ↦ none_denied g ]), t)

  Result-next :
      (found found' : Bool) (d d' : Bytes) (ds : List Bytes) (o : Option Outcome)
      → Fails execve envp (until_null argv) filename d
      → ((found' ≡ true) × Denied execve envp (until_null argv) filename d)
        ⊎ ((found' ≡ found) × (Denied execve envp (until_null argv) filename d → ⊥))
      → Result execve envp (until_null argv) filename found' d' ds o
      → Result execve envp (until_null argv) filename found d (d' ∷ ds) o
  Result-next found found' d d' ds o fails now (inl f) = inl (AtFirst-next _ d (d' ∷ ds) fails f)
  Result-next found found' d d' ds o fails now (inr (inl f)) =
      inr (inl (AtFirst-next _ d (d' ∷ ds) fails f))
  Result-next found found' d d' ds o fails now (inr (inr (all, e, eq, errno))) =
      inr (inr ((fails, all), e, eq, Errno-next found found' d d' ds e now errno))

  -- At a directory with another behind it.
  more-Result :
      (fuel : ℕ) (d d' : Bytes) (ds : List Bytes) (found : Bool)
      → ((found' : Bool)
          → Result execve envp
              (until_null argv)
              filename
              found'
              d'
              ds
              (loop fuel round (path_text d' ds, found')))
      → Result execve envp (until_null argv) filename found d (d' ∷ ds) (
          run fuel (
            after_execve execve envp argc argv
              (in_dir d filename)
              (some (path_text d' ds))
              found
              (tries d)))
  more-Result fuel d d' ds found behind =
      after_execve-cases (Result execve envp (until_null argv) filename found d (d' ∷ ds)) fuel d
        (some (path_text d' ds)) found (tries d) refl
        (λ t. inl ([], d, d' ∷ ds, refl, tt, (t, refl)))
        (λ t. inr (inl ([], d, d' ∷ ds, refl, tt, (t, refl))))
        (λ t. Result-next found true d d' ds _ (eacces, t, refl) (inl (refl, t)) (behind true))
        (λ e t f g.
          Result-next found found d d' ds _ (e, t, g) (inr (refl, not-Denied d e t f))
            (behind found))

  -- A round, with the prefix cut off.
  abbrev at : Bytes × Option Bytes → Bool → Next (Bytes × Bool) Outcome
  at c found = after_execve execve envp argc argv (in_dir c.0 filename) c.1 found (tries c.0)

  loop-Result :
      (fuel : ℕ) (d : Bytes) (ds : List Bytes) (found : Bool)
      → length ds < fuel
      → Lacks colon d
      → All (Lacks colon) ds
      → Result execve envp
          (until_null argv)
          filename
          found
          d
          ds
          (loop fuel round (path_text d ds, found))
  unfolding loop search_round round
  loop-Result zero d ds found lt h hs = absurd (omega arith)
  loop-Result (suc fuel) d [] found lt h hs =
      subst (λ c. Result execve envp (until_null argv) filename found d [] (run fuel (at c found)))
        (sym (cut-none colon d h)) (last-Result fuel d found)
  loop-Result (suc fuel) d (d' ∷ ds) found lt h (h', hs) =
      subst
        (λ c.
          Result execve envp (until_null argv) filename found d (d' ∷ ds) (run fuel (at c found)))
        (sym (cut-append colon d (path_text d' ds) h))
        (more-Result fuel d d' ds found
          (λ found'. loop-Result fuel d' ds found' (omega arith) h' hs))

  length-path_text : (d : Bytes) (ds : List Bytes) → length ds ≤ length (path_text d ds)
  length-path_text d [] = omega arith
  length-path_text d (d' ∷ ds) =
      omega (arith, length-path_text d' ds, length-append d (colon ∷ path_text d' ds))

  pub search_path-Result :
      (d : Bytes) (ds : List Bytes)
      → Lacks colon d
      → All (Lacks colon) ds
      → Result execve envp
          (until_null argv)
          filename
          false
          d
          ds
          (search_path execve envp argc argv filename (path_text d ds))
  unfolding search_path round
  search_path-Result d ds h hs =
      loop-Result (length (path_text d ds) + 1) d ds false (omega (arith, length-path_text d ds)) h
        hs

-- ===== src/Acl/Update/Main.antt =====
-- A run of the program with -m on one file, from the specification to the file's ACL.
use bookcode_linux.Common.{
  ℕ, ◌≤◌, ◌≡◌, ◌≢◌, refl, Bool, false, Option, some, List, [], ◌∷◌, Bytes, length, if◌then◌else◌,
}
use bookcode_linux.Acl.{Tag, mask, Entry, max_entries}
use bookcode_linux.Acl.Laws.{Item}
use bookcode_linux.Acl.Spec.{Items, AllQualified, spec_text, entries_of, parse_acl-text}
use bookcode_linux.Acl.Update.{
  AclList, ok, ◌>>=◌, Libacl, set_perms, perms_of, update_entry, update_entries, update_file,
  update_files, modify_acl, main,
}
use bookcode_linux.Acl.Update.Find.{lookup, same}
use bookcode_linux.Acl.Update.Laws.{Documented, Goes, Goes->>=, Stored, update_entry-Modified}

-- The permissions of an entry after the changes, in their order: the last one that names it counts.
abbrev pub granted : List Entry → Tag → ℕ → Option ℕ → Option ℕ
granted [] t q old = old
granted (s ∷ ss) t q old =
    granted ss t q (if same s.tag s.qual t q then some (set_perms (perms_of s)) else old)

module _ (lib : Libacl) (doc : Documented lib) where
  open lib use {World, get_file}

  -- The file has the list, and there the entry has these permissions.
  abbrev pub Holds : Bytes → Bool → Tag → ℕ → Option ℕ → World × AclList → Type 0
  Holds file d t q p (w, es) = (get_file w file d ≡ some es) × (lookup t q es ≡ p)

  update_entries-Holds :
      (recalc : Bool) (file : Bytes) (d : Bool) (ss : List Entry) (w : World) (es : AclList)
      (t : Tag) (q : ℕ)
      → t ≢ mask
      → get_file w file d ≡ some es
      → Goes lib file d
          (Holds file d t q (granted ss t q (lookup t q es)))
          (update_entries lib false recalc file d (w, es) ss)
  unfolding update_entries
  update_entries-Holds recalc file d [] w es t q n g = (g, refl)
  update_entries-Holds recalc file d (s ∷ ss) w es t q n g =
      Goes->>= lib file d (Stored lib doc file d s es t q)
        (Holds file d t q (granted (s ∷ ss) t q (lookup t q es)))
        (update_entry lib false recalc file d (w, es) s)
        (λ r. update_entries lib false recalc file d r ss)
        (update_entry-Modified lib doc file d recalc w es s t q n)
        (λ (w', es') (g', l). rw l at (update_entries-Holds recalc file d ss w' es' t q n g'))

  -- What the file's ACL grants in the end.
  abbrev pub Updated : Bytes → Bool → Tag → ℕ → Option ℕ → World → Type 0
  Updated file d t q p w = (es : AclList) × Holds file d t q p (w, es)

  module _ (getpwnam getgrnam : Bytes → Option ℕ) where
    -- `acl_update -m` on a file with an ACL, with a library that does what it documents: a
    -- specification of at most MAX_ENTRIES well-formed entries is never refused: the run ends
    -- early only if a call of the library fails, and else the file's new ACL gives to every entry
    -- but the mask the permissions of the last entry of the specification that names it, and what
    -- it had before if none does.
    pub main-Updated :
        (recalc d : Bool) (file : Bytes) (w : World) (acl : AclList) (e : Item × ℕ) (es : Items)
        (t : Tag) (q : ℕ)
        → AllQualified getpwnam getgrnam (e ∷ es)
        → length (e ∷ es) ≤ max_entries
        → get_file w file d ≡ some acl
        → t ≢ mask
        → Goes lib file d
            (Updated file d t q (granted (entries_of (e ∷ es)) t q (lookup t q acl)))
            (main getpwnam getgrnam lib (modify_acl (spec_text e es)) recalc d (file ∷ []) w)
    unfolding main update_files
    main-Updated recalc d file w acl e es t q h l g n =
        let ss = entries_of (e ∷ es) in
        let U = Updated file d t q (granted ss t q (lookup t q acl)) in
        let run = update_entries lib false recalc file d (w, acl) ss in
        rw (parse_acl-text getpwnam getgrnam e es h l, g)
          (Goes->>= lib file d U U (run >>= λ r. ok r.0)
            (λ w'. update_files lib (update_file lib false recalc d ss) w' [])
            (Goes->>= lib file d (Holds file d t q (granted ss t q (lookup t q acl))) U run
              (λ r. ok r.0) (update_entries-Holds recalc file d ss w acl t q n g)
              (λ (w', es') k. (es', k)))
            (λ w' u. u))

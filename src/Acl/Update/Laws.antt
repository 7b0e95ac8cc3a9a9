-- ===== src/Acl/Update/Laws.antt =====
-- What modifying an ACL with one entry does to the permissions that it grants.
use bookcode_linux.Common.{
  ℕ, ◌≡◌, ◌≢◌, refl, ◌∙◌, Bool, true, false, Option, none, some, Bytes, if◌then◌else◌, length, ◌<◌,
  if_rule,
}
use bookcode_linux.Acl.{Tag, mask, Entry}
use bookcode_linux.Acl.Update.{
  AclEntry, AclList, Run, ok, failed, ◌>>=◌, Libacl, find_entry, set_perms, perms_of, from_option,
  modify_entry, recalculated, store, update_entry,
}
use bookcode_linux.Acl.Update.Find.{lookup, without, same, lookup-change_at, lookup-new_entry}

module _ (lib : Libacl) where
  open lib use {World, get_file, set_file, create, calc_mask, is_valid, accepts}

  -- What the library's functions are documented to do.
  pub record Documented : Type 0 where
    -- acl_create_entry(3) adds one entry, anywhere, and leaves the others as they are
    pub creates :
        (es es' : AclList) (j : ℕ)
        → create es ≡ some (j, es')
        → (j < length es') × (without es' j ≡ es)
    -- acl_calc_mask(3) sets the mask entry only
    pub masks :
        (es es' : AclList) (t : Tag) (q : ℕ)
        → calc_mask es ≡ some es'
        → t ≢ mask
        → lookup t q es' ≡ lookup t q es
    -- a file has the ACL that it was given
    pub sets :
        (w w' : World) (file : Bytes) (d : Bool) (es : AclList)
        → set_file w file d es ≡ some w'
        → get_file w' file d ≡ some es

  -- The permissions of every entry but the mask, in the new list.
  abbrev pub Modified : Entry → AclList → Tag → ℕ → AclList → Type 0
  Modified s es t q es' =
      lookup t q es'
      ≡ (if same s.tag s.qual t q then some (set_perms (perms_of s)) else lookup t q es)

module _ (lib : Libacl) (file : Bytes) (d : Bool) where
  open lib use {World, set_file, create, calc_mask, is_valid, accepts}

  -- Some call of the library fails, which is the only reason for a run to end.
  pub data CallFails (w : World) : Type 0 where
    not_created : (es : AclList) → create es ≡ none → CallFails w
    not_accepted : (e : AclEntry) → accepts e ≡ false → CallFails w
    no_mask : (es : AclList) → calc_mask es ≡ none → CallFails w
    not_valid : (es : AclList) → is_valid es ≡ false → CallFails w
    not_set : (es : AclList) → set_file w file d es ≡ none → CallFails w

  -- The run goes on and `P` holds of its result, or a call fails.
  abbrev pub Goes : {A : Type 0} → (A → Type 0) → Run World A → Type 0
  Goes P (ok a) = P a
  Goes P (failed w) = CallFails w

  pub Goes->>= :
      {A B : Type 0} (P : A → Type 0) (Q : B → Type 0) (m : Run World A) (f : A → Run World B)
      → Goes P m
      → ((a : A) → P a → Goes Q (f a))
      → Goes Q (m >>= f)
  Goes->>= P Q (ok a) f h k = k a h
  Goes->>= P Q (failed w) f h k = h

  Goes-weaken :
      {A : Type 0} (P Q : A → Type 0) (m : Run World A)
      → Goes P m
      → ((a : A) → P a → Q a)
      → Goes Q m
  Goes-weaken P Q (ok a) h k = k a h
  Goes-weaken P Q (failed w) h k = h

  Goes-from_option :
      {A : Type 0} (w : World) (o : Option A)
      → (o ≡ none → CallFails w)
      → Goes (λ a. o ≡ some a) (from_option lib w o)
  Goes-from_option w none h = h refl
  Goes-from_option w (some a) h = refl

module _ (lib : Libacl) (doc : Documented lib) (file : Bytes) (d : Bool) where
  open lib use {World, get_file, set_file, create, calc_mask, is_valid, accepts}

  modify_entry-Modified :
      (w : World) (es : AclList) (s : Entry) (t : Tag) (q : ℕ) (j : Option ℕ)
      → find_entry es s.tag s.qual ≡ j
      → Goes lib file d (Modified lib s es t q) (modify_entry lib w es s j)
  modify_entry-Modified w es s t q (some j) h =
      lookup-change_at s.tag t s.qual q (perms_of s) es j h
  modify_entry-Modified w es s t q none h =
      Goes->>= lib file d (λ r. create es ≡ some r) (Modified lib s es t q)
        (from_option lib w (create es)) _
        (Goes-from_option lib file d w (create es) (not_created es))
        (λ (j, es') e.
          let (l, same_rest) = doc.creates es es' j e in
          if_rule (Goes lib file d (Modified lib s es t q))
            (accepts (record { tag = s.tag; qual = s.qual; perms = perms_of s }))
            (λ a. lookup-new_entry s (perms_of s) t q es' j l (rw same_rest h) ∙ rw same_rest refl)
            (λ a. not_accepted _ a))

  recalculated-lookup :
      (w : World) (recalc : Bool) (es : AclList) (t : Tag) (q : ℕ)
      → t ≢ mask
      → Goes lib file d (λ es'. lookup t q es' ≡ lookup t q es) (recalculated lib recalc w es)
  recalculated-lookup w false es t q n = refl
  recalculated-lookup w true es t q n =
      Goes-weaken lib file d (λ es'. calc_mask es ≡ some es')
        (λ es'. lookup t q es' ≡ lookup t q es) (from_option lib w (calc_mask es))
        (Goes-from_option lib file d w (calc_mask es) (no_mask es))
        (λ es' e. doc.masks es es' t q e n)

  store-stored :
      (w : World) (es : AclList)
      → Goes lib file d (λ r. (r.1 ≡ es) × (get_file r.0 file d ≡ some es)) (store lib file d w es)
  store-stored w es =
      if_rule
        (Goes lib file d (λ (r : World × AclList). (r.1 ≡ es) × (get_file r.0 file d ≡ some es)))
        (is_valid es)
        (λ v.
          Goes->>= lib file d (λ w'. set_file w file d es ≡ some w')
            (λ (r : World × AclList). (r.1 ≡ es) × (get_file r.0 file d ≡ some es))
            (from_option lib w (set_file w file d es)) (λ w'. ok (w', es))
            (Goes-from_option lib file d w (set_file w file d es) (not_set es))
            (λ w' e. (refl, doc.sets w w' file d es e)))
        (λ v. not_valid es v)

  -- The file has the new list, in which the entry is modified.
  abbrev pub Stored : Entry → AclList → Tag → ℕ → World × AclList → Type 0
  Stored s es t q (w, es') = (get_file w file d ≡ some es') × Modified lib s es t q es'

  -- Modifying the ACL of a file with one parsed entry, with a library that does what it documents:
  -- if no call fails, then the file has the new ACL; the entry of that tag and qualifier has
  -- exactly the permissions asked for, whether it was there before or not; and every other entry
  -- but the mask has the permissions that it had, or is absent as it was.
  pub update_entry-Modified :
      (recalc : Bool) (w : World) (es : AclList) (s : Entry) (t : Tag) (q : ℕ)
      → t ≢ mask
      → Goes lib file d (Stored s es t q) (update_entry lib false recalc file d (w, es) s)
  unfolding update_entry
  update_entry-Modified recalc w es s t q n =
      Goes->>= lib file d (Modified lib s es t q) (Stored s es t q)
        (modify_entry lib w es s (find_entry es s.tag s.qual)) _
        (modify_entry-Modified w es s t q (find_entry es s.tag s.qual) refl)
        (λ es1 h1.
          Goes->>= lib file d (λ es2. lookup t q es2 ≡ lookup t q es1) (Stored s es t q)
            (recalculated lib recalc w es1) (store lib file d w)
            (recalculated-lookup w recalc es1 t q n)
            (λ es2 h2.
              Goes-weaken lib file d
                (λ (r : World × AclList). (r.1 ≡ es2) × (get_file r.0 file d ≡ some es2))
                (Stored s es t q) (store lib file d w es2) (store-stored w es2)
                (λ r (e, g). (rw e g, rw e (h2 ∙ h1)))))

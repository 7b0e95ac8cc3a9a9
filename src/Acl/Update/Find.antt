-- ===== src/Acl/Update/Find.antt =====
-- The entry of a tag and a qualifier: found, changed and made.
use bookcode_linux.Common.{
  ℕ, zero, suc, ◌≡◌, refl, ◌∙◌, Bool, true, false, Option, none, some, [], ◌∷◌, if◌then◌else◌,
  length, ◌<◌, arith, Option-cases, Bool-cases, inl, inr,
}
use bookcode_linux.Acl.{Tag, Entry}
use bookcode_linux.Acl.Update.{
  AclEntry, AclList, tag_code, is_qualified, matches, fits, find_entry, set_perms, change_at,
  with_perms, new_entry,
}

-- The permissions of the first entry that fits.
unfoldable pub lookup : Tag → ℕ → AclList → Option ℕ
lookup t q [] = none
lookup t q (e ∷ es) = if fits e t q then some e.perms else lookup t q es

abbrev pub without : AclList → ℕ → AclList
without [] j = []
without (e ∷ es) zero = es
without (e ∷ es) (suc j) = e ∷ without es j

-- The two keys stand for the same entry.
abbrev pub same : Tag → ℕ → Tag → ℕ → Bool
same t q t' q' = matches (tag_code t) q (tag_code t') q'

matches_same : (a x b y c z : ℕ) → matches a x b y ≡ true → matches a x c z ≡ matches b y c z
matches_same a x b y c z h = ground arith

fits_same :
    (e : AclEntry) (t t' : Tag) (q q' : ℕ) → fits e t q ≡ true → fits e t' q' ≡ same t q t' q'
fits_same e t t' q q' h = matches_same (tag_code e.tag) e.qual (tag_code t) q (tag_code t') q' h

matches_other :
    (a x b y c z : ℕ) → matches a x b y ≡ false → matches b y c z ≡ true → matches a x c z ≡ false
matches_other a x b y c z h k = ground arith

fits_other :
    (e : AclEntry) (t t' : Tag) (q q' : ℕ)
    → fits e t q ≡ false
    → same t q t' q' ≡ true
    → fits e t' q' ≡ false
fits_other e t t' q q' h k =
    matches_other (tag_code e.tag) e.qual (tag_code t) q (tag_code t') q' h k

-- The head of the list, as `find_entry` sees it.
found_first :
    (e : AclEntry) (es : AclList) (t : Tag) (q : ℕ)
    → find_entry (e ∷ es) t q ≡ some 0
    → fits e t q ≡ true
unfolding find_entry
found_first e es t q h = elim (Bool-cases (fits e t q)) [
  | inl f ↦ f
  | inr f ↦ elim (Option-cases (find_entry es t q)) [
    | inl n ↦ cc (rw (f, n) at h)
    | inr (j, s) ↦ absurd (ground (arith, rw (f, s) at h))
  ]
]

found_later :
    (e : AclEntry) (es : AclList) (t : Tag) (q k : ℕ)
    → find_entry (e ∷ es) t q ≡ some (suc k)
    → (fits e t q ≡ false) × (find_entry es t q ≡ some k)
unfolding find_entry
found_later e es t q k h = elim (Bool-cases (fits e t q)) [
  | inl f ↦ absurd (ground (arith, rw f at h))
  | inr f ↦ elim (Option-cases (find_entry es t q)) [
    | inl n ↦ cc (rw (f, n) at h)
    | inr (j, s) ↦ (f, ground (arith, s, rw (f, s) at h))
  ]
]

found_none :
    (e : AclEntry) (es : AclList) (t : Tag) (q : ℕ)
    → find_entry (e ∷ es) t q ≡ none
    → (fits e t q ≡ false) × (find_entry es t q ≡ none)
unfolding find_entry
found_none e es t q h = elim (Bool-cases (fits e t q)) [
  | inl f ↦ cc (rw f at h)
  | inr f ↦ elim (Option-cases (find_entry es t q)) [
    | inl n ↦ (f, n)
    | inr (j, s) ↦ cc (rw (f, s) at h)
  ]
]

pub lookup-change_at :
    (t t' : Tag) (q q' p : ℕ) (es : AclList) (j : ℕ)
    → find_entry es t q ≡ some j
    → lookup t' q' (change_at (with_perms p) es j)
      ≡ (if same t q t' q' then some (set_perms p) else lookup t' q' es)
unfolding lookup find_entry
lookup-change_at t t' q q' p [] j h = cc
lookup-change_at t t' q q' p (e ∷ es) zero h =
    let f = fits_same e t t' q q' (found_first e es t q h) in go (same t q t' q') f
  where
    go :
        (b : Bool)
        → fits e t' q' ≡ b
        → (if fits e t' q' then some (set_perms p) else lookup t' q' es) ≡ (
            if b
            then some (set_perms p)
            else (if fits e t' q' then some e.perms else lookup t' q' es))
    go true f = rw f refl
    go false f = rw f refl
lookup-change_at t t' q q' p (e ∷ es) (suc j) h =
    let (f, k) = found_later e es t q j h in
    elim (Bool-cases (same t q t' q')) [
      | inl s ↦ rw (s, fits_other e t t' q q' f s) (lookup-change_at t t' q q' p es j k ∙ rw s refl)
      | inr s ↦ rw (s, rw s at (lookup-change_at t t' q q' p es j k)) refl
    ]

lookup-none :
    (es : AclList) (t t' : Tag) (q q' : ℕ)
    → find_entry es t q ≡ none
    → same t q t' q' ≡ true
    → lookup t' q' es ≡ none
unfolding lookup
lookup-none [] t t' q q' h k = refl
lookup-none (e ∷ es) t t' q q' h k =
    let (f, n) = found_none e es t q h in
    rw (fits_other e t t' q q' f k) (lookup-none es t t' q q' n k)

-- A new entry has the key that it was made for.
matches_new : (a x w c z : ℕ) → matches a (if is_qualified a then x else w) c z ≡ matches a x c z
matches_new a x w c z = ground arith

pub lookup-new_entry :
    (s : Entry) (p : ℕ) (t' : Tag) (q' : ℕ) (es : AclList) (j : ℕ)
    → j < length es
    → find_entry (without es j) s.tag s.qual ≡ none
    → lookup t' q' (change_at (new_entry s p) es j)
      ≡ (if same s.tag s.qual t' q' then some (set_perms p) else lookup t' q' (without es j))
unfolding lookup
lookup-new_entry s p t' q' [] j l h = absurd (omega arith)
lookup-new_entry s p t' q' (e ∷ es) zero l h =
    rw (matches_new (tag_code s.tag) s.qual e.qual (tag_code t') q') refl
lookup-new_entry s p t' q' (e ∷ es) (suc j) l h =
    let (f, n) = found_none e (without es j) s.tag s.qual h in
    let ih = lookup-new_entry s p t' q' es j (omega arith) n in
    elim (Bool-cases (same s.tag s.qual t' q')) [
      | inl k ↦ rw (k, fits_other e s.tag t' s.qual q' f k) (ih ∙ rw k refl)
      | inr k ↦ rw (k, rw k at ih) refl
    ]

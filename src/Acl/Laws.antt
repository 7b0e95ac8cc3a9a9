-- ===== src/Acl/Laws.antt =====
-- An ACL specification is read back as it was written.
use bookcode_linux.Common.{
  ℕ, zero, suc, ◌≡◌, refl, ap, sym, Bool, true, false, Option, none, some, [], ◌∷◌, ◌++◌, Bytes,
  codes, cut, cut-append, Lacks, ◌==◌, if◌then◌else◌,
}
use bookcode_linux.Accounts.{id_from_name}
use bookcode_linux.Acl.Perms.{Perms, perms_text, perms_value, parse_perms-text}
use bookcode_linux.Acl.{
  Tag, user_obj, user, group_obj, group, mask, other, has_qual, tag_of, good_id, qualifier,
  given_perms, build, parse_behind, parse_entry_spec,
}

-- An entry as it is written: the tag, by its short name or its long one, the qualifier and the
-- permissions.
pub record Item : Type 0 where
  pub tag : Tag
  pub long : Bool
  pub qual : Bytes
  pub perms : Perms

abbrev pub name : Bool → Bytes → Bytes → Bytes
name long short full = if long then full else short

abbrev pub tag_name : Tag → Bool → Bytes
tag_name user_obj long = name long (codes "u") (codes "user")
tag_name user long = name long (codes "u") (codes "user")
tag_name group_obj long = name long (codes "g") (codes "group")
tag_name group long = name long (codes "g") (codes "group")
tag_name mask long = name long (codes "m") (codes "mask")
tag_name other long = name long (codes "o") (codes "other")

abbrev pub item_text : Item → Bytes
item_text e = tag_name e.tag e.long ++ b':' ∷ (e.qual ++ b':' ∷ perms_text e.perms)

module _ (getpwnam getgrnam : Bytes → Option ℕ) where
  -- A name or number that stands for an identifier.
  abbrev pub Names : (Bytes → Option ℕ) → Bytes → ℕ → Type 0
  Names find [] i = ⊥
  Names find (c ∷ s) i =
      Lacks b':' (c ∷ s)
      × Lacks b',' (c ∷ s)
      × (good_id getpwnam getgrnam (id_from_name find (some (c ∷ s))) ≡ some i)

  abbrev pub Unqualified : Bytes → ℕ → Type 0
  Unqualified [] zero = Unit
  Unqualified [] (suc i) = ⊥
  Unqualified (c ∷ s) i = ⊥

  -- The qualifier that the tag asks for, and its identifier.
  abbrev pub Qualified : Tag → Bytes → ℕ → Type 0
  Qualified user s i = Names getpwnam s i
  Qualified group s i = Names getgrnam s i
  Qualified user_obj s i = Unqualified s i
  Qualified group_obj s i = Unqualified s i
  Qualified mask s i = Unqualified s i
  Qualified other s i = Unqualified s i

  given :
      (p : Perms)
      → given_perms getpwnam getgrnam (some (perms_text p)) ≡ some (some (perms_value p))
  given (l, ls) =
      ap (λ o. elim o [ none ↦ none | some p ↦ some (some p) ]) (parse_perms-text (l, ls))

  behind :
      (nm : Bytes) (t : Tag) (q : Bytes) (i : ℕ) (p : Perms)
      → tag_of nm (has_qual (q ++ b':' ∷ perms_text p)) ≡ some t
      → qualifier getpwnam getgrnam t q ≡ some i
      → Lacks b':' q
      → parse_behind getpwnam getgrnam nm (some (q ++ b':' ∷ perms_text p)) true
        ≡ some (record { tag = t; qual = i; perms = some (perms_value p) })
  behind nm t q i (l, ls) ht hq hl =
      let c : cut b':' (q ++ b':' ∷ perms_text (l, ls)) ≡ (q, some (perms_text (l, ls))) =
        cut-append b':' q (perms_text (l, ls)) hl in
      rw (c, ht, build, c, hq, given (l, ls)) refl

  has_qual-append : (c : ℕ) (s rest : Bytes) → (c == b':') ≡ false → has_qual (c ∷ s ++ rest) ≡ true
  has_qual-append c s rest h = rw h refl

  name-Lacks :
      (long : Bool) (short full : Bytes) (c : ℕ)
      → Lacks c short
      → Lacks c full
      → Lacks c (name long short full)
  name-Lacks true short full c h k = k
  name-Lacks false short full c h k = h

  tag_name-Lacks_colon : (t : Tag) (long : Bool) → Lacks b':' (tag_name t long)
  tag_name-Lacks_colon user_obj long =
      name-Lacks long (codes "u") (codes "user") b':' (refl, tt) (refl, (refl, (refl, (refl, tt))))
  tag_name-Lacks_colon user long =
      name-Lacks long (codes "u") (codes "user") b':' (refl, tt) (refl, (refl, (refl, (refl, tt))))
  tag_name-Lacks_colon group_obj long =
      name-Lacks long (codes "g") (codes "group") b':' (refl, tt)
        (refl, (refl, (refl, (refl, (refl, tt)))))
  tag_name-Lacks_colon group long =
      name-Lacks long (codes "g") (codes "group") b':' (refl, tt)
        (refl, (refl, (refl, (refl, (refl, tt)))))
  tag_name-Lacks_colon mask long =
      name-Lacks long (codes "m") (codes "mask") b':' (refl, tt) (refl, (refl, (refl, (refl, tt))))
  tag_name-Lacks_colon other long =
      name-Lacks long (codes "o") (codes "other") b':' (refl, tt)
        (refl, (refl, (refl, (refl, (refl, tt)))))

  pub tag_name-Lacks_comma : (t : Tag) (long : Bool) → Lacks b',' (tag_name t long)
  tag_name-Lacks_comma user_obj long =
      name-Lacks long (codes "u") (codes "user") b',' (refl, tt) (refl, (refl, (refl, (refl, tt))))
  tag_name-Lacks_comma user long =
      name-Lacks long (codes "u") (codes "user") b',' (refl, tt) (refl, (refl, (refl, (refl, tt))))
  tag_name-Lacks_comma group_obj long =
      name-Lacks long (codes "g") (codes "group") b',' (refl, tt)
        (refl, (refl, (refl, (refl, (refl, tt)))))
  tag_name-Lacks_comma group long =
      name-Lacks long (codes "g") (codes "group") b',' (refl, tt)
        (refl, (refl, (refl, (refl, (refl, tt)))))
  tag_name-Lacks_comma mask long =
      name-Lacks long (codes "m") (codes "mask") b',' (refl, tt) (refl, (refl, (refl, (refl, tt))))
  tag_name-Lacks_comma other long =
      name-Lacks long (codes "o") (codes "other") b',' (refl, tt)
        (refl, (refl, (refl, (refl, (refl, tt)))))

  -- Whether the tag takes a qualifier.
  abbrev pub takes_qual : Tag → Bool
  takes_qual user = true
  takes_qual group = true
  takes_qual user_obj = false
  takes_qual group_obj = false
  takes_qual mask = false
  takes_qual other = false

  tag_of-tag_name : (t : Tag) (long : Bool) → tag_of (tag_name t long) (takes_qual t) ≡ some t
  tag_of-tag_name user true = refl
  tag_of-tag_name user false = refl
  tag_of-tag_name user_obj true = refl
  tag_of-tag_name user_obj false = refl
  tag_of-tag_name group true = refl
  tag_of-tag_name group false = refl
  tag_of-tag_name group_obj true = refl
  tag_of-tag_name group_obj false = refl
  tag_of-tag_name mask true = refl
  tag_of-tag_name mask false = refl
  tag_of-tag_name other true = refl
  tag_of-tag_name other false = refl

  -- What a good qualifier gives to the parser.
  pub record Use (t : Tag) (s : Bytes) (i : ℕ) : Type 0 where
    pub seen : (rest : Bytes) → has_qual (s ++ b':' ∷ rest) ≡ takes_qual t
    pub found : qualifier getpwnam getgrnam t s ≡ some i
    pub no_colon : Lacks b':' s
    pub no_comma : Lacks b',' s

  bare :
      (t : Tag)
      → takes_qual t ≡ false
      → qualifier getpwnam getgrnam t [] ≡ some 0
      → (s : Bytes) (i : ℕ) → Unqualified s i
      → Use t s i
  bare t e f [] zero h = record { seen = λ rest. sym e; found = f; no_colon = tt; no_comma = tt }
  bare t e f [] (suc i) h = absurd h
  bare t e f (c ∷ s) i h = absurd h

  pub named : (t : Tag) (s : Bytes) (i : ℕ) → Qualified t s i → Use t s i
  named user [] i h = absurd h
  named user (c ∷ s) i (h, k, g) = record {
    seen = λ rest. has_qual-append c s (b':' ∷ rest) h.0;
    found = g;
    no_colon = h;
    no_comma = k;
  }
  named group [] i h = absurd h
  named group (c ∷ s) i (h, k, g) = record {
    seen = λ rest. has_qual-append c s (b':' ∷ rest) h.0;
    found = g;
    no_colon = h;
    no_comma = k;
  }
  named user_obj s i h = bare user_obj refl refl s i h
  named group_obj s i h = bare group_obj refl refl s i h
  named mask s i h = bare mask refl refl s i h
  named other s i h = bare other refl refl s i h

  pub parse_entry_spec-text :
      (e : Item) (i : ℕ)
      → Qualified e.tag e.qual i
      → parse_entry_spec getpwnam getgrnam (item_text e) true
        ≡ some (record { tag = e.tag; qual = i; perms = some (perms_value e.perms) })
  unfolding parse_entry_spec
  parse_entry_spec-text e i h =
      let u = named e.tag e.qual i h in
      rw
        (cut-append b':' (tag_name e.tag e.long) (e.qual ++ b':' ∷ perms_text e.perms)
          (tag_name-Lacks_colon e.tag e.long))
        (behind (tag_name e.tag e.long) e.tag e.qual i e.perms
          (rw (u.seen (perms_text e.perms)) (tag_of-tag_name e.tag e.long)) u.found u.no_colon)

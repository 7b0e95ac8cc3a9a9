-- ===== src/Acl/Spec.antt =====
-- A whole ACL specification is read back as it was written.
use bookcode_linux.Common.{
  ℕ, ◌+◌, ◌≤◌, ◌≡◌, refl, true, false, Option, some, List, [], ◌∷◌, ◌++◌, Bytes, length, Lacks,
  Lacks-append, leb, arith,
}
use bookcode_linux.Acl.Perms.{perms_text, perms_value, perms_text-Lacks}
use bookcode_linux.Acl.{Entry, max_entries, parse_entries, split, parse_acl}
use bookcode_linux.Acl.Laws.{
  Item, item_text, tag_name, tag_name-Lacks_comma, Qualified, named, parse_entry_spec-text,
}

split_one : (s : Bytes) → Lacks b',' s → split s ≡ s ∷ []
unfolding split
split_one [] h = refl
split_one (c ∷ s) (h, hs) = rw (split, h, split_one s hs) refl

split-append : (s rest : Bytes) → Lacks b',' s → split (s ++ b',' ∷ rest) ≡ s ∷ split rest
unfolding split
split-append [] rest h = refl
split-append (c ∷ s) rest (h, hs) = rw (split, h, split-append s rest hs) refl

-- The entries, each with the identifier that its qualifier stands for.
abbrev pub Items : Type 0
Items = List (Item × ℕ)

abbrev pub spec_text : Item × ℕ → Items → Bytes
spec_text (e, i) [] = item_text e
spec_text (e, i) (f ∷ es) = item_text e ++ b',' ∷ spec_text f es

abbrev pub texts : Items → List Bytes
texts [] = []
texts ((e, i) ∷ es) = item_text e ∷ texts es

abbrev pub entry_of : Item × ℕ → Entry
entry_of (e, i) = record { tag = e.tag; qual = i; perms = some (perms_value e.perms) }

abbrev pub entries_of : Items → List Entry
entries_of [] = []
entries_of (e ∷ es) = entry_of e ∷ entries_of es

module _ (getpwnam getgrnam : Bytes → Option ℕ) where
  abbrev pub AllQualified : Items → Type 0
  AllQualified [] = Unit
  AllQualified ((e, i) ∷ es) = Qualified getpwnam getgrnam e.tag e.qual i × AllQualified es

  item_text-Lacks :
      (e : Item) (i : ℕ) → Qualified getpwnam getgrnam e.tag e.qual i → Lacks b',' (item_text e)
  item_text-Lacks e i h =
      Lacks-append b',' (tag_name e.tag e.long) (b':' ∷ (e.qual ++ b':' ∷ perms_text e.perms))
        (tag_name-Lacks_comma getpwnam getgrnam e.tag e.long)
        (
          refl,
          Lacks-append b',' e.qual (b':' ∷ perms_text e.perms)
              ((named getpwnam getgrnam e.tag e.qual i h).no_comma)
              (refl, perms_text-Lacks e.perms),
        )

  split-spec_text :
      (e : Item × ℕ) (es : Items) → AllQualified (e ∷ es) → split (spec_text e es) ≡ texts (e ∷ es)
  split-spec_text (e, i) [] (h, hs) = split_one (item_text e) (item_text-Lacks e i h)
  split-spec_text (e, i) (f ∷ es) (h, hs) =
      rw
        (
          split-append (item_text e) (spec_text f es) (item_text-Lacks e i h),
          split-spec_text f es hs,
        )
        refl

  parse_entries-texts :
      (n : ℕ) (es : Items)
      → AllQualified es
      → n + length es ≤ max_entries
      → parse_entries getpwnam getgrnam n (texts es) true ≡ some (entries_of es)
  unfolding parse_entries
  parse_entries-texts n [] h k = refl
  parse_entries-texts n ((e, i) ∷ es) (h, hs) k =
      let room : leb max_entries n ≡ false = ground arith in
      rw
        (
          parse_entries,
          room,
          parse_entry_spec-text getpwnam getgrnam e i h,
          parse_entries-texts (n + 1) es hs (omega arith),
        )
        refl

  -- `parseACL` reads back every specification of at most MAX_ENTRIES entries, written with short
  -- or long tag names and with permissions, any string of "r", "w", "x" and "-" that is not
  -- empty: each entry gets its tag, the identifier that its qualifier stands for, or 0, and the
  -- permissions whose letters occur. A qualifier of a user or a group is a name or a number
  -- without a colon or a comma, and its identifier is not -1; the other tags have none.
  pub parse_acl-text :
      (e : Item × ℕ) (es : Items)
      → AllQualified (e ∷ es)
      → length (e ∷ es) ≤ max_entries
      → parse_acl getpwnam getgrnam (spec_text e es) true ≡ some (entries_of (e ∷ es))
  unfolding parse_acl
  parse_acl-text e es h k =
      rw (split-spec_text e es h) (parse_entries-texts 0 (e ∷ es) h (omega arith))

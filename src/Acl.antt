-- ===== src/Acl.antt =====
-- The ACL specifications of TLPI/acl/acl_update.c: parseEntrySpec() and parseACL().
pub mod Perms
pub mod Laws
pub mod Spec
pub mod Update
mod Tests
use bookcode_linux.Common.{
  ℕ, suc, ◌+◌, ◌-◌, ◌/◌, ◌%◌, Bool, true, false, not, ◌&&◌, ◌||◌, Option, none, some, List, [], ◌∷◌,
  Bytes, bytes_eq, codes, cut, ◌==◌, leb, if◌then◌else◌,
}
use bookcode_linux.Accounts.{no_id, user_id_from_name, group_id_from_name}
use bookcode_linux.Acl.Perms.{parse_perms}

abbrev pub max_entries : ℕ
max_entries = 10000

-- `acl_tag_t`
pub data Tag : Type 0 where
  user_obj user group_obj group mask other : Tag

-- `struct AccessControlEntry`; `none` for permissions that were not given.
pub record Entry : Type 0 where
  pub tag : Tag
  pub qual : ℕ
  pub perms : Option ℕ

-- The next byte is neither the end of the string nor a colon.
abbrev pub has_qual : Bytes → Bool
has_qual [] = false
has_qual (c ∷ s) = not (c == b':')

-- There is a second colon, and something behind it.
abbrev pub has_perms : Option Bytes → Bool
has_perms none = false
has_perms (some []) = false
has_perms (some (c ∷ s)) = true

abbrev pub tag_of : Bytes → Bool → Option Tag
tag_of name qualified =
    if bytes_eq name (codes "u") || bytes_eq name (codes "user")
    then some (if qualified then user else user_obj)
    else if bytes_eq name (codes "g") || bytes_eq name (codes "group")
    then some (if qualified then group else group_obj)
    else if bytes_eq name (codes "o") || bytes_eq name (codes "other")
    then some other
    else if bytes_eq name (codes "m") || bytes_eq name (codes "mask")
    then some mask
    else none

-- The parts between the commas; there is always one.
abbrev pub put_first : ℕ → List Bytes → List Bytes
put_first c [] = (c ∷ []) ∷ []
put_first c (p ∷ ps) = (c ∷ p) ∷ ps

unfoldable pub split : Bytes → List Bytes
split [] = [] ∷ []
split (c ∷ s) = elim (c == b',') [ true ↦ [] ∷ split s | false ↦ put_first c (split s) ]

infixl 5 ◌>>=◌
abbrev pub ◌>>=◌ : {A B : Type 0} → Option A → (A → Option B) → Option B
none >>= f = none
some a >>= f = f a

module _ (getpwnam getgrnam : Bytes → Option ℕ) where
  -- The qualifier, if the tag has one; an identifier of -1 is refused.
  abbrev pub good_id : ℕ → Option ℕ
  good_id i = if i == no_id then none else some i

  abbrev pub qualifier : Tag → Bytes → Option ℕ
  qualifier user s = good_id (user_id_from_name getpwnam (some s))
  qualifier group s = good_id (group_id_from_name getgrnam (some s))
  qualifier user_obj s = some 0
  qualifier group_obj s = some 0
  qualifier mask s = some 0
  qualifier other s = some 0

  abbrev pub given_perms : Option Bytes → Option (Option ℕ)
  given_perms none = some none
  given_perms (some []) = some none
  given_perms (some (c ∷ s)) = elim (parse_perms 0 (c ∷ s)) [ none ↦ none | some p ↦ some (some p) ]

  abbrev pub build : Tag → Bytes → Option Bytes → Option Entry
  build t qual perms = do
    i ← qualifier t qual
    p ← given_perms perms
    some (record { tag = t; qual = i; perms = p })

  -- What stands before the first colon, then before the second one, and behind it.
  abbrev pub parse_parts : Bytes → Bytes → Option Bytes → Bool → Bool → Option Entry
  parse_parts name qual perms qualified perms_reqd =
      if has_perms perms && not perms_reqd
      then none
      else if not (has_perms perms) && perms_reqd
      then none
      else (elim (tag_of name qualified) [ none ↦ none | some t ↦ build t qual perms ])

  abbrev pub parse_behind : Bytes → Option Bytes → Bool → Option Entry
  parse_behind name none perms_reqd = none
  parse_behind name (some s) perms_reqd =
      parse_parts name (cut b':' s).0 (cut b':' s).1 (has_qual s) perms_reqd

  unfoldable pub parse_entry_spec : Bytes → Bool → Option Entry
  parse_entry_spec s perms_reqd = parse_behind (cut b':' s).0 (cut b':' s).1 perms_reqd

  -- The loop of `parseACL` over the parts between the commas, `n` of which are done.
  unfoldable pub parse_entries : ℕ → List Bytes → Bool → Option (List Entry)
  parse_entries n [] perms_reqd = some []
  parse_entries n (s ∷ rest) perms_reqd = elim (leb max_entries n) [
    | true ↦ none
    | false ↦ elim (parse_entry_spec s perms_reqd) [
      | none ↦ none
      | some e ↦ elim (parse_entries (n + 1) rest perms_reqd) [
        | none ↦ none
        | some es ↦ some (e ∷ es)
      ]
    ]
  ]

  -- The entries; their number is what `parseACL` returns.
  unfoldable pub parse_acl : Bytes → Bool → Option (List Entry)
  parse_acl s perms_reqd = parse_entries 0 (split s) perms_reqd

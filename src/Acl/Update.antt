-- ===== src/Acl/Update.antt =====
-- The rest of TLPI/acl/acl_update.c: findEntry(), setPerms() and main(), over the ACL library.
pub mod Find
pub mod Laws
pub mod Main
mod Tests
use bookcode_linux.Common.{
  ℕ, zero, suc, ◌+◌, Bool, true, false, not, ◌&&◌, ◌||◌, Option, none, some, List, [], ◌∷◌, Bytes,
  ◌==◌, if◌then◌else◌,
}
use bookcode_linux.Acl.{Tag, user_obj, user, group_obj, group, mask, other, Entry, parse_acl}
use bookcode_linux.Acl.Perms.{acl_read, acl_write, acl_execute, has_perm, bit}

-- An entry of an ACL, as the library keeps it.
pub record AclEntry : Type 0 where
  pub tag : Tag
  pub qual : ℕ
  pub perms : ℕ

abbrev pub AclList : Type 0
AclList = List AclEntry

-- A run that goes on, or has ended the program with a failure, in the state that it left.
pub data Run (W A : Type 0) : Type 0 where
  ok : A → Run W A
  failed : W → Run W A

infixl 5 ◌>>=◌
abbrev pub ◌>>=◌ : {W A B : Type 0} → Run W A → (A → Run W B) → Run W B
ok a >>= f = f a
failed w >>= f = failed w

-- The library and the file system. An ACL is the list of its entries in the order of
-- acl_get_entry(3); `create` gives it one more, at the place returned; `accepts` says whether the
-- calls that set the tag, the qualifier and the permissions of an entry succeed.
pub record Libacl : Type 1 where
  pub World : Type 0
  pub get_file : World → Bytes → Bool → Option AclList
  pub set_file : World → Bytes → Bool → AclList → Option World
  pub delete_default : World → Bytes → Option World
  pub create : AclList → Option (ℕ × AclList)
  pub delete : AclList → ℕ → Option AclList
  pub calc_mask : AclList → Option AclList
  pub is_valid : AclList → Bool
  pub accepts : AclEntry → Bool

abbrev pub tag_code : Tag → ℕ
tag_code user_obj = 0
tag_code user = 1
tag_code group_obj = 2
tag_code group = 3
tag_code mask = 4
tag_code other = 5

-- The tags whose qualifier counts.
abbrev pub is_qualified : ℕ → Bool
is_qualified t = t == 1 || t == 3

-- An entry of tag `a` with qualifier `x` is the one of tag `b` with qualifier `y`.
abbrev pub matches : ℕ → ℕ → ℕ → ℕ → Bool
matches a x b y = a == b && (not (is_qualified b) || x == y)

abbrev pub fits : AclEntry → Tag → ℕ → Bool
fits e t q = matches (tag_code e.tag) e.qual (tag_code t) q

-- The place of the first entry that fits.
unfoldable pub find_entry : AclList → Tag → ℕ → Option ℕ
find_entry [] t q = none
find_entry (e ∷ es) t q =
    let rest = find_entry es t q in
    if fits e t q then some 0 else (elim rest [ none ↦ none | some j ↦ some (suc j) ])

-- The bits that `setPerms` adds to an empty set.
abbrev pub set_perms : ℕ → ℕ
set_perms perms =
    bit (has_perm perms acl_read) acl_read
    + bit (has_perm perms acl_write) acl_write
    + bit (has_perm perms acl_execute) acl_execute

-- The entry at a place is changed.
abbrev pub change_at : (AclEntry → AclEntry) → AclList → ℕ → AclList
change_at f [] j = []
change_at f (e ∷ es) zero = f e ∷ es
change_at f (e ∷ es) (suc j) = e ∷ change_at f es j

abbrev pub with_perms : ℕ → AclEntry → AclEntry
with_perms p e = record e { perms = set_perms p }

-- A new entry; the qualifier is set for the tags that have one.
abbrev pub new_entry : Entry → ℕ → AclEntry → AclEntry
new_entry s p e = record {
  tag = s.tag;
  qual = if is_qualified (tag_code s.tag) then s.qual else e.qual;
  perms = set_perms p;
}

-- The permissions of a parsed entry; the caller has asked for them.
abbrev pub perms_of : Entry → ℕ
perms_of s = elim s.perms [ none ↦ 0 | some p ↦ p ]

module _ (lib : Libacl) where
  open lib use {
    World, get_file, set_file, delete_default, create, delete, calc_mask, is_valid, accepts,
  }

  abbrev pub from_option : {A : Type 0} → World → Option A → Run World A
  from_option w none = failed w
  from_option w (some a) = ok a

  abbrev pub checked_set : World → AclEntry → AclList → Run World AclList
  checked_set w e es = if accepts e then ok es else failed w

  abbrev pub modify_entry : World → AclList → Entry → Option ℕ → Run World AclList
  modify_entry w es s (some j) = ok (change_at (with_perms (perms_of s)) es j)
  modify_entry w es s none = from_option w (create es) >>= λ r.
      checked_set w (record { tag = s.tag; qual = s.qual; perms = perms_of s })
        (change_at (new_entry s (perms_of s)) r.1 r.0)

  abbrev pub remove_entry : World → AclList → Option ℕ → Run World AclList
  remove_entry w es none = ok es
  remove_entry w es (some j) = from_option w (delete es j)

  -- The change for one parsed entry, for -x or -m.
  abbrev pub change : Bool → World → AclList → Entry → Run World AclList
  change true w es s = remove_entry w es (find_entry es s.tag s.qual)
  change false w es s = modify_entry w es s (find_entry es s.tag s.qual)

  abbrev pub recalculated : Bool → World → AclList → Run World AclList
  recalculated true w es = from_option w (calc_mask es)
  recalculated false w es = ok es

  -- The file gets the ACL after every entry.
  abbrev pub store : Bytes → Bool → World → AclList → Run World (World × AclList)
  store file is_default w es =
      if is_valid es
      then (from_option w (set_file w file is_default es) >>= λ w'. ok (w', es))
      else failed w

  unfoldable pub update_entry :
      Bool → Bool → Bytes → Bool → World × AclList → Entry → Run World (World × AclList)
  update_entry remove recalc file is_default (w, es) s = change remove w es s >>= λ es1.
      recalculated recalc w es1 >>= λ es2. store file is_default w es2

  pub update_entries :
      Bool → Bool → Bytes → Bool → World × AclList → List Entry → Run World (World × AclList)
  update_entries remove recalc file is_default s [] = ok s
  update_entries remove recalc file is_default s (e ∷ es) =
      update_entry remove recalc file is_default s e >>= λ s'.
      update_entries remove recalc file is_default s' es

  abbrev pub update_file : Bool → Bool → Bool → List Entry → World → Bytes → Run World World
  update_file remove recalc is_default es w file =
      from_option w (get_file w file is_default) >>= λ acl.
      update_entries remove recalc file is_default (w, acl) es >>= λ r. ok r.0

  pub update_files : (World → Bytes → Run World World) → World → List Bytes → Run World World
  update_files f w [] = ok w
  update_files f w (file ∷ files) = f w file >>= λ w'. update_files f w' files

  abbrev pub parsed : World → Option (List Entry) → (List Entry → Run World World) → Run World World
  parsed w none f = failed w
  parsed w (some es) f = f es

-- The options of the command line; exactly one of -m, -x, -k and -V.
pub data Request : Type 0 where
  modify_acl remove_acl check_acl : Bytes → Request
  remove_default : Request

module _ (getpwnam getgrnam : Bytes → Option ℕ) (lib : Libacl) where
  open lib use {World, delete_default}

  -- `main` behind the options: the request, -n was not given, -d was given, and the files.
  pub main : Request → Bool → Bool → List Bytes → World → Run World World
  main (check_acl spec) recalc is_default files w =
      if is_default
      then failed w
      else parsed lib w (parse_acl getpwnam getgrnam spec true) (λ es. ok w)
  main (modify_acl spec) recalc is_default files w =
      parsed lib w (parse_acl getpwnam getgrnam spec true)
        (λ es. update_files lib (update_file lib false recalc is_default es) w files)
  main (remove_acl spec) recalc is_default files w =
      parsed lib w (parse_acl getpwnam getgrnam spec false)
        (λ es. update_files lib (update_file lib true recalc is_default es) w files)
  main remove_default recalc is_default files w =
      update_files lib (λ w' file. from_option lib w' (delete_default w' file)) w files

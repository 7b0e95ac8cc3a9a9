-- ===== src/Acl/Update/Tests.antt =====
-- The update of one file's ACL.
use bookcode_linux.Common.{
  ℕ, ◌<◌, ◌≡◌, ◌≢◌, refl, subst, true, false, Option, none, some, [], ◌∷◌, Bytes, codes, length,
  arith,
}
use bookcode_linux.Acl.{user_obj, user, mask, other, Entry}
use bookcode_linux.Acl.Update.{AclList, ok, Libacl, find_entry, update_entry}
use bookcode_linux.Acl.Update.Find.{without, lookup}
use bookcode_linux.Numbers.Strtol.{strtol, digits}
use bookcode_linux.Accounts.{id_from_name}
use bookcode_linux.Acl.Perms.{reads, writes}
use bookcode_linux.Acl.Laws.{Item}
use bookcode_linux.Acl.Spec.{spec_text, entries_of}
use bookcode_linux.Acl.Update.{main, modify_acl}
use bookcode_linux.Acl.Update.Main.{granted, Updated, main-Updated}
use bookcode_linux.Acl.Update.Laws.{Documented, Goes}

-- A machine with one file; a new entry comes first, and the mask is left as it is.
abbrev one_file : Libacl
one_file = record {
  World = AclList;
  get_file = λ w file d. some w;
  set_file = λ w file d es. some es;
  delete_default = λ w file. some w;
  create = λ es. some (0, record { tag = other; qual = 0; perms = 0 } ∷ es);
  delete = λ es j. some (without es j);
  calc_mask = λ es. some es;
  is_valid = λ es. true;
  accepts = λ e. true;
}

one_file-Documented : Documented one_file
one_file-Documented = record {
  creates = λ es es' j e.
      subst
        (λ (o : Option (ℕ × AclList)). elim o [
          | none ↦ Unit
          | some r ↦ (r.0 < length r.1) × (without r.1 r.0 ≡ es)
        ])
        e (omega arith, refl);
  masks = λ es es' t q e n.
      subst (λ (o : Option AclList). elim o [ none ↦ Unit | some r ↦ lookup t q r ≡ lookup t q es ])
        e refl;
  sets = λ w w' file d es e.
      subst (λ (o : Option AclList). elim o [ none ↦ Unit | some r ↦ some r ≡ some es ]) e refl;
}

abbrev file : Bytes
file = codes "f"

abbrev acl : AclList
acl =
    record { tag = user_obj; qual = 0; perms = 7 } ∷ record { tag = user; qual = 5; perms = 4 } ∷ []

abbrev user_nine : Entry
user_nine = record { tag = user; qual = 9; perms = some 6 }

-- An entry that is not there is made, with its qualifier.
made :
    update_entry one_file false true file false (acl, acl) user_nine
    ≡ ok (
      record { tag = user; qual = 9; perms = 6 } ∷ acl,
      record { tag = user; qual = 9; perms = 6 } ∷ acl,
    )
unfolding update_entry find_entry
made = refl

user_mask : user ≢ mask
user_mask e = ground arith

abbrev nobody : Bytes → Option ℕ
nobody name = none

abbrev nine : Item
nine = record { tag = user; long = false; qual = codes "9"; perms = (writes, reads ∷ []) }

main-Updated_example :
    Goes one_file file false
      (Updated one_file one_file-Documented file false user 9
        (granted (entries_of ((nine, 9) ∷ [])) user 9 (lookup user 9 acl)))
      (main nobody nobody one_file (modify_acl (spec_text (nine, 9) [])) true false (file ∷ []) acl)
unfolding id_from_name strtol digits
main-Updated_example =
    main-Updated one_file one_file-Documented nobody nobody true false file acl acl (nine, 9) []
      user 9 (((refl, tt), (refl, tt), refl), tt) (omega arith) refl user_mask

-- ===== src/Acl/Tests.antt =====
-- ACL specifications.
use bookcode_linux.Common.{
  ℕ, ◌≡◌, refl, true, false, Option, none, some, [], ◌∷◌, Bytes, bytes_eq, codes, if◌then◌else◌,
  arith,
}
use bookcode_linux.Numbers.Strtol.{strtol, digits}
use bookcode_linux.Accounts.{id_from_name}
use bookcode_linux.Acl.Perms.{parse_perms, reads, writes, executes, dash}
use bookcode_linux.Acl.{user, group, mask, parse_entry_spec, parse_entries, split, parse_acl}
use bookcode_linux.Acl.Laws.{Item}
use bookcode_linux.Acl.Spec.{spec_text, entries_of, parse_acl-text}

-- One account is known.
abbrev accounts : Bytes → Option ℕ
accounts name = if bytes_eq name (codes "ann") then some 1000 else none

abbrev first : Item
first = record { tag = user; long = false; qual = codes "ann"; perms = (reads, writes ∷ dash ∷ []) }

abbrev second : Item
second = record {
  tag = mask;
  long = true;
  qual = [];
  perms = (executes, reads ∷ executes ∷ dash ∷ []);
}

text_of_two : spec_text (first, 1000) ((second, 0) ∷ []) ≡ codes "u:ann:rw-,mask::xrx-"
text_of_two = refl

-- A permission string is not read to its end for duplicates, and a bad character is refused.
bad_perms : parse_acl accounts accounts (codes "u::rz") true ≡ none
unfolding parse_acl parse_entries parse_entry_spec parse_perms split
bad_perms = refl

number_as_name :
    parse_acl accounts accounts (codes "g:7:r") true
    ≡ some (record { tag = group; qual = 7; perms = some 4 } ∷ [])
unfolding parse_acl parse_entries parse_entry_spec parse_perms split id_from_name strtol digits
number_as_name = refl

parse_acl-text_example :
    parse_acl accounts accounts (spec_text (first, 1000) ((second, 0) ∷ [])) true
    ≡ some (entries_of ((first, 1000) ∷ (second, 0) ∷ []))
unfolding id_from_name strtol digits
parse_acl-text_example =
    parse_acl-text accounts accounts (first, 1000) ((second, 0) ∷ [])
      (((refl, (refl, (refl, tt))), (refl, (refl, (refl, tt))), refl), (tt, tt)) (omega arith)

-- ===== src/Accounts.antt =====
-- userIdFromName() and groupIdFromName() of TLPI/ch08-users_groups/ugid_functions.c.
use bookcode_linux.Common.{ℕ, ◌-◌, ◌%◌, ◌^◌, Option, none, some, [], ◌∷◌, Bytes, if◌then◌else◌}
use bookcode_linux.Common.Int.{ℤ, pos, negsuc}
use bookcode_linux.Numbers.{is_empty}
use bookcode_linux.Numbers.Strtol.{strtol}

-- `(uid_t) -1`, on 32 bits.
abbrev pub no_id : ℕ
no_id = 2 ^ 32 - 1

-- The cast of a `long` to an unsigned `int`.
abbrev pub to_unsigned : ℤ → ℕ
to_unsigned (pos n) = n % 2 ^ 32
to_unsigned (negsuc n) = 2 ^ 32 - 1 - n % 2 ^ 32

abbrev pub found_id : Option ℕ → ℕ
found_id none = no_id
found_id (some i) = i

-- The two functions differ in the database that they look a name up in.
unfoldable pub id_from_name : (Bytes → Option ℕ) → Option Bytes → ℕ
id_from_name find none = no_id
id_from_name find (some []) = no_id
id_from_name find (some (c ∷ name)) =
    if is_empty (strtol 10 (c ∷ name)).rest
    then to_unsigned (strtol 10 (c ∷ name)).value
    else found_id (find (c ∷ name))

abbrev pub user_id_from_name : (Bytes → Option ℕ) → Option Bytes → ℕ
user_id_from_name getpwnam name = id_from_name getpwnam name

abbrev pub group_id_from_name : (Bytes → Option ℕ) → Option Bytes → ℕ
group_id_from_name getgrnam name = id_from_name getgrnam name

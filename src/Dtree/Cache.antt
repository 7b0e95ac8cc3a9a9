-- ===== src/Dtree/Cache.antt =====
-- The watch cache of inotify_dtree.c: an array that is searched linearly.
pub mod Lookup
pub mod Unique
pub mod Subtree
pub mod Renamed
pub mod Map
mod Tests
use bookcode_linux.Common.{
  ℕ, suc, ◌+◌, ◌-◌, Bool, true, false, ◌&&◌, ◌||◌, Option, none, some, List, [], ◌∷◌, ◌++◌, Bytes,
  length, take, drop, get_elem?, set, replicate, bytes_eq, starts_with, ◌==◌, if◌then◌else◌,
}
use bookcode_linux.Common.Int.{ℤ, pos, negsuc, eq_ℤ, is_nonneg, minus_one}

abbrev pub path_max : ℕ
path_max = 4096

abbrev pub slash : ℕ
slash = b'/'

-- `struct watch`: a watch descriptor, -1 if the slot is unused, and a pathname.
pub record Watch : Type 0 where
  pub wd : ℤ
  pub path : Bytes

-- The array; `cacheSize` is its length.
abbrev pub Cache : Type 0
Cache = List Watch

abbrev pub unused : Watch
unused = record { wd = minus_one; path = [] }

abbrev pub is_used : Watch → Bool
is_used x = is_nonneg x.wd

abbrev pub find_watch_from : ℤ → ℕ → Cache → ℤ
find_watch_from wd j [] = minus_one
find_watch_from wd j (x ∷ c) = if eq_ℤ x.wd wd then pos j else find_watch_from wd (j + 1) c

unfoldable pub find_watch : ℤ → Cache → ℤ
find_watch wd c = find_watch_from wd 0 c

pub mark_cache_slot_empty : ℕ → Cache → Cache
mark_cache_slot_empty slot c = set c slot unused

abbrev pub alloc_incr : ℕ
alloc_incr = 200

-- The first unused slot from `j` on, or `none`.
abbrev pub unused_slot_from : ℕ → Cache → Option ℕ
unused_slot_from j [] = none
unused_slot_from j (x ∷ c) = if eq_ℤ x.wd minus_one then some j else unused_slot_from (j + 1) c

-- The slot, in the cache or in its extension by `alloc_incr` unused slots.
abbrev pub slot_or_grow : Option ℕ → Cache → ℕ × Cache
slot_or_grow (some j) c = (j, c)
slot_or_grow none c = (length c, c ++ replicate alloc_incr unused)

unfoldable pub find_empty_cache_slot : Cache → ℕ × Cache
find_empty_cache_slot c = slot_or_grow (unused_slot_from 0 c) c

-- `strncpy` copies at most `path_max` bytes. A pathname that long gets no null byte; the model then
-- ends it with the array, where the program reads on behind it.
unfoldable pub add_watch_to_cache : ℤ → Bytes → Cache → ℕ × Cache
add_watch_to_cache wd pathname c =
    let (slot, c') = find_empty_cache_slot c in
    (slot, set c' slot (record { wd = wd; path = take path_max pathname }))

abbrev pub pathname_to_cache_slot_from : Bytes → ℕ → Cache → ℤ
pathname_to_cache_slot_from p j [] = minus_one
pathname_to_cache_slot_from p j (x ∷ c) =
    if is_used x && bytes_eq x.path p then pos j else pathname_to_cache_slot_from p (j + 1) c

pub pathname_to_cache_slot : Bytes → Cache → ℤ
pathname_to_cache_slot p c = pathname_to_cache_slot_from p 0 c

pub pathname_in_cache : Bytes → Cache → Bool
pathname_in_cache p c = is_nonneg (pathname_to_cache_slot p c)

-- The lines `slot: wd path` that the dump writes, and the count behind them.
abbrev pub used_entries_from : ℕ → Cache → List (ℕ × Watch)
used_entries_from j [] = []
used_entries_from j (x ∷ c) =
    if is_used x then (j, x) ∷ used_entries_from (j + 1) c else used_entries_from (j + 1) c

pub dump_cache_to_log : Cache → List (ℕ × Watch) × ℕ
dump_cache_to_log c = (used_entries_from 0 c, length (used_entries_from 0 c))

-- `snprintf(buf, path_max, "%s/%s", prefix, name)`
abbrev pub join_path : Bytes → Bytes → Bytes
join_path prefix name = take (path_max - 1) (prefix ++ slash ∷ name)

-- `snprintf` of the same into a buffer of PATH_MAX + NAME_MAX bytes.
abbrev pub event_path : Bytes → Bytes → Bytes
event_path dir name = take (path_max + 255 - 1) (dir ++ slash ∷ name)

-- `s[i] == '/' || s[i] == '\0'`
abbrev pub is_boundary : Option ℕ → Bool
is_boundary none = true
is_boundary (some c) = c == slash

-- The test that `path` is the directory `dir` or lies below it.
abbrev pub in_subtree : Bytes → Bytes → Bool
in_subtree dir path = starts_with dir path && is_boundary (get_elem? path (length dir))

-- One entry of the loop of `rewriteCachedPaths`.
abbrev pub rewrite_path : Bytes → Bytes → Bytes → Bytes
rewrite_path full new_prefix path =
    if in_subtree full path
    then take (path_max - 1) (new_prefix ++ drop (length full) path)
    else path

abbrev pub rewrite_from : Bytes → Bytes → Cache → Cache
rewrite_from full new_prefix [] = []
rewrite_from full new_prefix (x ∷ c) =
    record x { path = rewrite_path full new_prefix x.path } ∷ rewrite_from full new_prefix c

pub rewrite_cached_paths : Bytes → Bytes → Bytes → Bytes → Cache → Cache
rewrite_cached_paths old_prefix old_name new_prefix new_name c =
    rewrite_from (join_path old_prefix old_name) (join_path new_prefix new_name) c

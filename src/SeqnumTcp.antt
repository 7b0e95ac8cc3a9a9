-- ===== src/SeqnumTcp.antt =====
-- The servers TLPI/sockets/is_seqnum_sv.c and is_seqnum_v2_sv.c, which hand out sequence numbers to
-- clients that send a line.
pub mod Order
pub mod Laws
mod Tests
use bookcode_linux.Common.{
  ℕ, zero, suc, ◌+◌, ◌-◌, ◌%◌, ◌^◌, Option, none, some, Bool, true, false, List, [], ◌∷◌, Bytes,
}
use bookcode_linux.Common.Int.{ℤ, pos, negsuc}
use bookcode_linux.Io.Posix.{Stream, Ret, done, fail}
use bookcode_linux.Io.Line.{Line, read_line}
use bookcode_linux.Numbers.{get_int}
use bookcode_linux.Timer.{atoi, of_bits}

abbrev pub int_len : ℕ
int_len = 30

-- `uint32_t`
abbrev pub as_uint : ℤ → ℕ
as_uint (pos n) = n % 2 ^ 32
as_uint (negsuc n) = 2 ^ 32 - 1 - n % 2 ^ 32

-- The first value of `seqNum`: getInt() of the argument, or 0.
unfoldable pub init_seq_num : Option Bytes → Option ℕ
init_seq_num none = some 0
init_seq_num (some arg) = elim (get_int (some arg) 0) [ none ↦ none | some v ↦ some (as_uint v) ]

-- What a round of the loop of `main` gets: accept(2) fails, or a client is connected, with what it
-- sends, and whether the response can be written whole.
pub data Event : Type 0 where
  accept_fails : Event
  connected : Stream → Bool → Event

-- A range that is handed out: the first number as it is held, and as `%d` prints it; its length;
-- and whether the client has got it.
pub record Grant : Type 0 where
  pub first : ℕ
  pub printed : ℤ
  pub len : ℕ
  pub delivered : Bool

-- `atoi`, if the value is above 0.
abbrev pub positive : ℤ → Option ℕ
positive (pos zero) = none
positive (pos (suc n)) = some (suc n)
positive (negsuc n) = none

abbrev pub length_of : Ret → Bytes → Option ℕ
length_of (fail e) buf = none
length_of (done zero) buf = none
length_of (done (suc k)) buf = positive (atoi buf)

-- The length that a client asks for; the inner none is a request that is skipped.
unfoldable pub req_len : Stream → Option (Option ℕ)
req_len cfd = elim (read_line int_len cfd) [ none ↦ none | some l ↦ some (length_of l.ret l.buf) ]

abbrev pub and_then : Grant → Option (List Grant) → Option (List Grant)
and_then g none = none
and_then g (some gs) = some (g ∷ gs)

-- The rest of the round, and the rounds behind it from a value of `seqNum`.
abbrev pub respond : (ℕ → Option (List Grant)) → ℕ → Bool → Option (Option ℕ) → Option (List Grant)
respond next seq_num ok none = none
respond next seq_num ok (some none) = next seq_num
respond next seq_num ok (some (some len)) =
    and_then (record { first = seq_num; printed = of_bits seq_num; len = len; delivered = ok })
      (next ((seq_num + len) % 2 ^ 32))

unfoldable pub serve : ℕ → List Event → Option (List Grant)
unfolding req_len
serve seq_num [] = some []
serve seq_num (accept_fails ∷ events) = serve seq_num events
serve seq_num (connected cfd ok ∷ events) = respond (λ n. serve n events) seq_num ok (req_len cfd)

-- ===== src/Seqnum.antt =====
-- The server TLPI/pipes/fifo_seqnum_server.c, which hands out sequence numbers.
pub mod Laws
mod Tests
use bookcode_linux.Common.{ℕ, ◌+◌, ◌%◌, ◌^◌, Bool, true, false, List, [], ◌∷◌}

-- `struct request`: the client, and the length of the sequence, an `int` as its 32 bits.
pub record Request : Type 0 where
  pub pid : ℕ
  pub seq_len : ℕ

-- What the system calls of one round return: a request is not read whole; the client's FIFO does
-- not open; or the response is written, whole or not.
pub data Round : Type 0 where
  partial_read : Round
  open_fails : Request → Round
  responds : Request → Bool → Round

-- A response that was written: the client, the first number, and the length that was asked for.
pub record Grant : Type 0 where
  pub client : ℕ
  pub first : ℕ
  pub len : ℕ

-- `seqNum += req.seqLen` on 32 bits.
abbrev pub add_int : ℕ → ℕ → ℕ
add_int a b = (a + b) % 2 ^ 32

abbrev pub written : Bool → Grant → List Grant → List Grant
written true g gs = g ∷ gs
written false g gs = gs

-- The loop of `main` over the rounds, from a value of `seqNum`.
unfoldable pub serve : ℕ → List Round → List Grant
serve seq_num [] = []
serve seq_num (partial_read ∷ rounds) = serve seq_num rounds
serve seq_num (open_fails req ∷ rounds) = serve seq_num rounds
serve seq_num (responds req ok ∷ rounds) =
    written ok (record { client = req.pid; first = seq_num; len = req.seq_len })
      (serve (add_int seq_num req.seq_len) rounds)

-- `int seqNum = 0;`
unfoldable pub server : List Round → List Grant
unfolding serve
server rounds = serve 0 rounds

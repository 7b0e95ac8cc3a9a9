-- ===== src/Seqnum/Laws.antt =====
-- Which numbers the server hands out.
use bookcode_linux.Common.{ℕ, ◌+◌, ◌≤◌, ◌<◌, ◌≡◌, ◌^◌, Bool, true, false, List, [], ◌∷◌, arith}
use bookcode_linux.Seqnum.{
  Round, partial_read, open_fails, responds, Grant, add_int, written, serve, server,
}

-- The lengths of the requests that a response is attempted for.
unfoldable pub requested : List Round → ℕ
requested [] = 0
requested (partial_read ∷ rounds) = requested rounds
requested (open_fails req ∷ rounds) = requested rounds
requested (responds req ok ∷ rounds) = req.seq_len + requested rounds

-- The ranges follow one another from `lo` on, without overlap, and end by `hi`.
abbrev pub InOrder : ℕ → ℕ → List Grant → Type 0
InOrder lo hi [] = lo ≤ hi
InOrder lo hi (g ∷ gs) = (lo ≤ g.first) × InOrder (g.first + g.len) hi gs

weaken : (lo lo' hi : ℕ) (gs : List Grant) → lo ≤ lo' → InOrder lo' hi gs → InOrder lo hi gs
weaken lo lo' hi [] h k = omega arith
weaken lo lo' hi (g ∷ gs) h k = (omega arith, k.1)

add_int_small : (a b : ℕ) → a + b < 2 ^ 31 → add_int a b ≡ a + b
add_int_small a b h = omega arith

serve-InOrder :
    (n hi : ℕ) (rounds : List Round)
    → n + requested rounds ≤ hi
    → hi < 2 ^ 31
    → InOrder n hi (serve n rounds)
unfolding serve requested
serve-InOrder n hi [] h k = omega arith
serve-InOrder n hi (partial_read ∷ rounds) h k = serve-InOrder n hi rounds h k
serve-InOrder n hi (open_fails req ∷ rounds) h k = serve-InOrder n hi rounds h k
serve-InOrder n hi (responds req ok ∷ rounds) h k =
    rw (add_int_small n req.seq_len (omega arith))
      (granted ok _ (serve-InOrder (n + req.seq_len) hi rounds (omega arith) k))
  where
    granted :
        (ok : Bool) (gs : List Grant)
        → InOrder (n + req.seq_len) hi gs
        → InOrder n hi (written ok (record { client = req.pid; first = n; len = req.seq_len }) gs)
    granted true gs i = (omega arith, i)
    granted false gs i = weaken n (n + req.seq_len) hi gs (omega arith) i

-- As long as the lengths asked for add up to less than 2^31, the ranges that the server hands out
-- do not overlap: they follow one another, below the sum of the lengths, whatever reads, opens and
-- writes fail.
pub server-InOrder :
    (rounds : List Round) → requested rounds < 2 ^ 31 → InOrder 0 (requested rounds) (server rounds)
unfolding server
server-InOrder rounds h = serve-InOrder 0 (requested rounds) rounds (omega arith) h

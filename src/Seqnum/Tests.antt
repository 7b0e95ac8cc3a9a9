-- ===== src/Seqnum/Tests.antt =====
-- The server on a few rounds.
use bookcode_linux.Common.{◌≡◌, refl, true, List, [], ◌∷◌, arith}
use bookcode_linux.Seqnum.{Round, partial_read, open_fails, responds, serve, server}
use bookcode_linux.Seqnum.Laws.{requested, InOrder, server-InOrder}

abbrev rounds : List Round
rounds =
    responds (record { pid = 7; seq_len = 5 }) true
    ∷ partial_read
    ∷ open_fails (record { pid = 8; seq_len = 9 })
    ∷ responds (record { pid = 9; seq_len = 2 }) true
    ∷ []

server_two :
    server rounds
    ≡ record { client = 7; first = 0; len = 5 } ∷ record { client = 9; first = 5; len = 2 } ∷ []
unfolding server serve
server_two = refl

abbrev negative : List Round
negative =
    responds (record { pid = 7; seq_len = 5 }) true
    ∷ responds (record { pid = 8; seq_len = 4294967291 }) true
    ∷ responds (record { pid = 9; seq_len = 5 }) true
    ∷ []

-- A negative length, as its 32 bits, makes the server hand out numbers twice.
server_twice :
    server negative
    ≡ record { client = 7; first = 0; len = 5 }
      ∷ record { client = 8; first = 5; len = 4294967291 }
      ∷ record { client = 9; first = 0; len = 5 }
      ∷ []
unfolding server serve
server_twice = refl

server-InOrder_example : InOrder 0 (requested rounds) (server rounds)
unfolding requested
server-InOrder_example = server-InOrder rounds (omega arith)

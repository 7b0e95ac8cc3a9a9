-- ===== src/SeqnumTcp/Tests.antt =====
-- Runs of the sequence-number servers over TCP.
use bookcode_linux.Common.{
  ◌+◌, ◌≡◌, ◌^◌, refl, some, true, false, List, [], ◌∷◌, codes, arith, Ends,
}
use bookcode_linux.Common.Int.{negsuc}
use bookcode_linux.Io.Posix.{deliver, interrupted}
use bookcode_linux.Io.Line.{read_line}
use bookcode_linux.Numbers.Strtol.{strtol, digits}
use bookcode_linux.Timer.{atoi}
use bookcode_linux.SeqnumTcp.{Event, accept_fails, connected, serve, req_len}
use bookcode_linux.SeqnumTcp.Order.{Follow, requested, serve-Follow}
use bookcode_linux.SeqnumTcp.Laws.{Client, events, grants, serve-grants}

-- A client that asks for a negative length is skipped; numbers from 2^31 on are printed as
-- negative.
skips_and_wraps :
    serve
      (2 ^ 31)
      (connected (codes "-5\n", []) true ∷ accept_fails ∷ connected (codes "2\n", []) true ∷ [])
    ≡ some
        (record { first = 2147483648; printed = negsuc 2147483647; len = 2; delivered = true } ∷ [])
unfolding serve strtol digits atoi read_line
skips_and_wraps = refl

abbrev visits : List Event
visits = accept_fails ∷ connected (codes "3\n", deliver 0 ∷ interrupted ∷ []) true ∷ []

three : requested visits ≡ 3
unfolding requested req_len strtol digits atoi read_line
three = refl

serve-Follow_example : Ends (Follow 7 (7 + requested visits)) (serve 7 visits)
serve-Follow_example = serve-Follow 7 visits (omega (arith, three))

abbrev first : Client
first = record { num = (1, 2 ∷ []); rest = []; turns = deliver 0 ∷ interrupted ∷ []; ok = true }

abbrev second : Client
second = record { num = (3, []); rest = codes "more"; turns = []; ok = false }

serve-grants_example :
    serve 0 (events (first ∷ second ∷ [])) ≡ some (grants 0 (first ∷ second ∷ []))
serve-grants_example = serve-grants 0 (first ∷ second ∷ []) (
  (((omega arith, (omega arith, tt)), omega arith, omega arith, omega arith), tt),
  ((((omega arith, tt), omega arith, omega arith, omega arith), tt), tt),
)

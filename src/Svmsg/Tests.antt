-- ===== src/Svmsg/Tests.antt =====
-- Runs of the file server and its client.
use bookcode_linux.Common.{◌≡◌, refl, some, true, List, [], ◌∷◌, Bytes, codes, Ends}
use bookcode_linux.Io.Posix.{Turn, deliver, interrupted}
use bookcode_linux.Svmsg.{
  serve_request, answered, totals, refused, Request, server, received, fork_fails, Event,
}
use bookcode_linux.Svmsg
use bookcode_linux.Svmsg.Laws.{serve_request_lem, Counted}

abbrev text : Bytes
text = codes "abcde"

-- A short read, then the rest.
abbrev short : List Turn
short = deliver 1 ∷ []

two_blocks : answered (serve_request (some (text, short)) ([], [])) ≡ some (totals 5 3)
unfolding serve_request Svmsg.client Svmsg.collect
two_blocks = refl

-- An interrupted read ends the file early, and the client cannot tell.
cut_short :
    answered (serve_request (some (text, deliver 1 ∷ interrupted ∷ [])) ([], []))
    ≡ some (totals 2 2)
unfolding serve_request Svmsg.client Svmsg.collect
cut_short = refl

serve_request_lem_example :
    Ends (Counted text short (true ∷ [])) (serve_request (some (text, short)) ([], true ∷ []))
serve_request_lem_example = serve_request_lem text short (true ∷ [])

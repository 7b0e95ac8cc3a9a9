-- ===== src/Inet/Tests.antt =====
-- Runs of the socket functions.
use bookcode_linux.Common.{◌≡◌, refl, some, none, true, false, List, [], ◌∷◌, codes}
use bookcode_linux.Inet.{
  Addr, Opened, inet_connect, inet_listen, inet_passive_socket, inet_address_str,
}
use bookcode_linux.Inet
use bookcode_linux.Inet.Laws.{inet_passive_socket-Bound, Bound}

-- An address whose socket does not bind, then one that does but on which listen(2) fails.
abbrev taken : Addr
taken = record { addrlen = 28; socket = some 4; reuses = true; works = false; listens = true }

abbrev deaf : Addr
deaf = record { addrlen = 16; socket = some 5; reuses = true; works = true; listens = false }

abbrev addrs : List Addr
addrs = taken ∷ deaf ∷ []

connects :
    inet_connect (some addrs) (3 ∷ []) ≡ record { sfd = some 5; stored = none; fds = 5 ∷ 3 ∷ [] }
unfolding inet_connect Inet.connect_first
connects = refl

-- listen(2) fails: -1 is returned and the socket stays open.
leaks :
    inet_listen true (some addrs) (3 ∷ []) ≡ record { sfd = none; stored = none; fds = 5 ∷ 3 ∷ [] }
unfolding inet_passive_socket Inet.bind_first
leaks = refl

address_cut : inet_address_str (some (codes "host", codes "80")) 8 ≡ codes "(host, "
address_cut = refl

inet_passive_socket-Bound_example :
    Bound true addrs (3 ∷ []) (inet_passive_socket true true (some addrs) (3 ∷ []))
    × (inet_connect (some addrs) (3 ∷ []) ≡ inet_passive_socket false false (some addrs) (3 ∷ []))
inet_passive_socket-Bound_example = inet_passive_socket-Bound true addrs (3 ∷ [])

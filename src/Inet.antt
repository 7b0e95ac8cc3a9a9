-- ===== src/Inet.antt =====
-- inetConnect(), inetBind(), inetListen() and inetAddressStr() of TLPI/sockets/inet_sockets.c.
pub mod Laws
mod Tests
use bookcode_linux.Common.{
  ℕ, ◌-◌, Bool, true, false, not, ◌&&◌, Option, none, some, List, [], ◌∷◌, ◌++◌, Bytes, codes, take,
  ◌==◌, if◌then◌else◌,
}

-- An entry of the list that getaddrinfo(3) returns, with what the calls on it give: the descriptor
-- of socket(2), and whether setsockopt(2), connect(2) or bind(2), and listen(2) succeed.
pub record Addr : Type 0 where
  pub addrlen : ℕ
  pub socket : Option ℕ
  pub reuses : Bool
  pub works : Bool
  pub listens : Bool

-- `close(fd)` on the table of open descriptors.
abbrev pub close : ℕ → List ℕ → List ℕ
close fd [] = []
close fd (x ∷ fds) = if x == fd then fds else x ∷ close fd fds

-- What a function leaves: the descriptor returned, none for -1; the address length it stores, if it
-- does; and the open descriptors.
pub record Opened : Type 0 where
  pub sfd : Option ℕ
  pub stored : Option ℕ
  pub fds : List ℕ

abbrev pub minus_one : List ℕ → Opened
minus_one fds = record { sfd = none; stored = none; fds = fds }

abbrev pub socket_of : ℕ → List ℕ → Opened
socket_of fd fds = record { sfd = some fd; stored = none; fds = fds }

-- What the loop of `inetConnect` does with what socket(2) gives; `next` is the loop behind.
abbrev pub connect_at : Addr → (List ℕ → Opened) → List ℕ → Option ℕ → Opened
connect_at rp next fds none = next fds
connect_at rp next fds (some fd) =
    if rp.works then socket_of fd (fd ∷ fds) else next (close fd (fd ∷ fds))

unfoldable pub connect_first : List Addr → List ℕ → Opened
connect_first [] fds = minus_one fds
connect_first (rp ∷ rest) fds = connect_at rp (connect_first rest) fds rp.socket

-- getaddrinfo(3) gives a list, or fails.
unfoldable pub inet_connect : Option (List Addr) → List ℕ → Opened
inet_connect none fds = minus_one fds
inet_connect (some result) fds = connect_first result fds

-- Behind the loop of `inetPassiveSocket`, with an address found.
abbrev pub listen_on : Bool → Addr → ℕ → List ℕ → Opened
listen_on do_listen rp fd fds =
    if do_listen && not rp.listens
    then minus_one fds
    else record { sfd = some fd; stored = some rp.addrlen; fds = fds }

-- What the loop of `inetPassiveSocket` does with what socket(2) gives.
abbrev pub bind_at : Bool → Addr → (List ℕ → Opened) → List ℕ → Option ℕ → Opened
bind_at do_listen rp next fds none = next fds
bind_at do_listen rp next fds (some fd) =
    if do_listen && not rp.reuses
    then minus_one (close fd (fd ∷ fds))
    else if rp.works
    then listen_on do_listen rp fd (fd ∷ fds)
    else next (close fd (fd ∷ fds))

unfoldable pub bind_first : Bool → List Addr → List ℕ → Opened
bind_first do_listen [] fds = minus_one fds
bind_first do_listen (rp ∷ rest) fds =
    bind_at do_listen rp (bind_first do_listen rest) fds rp.socket

-- With a pointer for the address length or without.
unfoldable pub inet_passive_socket : Bool → Bool → Option (List Addr) → List ℕ → Opened
inet_passive_socket wants_len do_listen none fds = minus_one fds
inet_passive_socket wants_len do_listen (some result) fds =
    let r = bind_first do_listen result fds in if wants_len then r else record r { stored = none }

abbrev pub inet_listen : Bool → Option (List Addr) → List ℕ → Opened
inet_listen wants_len result fds = inet_passive_socket wants_len true result fds

abbrev pub inet_bind : Bool → Option (List Addr) → List ℕ → Opened
inet_bind wants_len result fds = inet_passive_socket wants_len false result fds

-- The text for a host and a service, as getnameinfo(3) gives them, in a buffer of a positive size.
abbrev pub inet_address_str : Option (Bytes × Bytes) → ℕ → Bytes
inet_address_str (some (host, service)) len =
    take (len - 1) (codes "(" ++ host ++ codes ", " ++ service ++ codes ")")
inet_address_str none len = take (len - 1) (codes "(?UNKNOWN?)")

-- ===== src/Inet/Laws.antt =====
-- The descriptors that the functions of TLPI/sockets/inet_sockets.c return and leave open.
use bookcode_linux.Common.{
  ℕ, Bool, true, false, not, ◌&&◌, Option, none, some, List, [], ◌∷◌, ◌++◌, ◌≡◌, refl, ◌⊎◌, inl,
  inr, All, ==-self, if_rule, if◌then◌else◌, ap, subst,
}
use bookcode_linux.Inet.{
  Addr, close, Opened, socket_of, connect_at, connect_first, inet_connect, bind_at, bind_first,
  listen_on, inet_passive_socket,
}

close-open : (fd : ℕ) (fds : List ℕ) → close fd (fd ∷ fds) ≡ fds
close-open fd fds = rw (close, ==-self fd) refl

-- The loop goes past the address: no socket of its family can be made, or the address does not
-- work.
abbrev pub Skipped : Bool → Addr → Type 0
Skipped do_listen rp =
    (rp.socket ≡ none) ⊎ ((rp.works ≡ false) × ((do_listen && not rp.reuses) ≡ false))

-- The first address that the loop does not go past.
abbrev pub FirstWith : (Addr → Type 0) → Bool → List Addr → Type 0
FirstWith P do_listen addrs =
    (pre : List Addr) × (rp : Addr) × (post : List Addr) × (addrs ≡ pre ++ rp ∷ post)
    × All (Skipped do_listen) pre
    × P rp

FirstWith-next :
    {P : Addr → Type 0} (do_listen : Bool) {addrs : List Addr} (rp : Addr)
    → Skipped do_listen rp
    → FirstWith P do_listen addrs
    → FirstWith P do_listen (rp ∷ addrs)
FirstWith-next do_listen rp skip (pre, x, post, e, all, p) =
    (rp ∷ pre, x, post, ap (◌∷◌ rp) e, (skip, all), p)

-- The address works, and the function returns its socket.
abbrev pub Returned : Bool → ℕ → Opened → Addr → Type 0
Returned do_listen fd r rp =
    (rp.socket ≡ some fd)
    × (rp.works ≡ true)
    × ((do_listen && not rp.reuses) ≡ false)
    × ((do_listen && not rp.listens) ≡ false)
    × (r.stored ≡ some rp.addrlen)

-- listen(2) fails on the socket.
abbrev pub Deaf : Bool → ℕ → Addr → Type 0
Deaf do_listen fd rp = (rp.socket ≡ some fd) × ((do_listen && not rp.listens) ≡ true)

abbrev pub Stuck : Bool → Addr → Type 0
Stuck do_listen rp = (do_listen && not rp.reuses) ≡ true

-- What the loop leaves, by the value returned.
abbrev pub Bound : Bool → List Addr → List ℕ → Opened → Type 0
Bound do_listen addrs fds r =
    ((fd : ℕ) × (r.sfd ≡ some fd)
      × (r.fds ≡ fd ∷ fds)
      × FirstWith (Returned do_listen fd r) do_listen addrs)
    ⊎ ((r.sfd ≡ none)
        × (r.stored ≡ none)
        × (((r.fds ≡ fds)
              × (All (Skipped do_listen) addrs ⊎ FirstWith (Stuck do_listen) do_listen addrs))
            ⊎ ((fd : ℕ) × (r.fds ≡ fd ∷ fds) × FirstWith (Deaf do_listen fd) do_listen addrs)))

Bound-next :
    (do_listen : Bool) {addrs : List Addr} {fds : List ℕ} {r : Opened} (rp : Addr)
    → Skipped do_listen rp
    → Bound do_listen addrs fds r
    → Bound do_listen (rp ∷ addrs) fds r
Bound-next do_listen rp skip (inl (fd, e, o, f)) =
    inl (fd, e, o, FirstWith-next do_listen rp skip f)
Bound-next do_listen rp skip (inr (e, s, inl (o, inl all))) = inr (e, s, inl (o, inl (skip, all)))
Bound-next do_listen rp skip (inr (e, s, inl (o, inr f))) =
    inr (e, s, inl (o, inr (FirstWith-next do_listen rp skip f)))
Bound-next do_listen rp skip (inr (e, s, inr (fd, o, f))) =
    inr (e, s, inr (fd, o, FirstWith-next do_listen rp skip f))

bind_at-Bound :
    (do_listen : Bool) (rp : Addr) (rest : List Addr) (next : List ℕ → Opened) (fds : List ℕ)
    → ((held : List ℕ) → Bound do_listen rest held (next held))
    → (o : Option ℕ) → rp.socket ≡ o
    → Bound do_listen (rp ∷ rest) fds (bind_at do_listen rp next fds o)
bind_at-Bound do_listen rp rest next fds behind none e =
    Bound-next do_listen rp (inl e) (behind fds)
bind_at-Bound do_listen rp rest next fds behind (some fd) e =
    if_rule Holds (do_listen && not rp.reuses)
      (λ t. inr (refl, refl, inl (close-open fd fds, inr ([], rp, rest, refl, tt, t))))
      (λ u.
        if_rule Holds rp.works
          (λ w.
            if_rule Holds (do_listen && not rp.listens)
              (λ t. inr (refl, refl, inr (fd, refl, ([], rp, rest, refl, tt, (e, t)))))
              (λ f. inl (fd, refl, refl, ([], rp, rest, refl, tt, (e, w, u, f, refl)))))
          (λ w. Bound-next do_listen rp (inr (w, u)) (
            subst (λ held. Bound do_listen rest held (next (close fd (fd ∷ fds))))
              (close-open fd fds) (behind (close fd (fd ∷ fds))))))
  where
    Holds : Opened → Type 0
    Holds = Bound do_listen (rp ∷ rest) fds

bind_first-Bound :
    (do_listen : Bool) (addrs : List Addr) (fds : List ℕ)
    → Bound do_listen addrs fds (bind_first do_listen addrs fds)
unfolding bind_first
bind_first-Bound do_listen [] fds = inr (refl, refl, inl (refl, inl tt))
bind_first-Bound do_listen (rp ∷ rest) fds =
    bind_at-Bound do_listen rp rest (bind_first do_listen rest) fds
      (bind_first-Bound do_listen rest) rp.socket refl

if-record :
    (b : Bool) (x y x' y' : Opened)
    → x ≡ record x' { stored = none }
    → y ≡ record y' { stored = none }
    → (if b then x else y) ≡ record (if b then x' else y') { stored = none }
if-record true x y x' y' e f = e
if-record false x y x' y' e f = f

-- inetConnect leaves what inetBind would that stores no length, for the same descriptors, if
-- connect(2) succeeds where bind(2) does.
connect_at-bind_at :
    (rp : Addr) (next_c next_b : List ℕ → Opened) (fds : List ℕ)
    → ((held : List ℕ) → next_c held ≡ record (next_b held) { stored = none })
    → (o : Option ℕ)
    → connect_at rp next_c fds o ≡ record (bind_at false rp next_b fds o) { stored = none }
connect_at-bind_at rp next_c next_b fds same none = same fds
connect_at-bind_at rp next_c next_b fds same (some fd) =
    if-record rp.works (socket_of fd (fd ∷ fds)) (next_c (close fd (fd ∷ fds)))
      (listen_on false rp fd (fd ∷ fds)) (next_b (close fd (fd ∷ fds))) refl
      (same (close fd (fd ∷ fds)))

connect_first-bind_first :
    (addrs : List Addr) (fds : List ℕ)
    → connect_first addrs fds ≡ record (bind_first false addrs fds) { stored = none }
unfolding connect_first bind_first
connect_first-bind_first [] fds = refl
connect_first-bind_first (rp ∷ rest) fds =
    connect_at-bind_at rp (connect_first rest) (bind_first false rest) fds
      (connect_first-bind_first rest) rp.socket

-- For every list of addresses and every outcome of the calls: inetPassiveSocket returns the socket
-- of the first address that it does not go past, with the length of that address, and leaves open
-- that socket and what was open before; it goes past an address if no socket can be made or bind(2)
-- fails. It returns -1 with what was open before if it goes past all of them, or if
-- SO_REUSEADDR is refused for a socket that is to listen. If listen(2) fails it returns -1, but the
-- socket stays open. inetConnect does the same as inetBind with connect(2) in the place of bind(2).
pub inet_passive_socket-Bound :
    (do_listen : Bool) (addrs : List Addr) (fds : List ℕ)
    → Bound do_listen addrs fds (inet_passive_socket true do_listen (some addrs) fds)
      × (inet_connect (some addrs) fds ≡ inet_passive_socket false false (some addrs) fds)
unfolding inet_passive_socket inet_connect
inet_passive_socket-Bound do_listen addrs fds =
    (bind_first-Bound do_listen addrs fds, connect_first-bind_first addrs fds)

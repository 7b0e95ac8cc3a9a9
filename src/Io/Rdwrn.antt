-- ===== src/Io/Rdwrn.antt =====
-- readn() and writen() of TLPI/sockets/rdwrn.c.
pub mod Laws
pub mod WriteLaws
use bookcode_linux.Common.{
  ℕ, zero, suc, ◌+◌, ◌-◌, Option, none, some, true, false, List, [], ◌∷◌, ◌++◌, Bytes, length, drop,
  ltb, ◌==◌, if◌then◌else◌, Next, again, stop, loop,
}
use bookcode_linux.Io.Posix.{
  Stream, Sink, Ret, done, fail, Got, Put, got, error, put, refused, read, write, eintr,
}

-- What `readn` does with the outcome of one `read`.
abbrev pub readn_turn : ℕ → Bytes → Got × Stream → Next (ℕ × Bytes × Stream) (Ret × Bytes × Stream)
readn_turn tot buf (got [], s) = stop (done tot, buf, s)
readn_turn tot buf (got (b ∷ bs), s) = again (tot + length (b ∷ bs), buf ++ (b ∷ bs), s)
readn_turn tot buf (error e, s) = if e == eintr then again (tot, buf, s) else stop (fail e, buf, s)

-- One round of the loop of `readn`. The state holds `totRead`, the bytes placed in the buffer and
-- the stream; the result is the value returned, the buffer and the stream.
unfoldable pub readn_round :
    ℕ → ℕ × Bytes × Stream → Next (ℕ × Bytes × Stream) (Ret × Bytes × Stream)
readn_round n (tot, buf, s) =
    if ltb tot n then readn_turn tot buf (read (n - tot) s) else stop (done tot, buf, s)

unfoldable pub readn : ℕ → Stream → Option (Ret × Bytes × Stream)
unfolding readn_round loop
readn n (p, ts) = loop (length ts + n + 1) (readn_round n) (0, [], (p, ts))

-- What `writen` does with the outcome of one `write`. A `write` that returns 0 makes it fail
-- without a new `errno`.
abbrev pub writen_turn : ℕ → Bytes → Put × Sink → Next (ℕ × Bytes × Sink) (Ret × Sink)
writen_turn tot buf (put zero, s) = stop (fail 0, s)
writen_turn tot buf (put (suc k), s) = again (tot + suc k, drop (suc k) buf, s)
writen_turn tot buf (refused e, s) = if e == eintr then again (tot, buf, s) else stop (fail e, s)

-- One round of the loop of `writen`; the state holds `totWritten`, the bytes from `buf` on and the
-- file.
unfoldable pub writen_round : ℕ → ℕ × Bytes × Sink → Next (ℕ × Bytes × Sink) (Ret × Sink)
writen_round n (tot, buf, s) =
    if ltb tot n then writen_turn tot buf (write buf (n - tot) s) else stop (done tot, s)

unfoldable pub writen : ℕ → Bytes → Sink → Option (Ret × Sink)
unfolding writen_round loop
writen n buf (out, ts) = loop (length ts + n + 1) (writen_round n) (0, buf, (out, ts))

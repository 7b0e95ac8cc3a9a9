-- ===== src/Io/Posix.antt =====
-- read(2) and write(2) as the sources see them. What the kernel does next is explicit: a stream
-- carries the bytes still to come and the turns that the following calls will take, so every
-- pattern of partial transfers, interruptions and errors is some list of turns.
use bookcode_linux.Common.{ℕ, suc, min, List, [], ◌∷◌, Bytes, take, drop, ◌++◌, ◌≡◌, ◌⊎◌}

-- The turn of one system call.
pub data Turn : Type 0 where
  -- transfers up to k + 1 bytes
  deliver : ℕ → Turn
  -- is interrupted by a signal handler: -1 with EINTR
  interrupted : Turn
  -- fails with an errno
  failing : ℕ → Turn

-- `errno` values, as on Linux.
abbrev pub eintr : ℕ
eintr = 4

abbrev pub einval : ℕ
einval = 22

-- The bytes still to be read, and the turns of the calls to come; with no turn left a call
-- transfers all that was asked for.
abbrev pub Stream : Type 0
Stream = Bytes × List Turn

-- What `read` returns: the bytes placed in the buffer (none at end of file), or -1 and `errno`.
pub data Got : Type 0 where
  got : Bytes → Got
  error : ℕ → Got

abbrev pub read : ℕ → Stream → Got × Stream
read n (p, []) = (got (take n p), (drop n p, []))
read n (p, deliver k ∷ ts) = (got (take (min n (suc k)) p), (drop (min n (suc k)) p, ts))
read n (p, interrupted ∷ ts) = (error eintr, (p, ts))
read n (p, failing e ∷ ts) = (error e, (p, ts))

-- The open file that `write` appends to, and the turns of the calls to come.
abbrev pub Sink : Type 0
Sink = Bytes × List Turn

-- What `write` returns: how many bytes it took, or -1 and `errno`.
pub data Put : Type 0 where
  put : ℕ → Put
  refused : ℕ → Put

-- `write(fd, buf, n)`; the list holds the bytes from `buf` on.
abbrev pub write : Bytes → ℕ → Sink → Put × Sink
write buf n (out, []) = (put n, (out ++ take n buf, []))
write buf n (out, deliver k ∷ ts) = (put (min n (suc k)), (out ++ take (min n (suc k)) buf, ts))
write buf n (out, interrupted ∷ ts) = (refused eintr, (out, ts))
write buf n (out, failing e ∷ ts) = (refused e, (out, ts))

-- The result of a function that returns a count, or -1 with `errno` set.
pub data Ret : Type 0 where
  done : ℕ → Ret
  fail : ℕ → Ret

-- Some turn of the list fails with this error, other than by an interruption.
abbrev pub Fails : ℕ → List Turn → Type 0
Fails e [] = ⊥
Fails e (failing d ∷ ts) = (d ≡ e) ⊎ Fails e ts
Fails e (t ∷ ts) = Fails e ts

-- No turn fails: only partial transfers and interruptions.
abbrev pub IsPatient : List Turn → Type 0
IsPatient [] = Unit
IsPatient (failing d ∷ ts) = ⊥
IsPatient (t ∷ ts) = IsPatient ts

-- ===== src/Io/Line.antt =====
-- readLine() of TLPI/sockets/read_line.c and readLineBuf() of TLPI/sockets/read_line_buf.c.
pub mod Laws
pub mod BufLaws
pub mod Agree
use bookcode_linux.Common.{
  ℕ, zero, suc, ◌+◌, ◌-◌, Option, none, some, Bool, true, false, List, [], ◌∷◌, ◌++◌, Bytes, length,
  drop, get_elem?, ltb, leb, ◌==◌, if◌then◌else◌, Next, again, stop, loop,
}
use bookcode_linux.Common.Int.{ℤ, pos, minus_one}
use bookcode_linux.Io.Posix.{Stream, Ret, done, fail, Got, got, error, read, eintr, einval}

abbrev pub newline : ℕ
newline = 10

-- The next line of the input, its newline included, and what follows it.
abbrev pub line : Bytes → Bytes
line [] = []
line (c ∷ p) = if c == newline then c ∷ [] else c ∷ line p

abbrev pub after_line : Bytes → Bytes
after_line [] = []
after_line (c ∷ p) = if c == newline then p else after_line p

-- What `readLine` leaves: the value returned, the bytes in the buffer, whether a null byte was put
-- behind them, and the stream.
pub record Line : Type 0 where
  pub ret : Ret
  pub buf : Bytes
  pub terminated : Bool
  pub fd : Stream

-- A character is kept while there is room for it and the null byte.
abbrev pub keep : ℕ → ℕ → Bytes → ℕ → ℕ × Bytes
keep n tot buf ch = if ltb tot (n - 1) then (tot + 1, buf ++ (ch ∷ [])) else (tot, buf)

abbrev pub read_line_char : ℕ → ℕ × Bytes → Stream → Next (ℕ × Bytes × Stream) Line
read_line_char ch (tot, buf) s =
    if ch == newline
    then stop (record { ret = done tot; buf = buf; terminated = true; fd = s })
    else again (tot, buf, s)

-- What one `read` of a byte leads to.
abbrev pub read_line_turn : ℕ → ℕ → Bytes → Got × Stream → Next (ℕ × Bytes × Stream) Line
read_line_turn n tot buf (got [], s) =
    if tot == 0
    then stop (record { ret = done 0; buf = buf; terminated = false; fd = s })
    else stop (record { ret = done tot; buf = buf; terminated = true; fd = s })
read_line_turn n tot buf (got (ch ∷ more), s) = read_line_char ch (keep n tot buf ch) s
read_line_turn n tot buf (error e, s) =
    if e == eintr
    then again (tot, buf, s)
    else stop (record { ret = fail e; buf = buf; terminated = false; fd = s })

unfoldable pub read_line_round : ℕ → ℕ × Bytes × Stream → Next (ℕ × Bytes × Stream) Line
read_line_round n (tot, buf, s) = read_line_turn n tot buf (read 1 s)

-- Each round takes a turn or a byte, or ends the loop.
unfoldable pub read_line : ℕ → Stream → Option Line
unfolding read_line_round loop
read_line n (p, ts) =
    if n == 0
    then some (record { ret = fail einval; buf = []; terminated = false; fd = (p, ts) })
    else loop (length ts + length p + 1) (read_line_round n) (0, [], (p, ts))

-- `struct ReadLineBuf`: the descriptor, the block last read, the next character of it, and its
-- length (-1 after a failed `read`).
pub record ReadLineBuf : Type 0 where
  pub fd : Stream
  pub buf : Bytes
  pub next : ℕ
  pub len : ℤ

abbrev pub rl_max_buf : ℕ
rl_max_buf = 10

pub read_line_buf_init : Stream → Bytes → ReadLineBuf
read_line_buf_init s buf = record { fd = s; buf = buf; next = 0; len = pos 0 }

-- Whether the loop has a character to fetch: after a refill, or without.
pub data Filled : Type 0 where
  filled : ReadLineBuf → Filled
  at_eof : ReadLineBuf → Filled
  io_error : ℕ → ReadLineBuf → Filled

-- `next >= len`
abbrev pub is_spent : ℕ → ℤ → Bool
is_spent next (pos l) = leb l next
is_spent next (ℤ.negsuc l) = true

-- The block replaces the front of the array.
abbrev pub refill : ReadLineBuf → Got × Stream → Filled
refill r (got [], s) = at_eof (record r { fd = s; len = pos 0 })
refill r (got (b ∷ bs), s) = filled (record {
  fd = s;
  buf = (b ∷ bs) ++ drop (length (b ∷ bs)) r.buf;
  next = 0;
  len = pos (length (b ∷ bs));
})
refill r (error e, s) = io_error e (record r { fd = s; len = minus_one })

abbrev pub fill : ReadLineBuf → Filled
fill r = if is_spent r.next r.len then refill r (read rl_max_buf r.fd) else filled r

-- The value returned, the bytes stored in `buffer`, and the structure.
abbrev pub Fetched : Type 0
Fetched = Ret × Bytes × ReadLineBuf

abbrev pub store : ℕ → ℕ → Bytes → ℕ → ℕ × Bytes
store n cnt buffer c = if ltb cnt n then (cnt + 1, buffer ++ (c ∷ [])) else (cnt, buffer)

abbrev pub fetch_char :
    ℕ → ℕ × Bytes → ReadLineBuf → Next (ℕ × Bytes × ReadLineBuf) (Option Fetched)
fetch_char c (cnt, buffer) r =
    if c == newline then stop (some (done cnt, buffer, r)) else again (cnt, buffer, r)

-- `none` stands for a read outside the block.
abbrev pub fetch_at :
    ℕ → ℕ → Bytes → ReadLineBuf → Option ℕ → Next (ℕ × Bytes × ReadLineBuf) (Option Fetched)
fetch_at n cnt buffer r none = stop none
fetch_at n cnt buffer r (some c) =
    fetch_char c (store n cnt buffer c) (record r { next = r.next + 1 })

abbrev pub fetch : ℕ → ℕ → Bytes → Filled → Next (ℕ × Bytes × ReadLineBuf) (Option Fetched)
fetch n cnt buffer (filled r) = fetch_at n cnt buffer r (get_elem? r.buf r.next)
fetch n cnt buffer (at_eof r) = stop (some (done cnt, buffer, r))
fetch n cnt buffer (io_error e r) = stop (some (fail e, buffer, r))

unfoldable pub read_line_buf_round :
    ℕ → ℕ × Bytes × ReadLineBuf → Next (ℕ × Bytes × ReadLineBuf) (Option Fetched)
read_line_buf_round n (cnt, buffer, r) = fetch n cnt buffer (fill r)

-- Each round takes a character of the block or of the stream, or ends the loop.
unfoldable pub read_line_buf : ℕ → ReadLineBuf → Option (Option Fetched)
unfolding read_line_buf_round loop
read_line_buf n r =
    if n == 0
    then some (some (fail einval, [], r))
    else loop (length r.buf + length r.fd.0 + 1) (read_line_buf_round n) (0, [], r)

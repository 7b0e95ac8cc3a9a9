-- ===== src/Xfr/Invariant.antt =====
-- What holds in every state of a transfer.
use bookcode_linux.Common.{
  ℕ, ◌+◌, ◌%◌, ◌^◌, ◌<◌, ◌≤◌, ◌≡◌, inl, refl, ap, [], ◌++◌, Bytes, length, take, drop, arith,
  append_assoc, take-append, length-append, ◌==◌, if◌then◌else◌, length-take,
}
use bookcode_linux.Xfr.{
  Shared, Writer, wait_turn, fill, hand_over, check, Reader, wait_data, look, output, WriterMove,
  ReaderMove, writer, reader, Reach, begin, next,
}
use bookcode_linux.Xfr.Lock.{Lock, WriterMove-Lock, ReaderMove-Lock}

-- The bytes in the segment that the reader has not written yet.
abbrev pub flight : Writer → Reader → Shared → Bytes
flight hand_over r m = take m.cnt m.buf
flight w look m = take m.cnt m.buf
flight w output m = take m.cnt m.buf
flight w wait_data m = if m.read_sem == 0 then [] else take m.cnt m.buf
flight w r m = []

-- Once the writer has handed over an empty block, its input is used up.
abbrev pub Ended : Writer → Shared → Type 0
Ended wait_turn m = Unit
Ended fill m = Unit
Ended w m = m.cnt ≡ 0 → m.stdin ≡ []

-- What a program has moved and not yet counted, or counted and not yet moved.
abbrev pub uncounted : Writer → Shared → ℕ
uncounted hand_over m = m.cnt
uncounted check m = m.cnt
uncounted w m = 0

abbrev pub unwritten : Reader → Shared → ℕ
unwritten output m = m.cnt
unwritten r m = 0

pub record Data (input : Bytes) (w : Writer) (r : Reader) (m : Shared) : Type 0 where
  pub whole : m.stdout ++ (flight w r m ++ m.stdin) ≡ input
  pub ended : Ended w m
  pub fits : m.cnt ≤ length m.buf
  pub received : m.got ≡ (length m.stdout + unwritten r m) % 2 ^ 32
  pub counted : (m.sent + uncounted w m + length m.stdin) % 2 ^ 32 ≡ length input % 2 ^ 32
  pub in_int : m.sent < 2 ^ 32

WriterMove-Data :
    {input : Bytes} {m m' : Shared} {w w' : Writer} (r : Reader)
    → WriterMove m w m' w'
    → Lock w r m
    → Data input w r m
    → Data input w' r m'
WriterMove-Data wait_data (WriterMove.reserve g) l d = ground arith
WriterMove-Data _ (WriterMove.reserve g) l d = ground arith
WriterMove-Data {input} {m = m} wait_data (WriterMove.read_block b t (e, some_byte, small)) l d =
    record {
      whole =
          let before : m.stdout ++ m.stdin ≡ input = ground (arith, d.whole) in
          rw (take-append (length b) b (drop (length b) m.buf) refl, ← e) before;
      ended = λ none_read. absurd (omega arith);
      fits = omega (arith, length-append b (drop (length b) m.buf));
      received = omega (arith, d.received);
      counted = omega (arith, d.counted, length-append b t, ap length e);
      in_int = d.in_int;
    }
WriterMove-Data _ (WriterMove.read_block b t g) l d = ground arith
WriterMove-Data wait_data (WriterMove.read_end g) l d = ground arith
WriterMove-Data _ (WriterMove.read_end g) l d = ground arith
WriterMove-Data wait_data WriterMove.release l d = ground arith
WriterMove-Data _ WriterMove.release l d = ground arith
WriterMove-Data wait_data (WriterMove.at_end g) l d = ground arith
WriterMove-Data _ (WriterMove.at_end g) l d = ground arith
WriterMove-Data wait_data (WriterMove.go_on g) l d = ground arith
WriterMove-Data _ (WriterMove.go_on g) l d = ground arith
WriterMove-Data wait_data (WriterMove.reserve_last g) l d = ground arith
WriterMove-Data _ (WriterMove.reserve_last g) l d = ground arith

ReaderMove-Data :
    {input : Bytes} {m m' : Shared} {r r' : Reader} (w : Writer)
    → ReaderMove m r m' r'
    → Lock w r m
    → Data input w r m
    → Data input w r' m'
ReaderMove-Data wait_turn (ReaderMove.reserve g) l d = ground arith
ReaderMove-Data _ (ReaderMove.reserve g) l d = ground arith
ReaderMove-Data wait_turn (ReaderMove.see_end g) l d = ground arith
ReaderMove-Data _ (ReaderMove.see_end g) l d = ground arith
ReaderMove-Data wait_turn (ReaderMove.see_block g) l d = ground arith
ReaderMove-Data _ (ReaderMove.see_block g) l d = ground arith
ReaderMove-Data {m = m} wait_turn ReaderMove.write_block l d = ground (
  arith,
  append_assoc m.stdout (take m.cnt m.buf) m.stdin,
  length-append m.stdout (take m.cnt m.buf),
  length-take m.cnt m.buf,
)
ReaderMove-Data {m = m} _ ReaderMove.write_block l d = ground (
  arith,
  append_assoc m.stdout (take m.cnt m.buf) m.stdin,
  length-append m.stdout (take m.cnt m.buf),
  length-take m.cnt m.buf,
)
ReaderMove-Data wait_turn ReaderMove.release l d = ground arith
ReaderMove-Data _ ReaderMove.release l d = ground arith
ReaderMove-Data wait_turn ReaderMove.detached l d = ground arith
ReaderMove-Data _ ReaderMove.detached l d = ground arith
ReaderMove-Data wait_turn ReaderMove.release_last l d = ground arith
ReaderMove-Data _ ReaderMove.release_last l d = ground arith

-- Every state that a transfer can reach satisfies both invariants.
pub Reach-Data :
    {input : Bytes} {m : Shared} {w : Writer} {r : Reader}
    → Reach input m w r
    → Lock w r m × Data input w r m
Reach-Data begin = (
  inl (omega arith),
  record {
    whole = refl;
    ended = tt;
    fits = omega arith;
    received = omega arith;
    counted = omega arith;
    in_int = omega arith;
  },
)
Reach-Data (next {w = w} {r = r} h (writer mv)) =
    let (l, d) = Reach-Data h in (WriterMove-Lock r mv l, WriterMove-Data r mv l d)
Reach-Data (next {w = w} {r = r} h (reader mv)) =
    let (l, d) = Reach-Data h in (ReaderMove-Lock w mv l, ReaderMove-Data w mv l d)

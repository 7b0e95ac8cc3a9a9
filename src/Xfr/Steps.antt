-- ===== src/Xfr/Steps.antt =====
-- How many steps a transfer still takes: every step lowers a bound.
use bookcode_linux.Common.{
  ℕ, ◌+◌, ◌*◌, ◌<◌, ◌≤◌, ap, Bytes, length, arith, length-append, ◌==◌, if◌then◌else◌,
}
use bookcode_linux.Xfr.{
  Shared, Writer, wait_turn, fill, hand_over, check, wait_end, removed, Reader, wait_data, look,
  output, give_back, detach, sign_off, gone, WriterMove, ReaderMove, writer, reader, Reach, begin,
  next,
}
use bookcode_linux.Xfr.Lock.{Lock}
use bookcode_linux.Xfr.Invariant.{Reach-Data}

-- Each byte that is still to be read may cost the writer four steps and the reader four.
abbrev pub writer_steps : Writer → Shared → ℕ
writer_steps wait_turn m = 4 * length m.stdin + 9
writer_steps fill m = 4 * length m.stdin + 8
writer_steps hand_over m = if m.cnt == 0 then 7 else 4 * length m.stdin + 11
writer_steps check m = if m.cnt == 0 then 6 else 4 * length m.stdin + 10
writer_steps wait_end m = 5
writer_steps removed m = 4

abbrev pub reader_steps : Writer → Reader → Shared → ℕ
reader_steps hand_over wait_data m = 4 * length m.stdin + (if m.cnt == 0 then 4 else 8)
reader_steps w wait_data m =
    4 * length m.stdin + (if m.read_sem == 0 then 4 else (if m.cnt == 0 then 4 else 8))
reader_steps w look m = if m.cnt == 0 then 3 else 4 * length m.stdin + 7
reader_steps w output m = 4 * length m.stdin + 6
reader_steps w give_back m = 4 * length m.stdin + 5
reader_steps w detach m = 2
reader_steps w sign_off m = 1
reader_steps w gone m = 0

abbrev pub steps_left : Writer → Reader → Shared → ℕ
steps_left w r m = writer_steps w m + reader_steps w r m

writer_steps-lt :
    {m m' : Shared} {w w' : Writer} (r : Reader)
    → WriterMove m w m' w'
    → Lock w r m
    → steps_left w' r m' < steps_left w r m
writer_steps-lt wait_data (WriterMove.reserve g) l = ground arith
writer_steps-lt _ (WriterMove.reserve g) l = ground arith
writer_steps-lt wait_data (WriterMove.read_block b t g) l =
    ground (arith, length-append b t, ap length g.0)
writer_steps-lt _ (WriterMove.read_block b t g) l = ground arith
writer_steps-lt wait_data (WriterMove.read_end g) l = ground arith
writer_steps-lt _ (WriterMove.read_end g) l = ground arith
writer_steps-lt wait_data WriterMove.release l = ground arith
writer_steps-lt _ WriterMove.release l = ground arith
writer_steps-lt wait_data (WriterMove.at_end g) l = ground arith
writer_steps-lt _ (WriterMove.at_end g) l = ground arith
writer_steps-lt wait_data (WriterMove.go_on g) l = ground arith
writer_steps-lt _ (WriterMove.go_on g) l = ground arith
writer_steps-lt wait_data (WriterMove.reserve_last g) l = ground arith
writer_steps-lt _ (WriterMove.reserve_last g) l = ground arith

reader_steps-lt :
    {m m' : Shared} {r r' : Reader} (w : Writer)
    → ReaderMove m r m' r'
    → Lock w r m
    → steps_left w r' m' < steps_left w r m
reader_steps-lt wait_turn (ReaderMove.reserve g) l = ground arith
reader_steps-lt _ (ReaderMove.reserve g) l = ground arith
reader_steps-lt wait_turn (ReaderMove.see_end g) l = ground arith
reader_steps-lt _ (ReaderMove.see_end g) l = ground arith
reader_steps-lt wait_turn (ReaderMove.see_block g) l = ground arith
reader_steps-lt _ (ReaderMove.see_block g) l = ground arith
reader_steps-lt wait_turn ReaderMove.write_block l = ground arith
reader_steps-lt _ ReaderMove.write_block l = ground arith
reader_steps-lt wait_turn ReaderMove.release l = ground arith
reader_steps-lt _ ReaderMove.release l = ground arith
reader_steps-lt wait_turn ReaderMove.detached l = ground arith
reader_steps-lt _ ReaderMove.detached l = ground arith
reader_steps-lt wait_turn ReaderMove.release_last l = ground arith
reader_steps-lt _ ReaderMove.release_last l = ground arith

-- The number of steps that a run has taken.
pub steps : {input : Bytes} {m : Shared} {w : Writer} {r : Reader} → Reach input m w r → ℕ
steps begin = 0
steps (next h s) = steps h + 1

steps-left :
    {input : Bytes} {m : Shared} {w : Writer} {r : Reader} (h : Reach input m w r)
    → steps h + steps_left w r m ≤ 8 * length input + 13
unfolding steps
steps-left begin = omega arith
steps-left (next {r = r} h (writer mv)) =
    omega (arith, steps-left h, writer_steps-lt r mv (Reach-Data h).0)
steps-left (next {w = w} h (reader mv)) =
    omega (arith, steps-left h, reader_steps-lt w mv (Reach-Data h).0)

-- Every run of the two programs is finite: it takes at most eight steps for each byte of the input
-- and thirteen more.
pub steps-le :
    {input : Bytes} {m : Shared} {w : Writer} {r : Reader} (h : Reach input m w r)
    → steps h ≤ 8 * length input + 13
steps-le h = omega (arith, steps-left h)

-- ===== src/Xfr/Tests.antt =====
-- A whole transfer of one byte, and the theorems at its states.
use bookcode_linux.Common.{◌≡◌, ◌⊎◌, ◌≤◌, ◌*◌, ◌+◌, refl, false, ◌&&◌, [], ◌∷◌, ◌++◌, Bytes, arith}
use bookcode_linux.Xfr.{
  Shared, hand_over, removed, wait_data, gone, WriterMove, ReaderMove, writer, reader, Reach, begin,
  next,
}
use bookcode_linux.Xfr.Safety.{
  writer_owns, reader_owns, exclusive-prefix, Complete, removed-Complete, CanStep, progress,
}
use bookcode_linux.Xfr.Steps.{steps, steps-le}

abbrev input : Bytes
input = 65 ∷ []

-- The block is filled and not handed over.
abbrev filled : Shared
filled = record {
  write_sem = 0;
  read_sem = 0;
  cnt = 1;
  buf = 65 ∷ [];
  stdin = [];
  stdout = [];
  sent_xfrs = 0;
  sent = 0;
  got_xfrs = 0;
  got = 0;
}

abbrev over : Shared
over = record {
  write_sem = 0;
  read_sem = 0;
  cnt = 0;
  buf = 65 ∷ [];
  stdin = [];
  stdout = 65 ∷ [];
  sent_xfrs = 1;
  sent = 1;
  got_xfrs = 1;
  got = 1;
}

to_filled : Reach input filled hand_over wait_data
to_filled =
    next (next begin (writer (WriterMove.reserve (omega arith))))
      (writer (WriterMove.read_block (65 ∷ []) [] (refl, omega arith, omega arith)))

to_over : Reach input over removed gone
unfolding to_filled
to_over =
    let r0 = next to_filled (writer WriterMove.release) in
    let r1 = next r0 (writer (WriterMove.go_on (omega arith))) in
    let r2 = next r1 (reader (ReaderMove.reserve (omega arith))) in
    let r3 = next r2 (reader (ReaderMove.see_block (omega arith))) in
    let r4 = next r3 (reader ReaderMove.write_block) in
    let r5 = next r4 (reader ReaderMove.release) in
    let r6 = next r5 (writer (WriterMove.reserve (omega arith))) in
    let r7 = next r6 (writer (WriterMove.read_end refl)) in
    let r8 = next r7 (writer WriterMove.release) in
    let r9 = next r8 (writer (WriterMove.at_end refl)) in
    let r10 = next r9 (reader (ReaderMove.reserve (omega arith))) in
    let r11 = next r10 (reader (ReaderMove.see_end refl)) in
    let r12 = next r11 (reader ReaderMove.detached) in
    let r13 = next r12 (reader ReaderMove.release_last) in
    let r14 = next r13 (writer (WriterMove.reserve_last (omega arith))) in r14

exclusive-prefix_example :
    ((writer_owns hand_over && reader_owns wait_data) ≡ false)
    × ((rest : Bytes) × ([] ++ rest ≡ input))
exclusive-prefix_example = exclusive-prefix to_filled

removed-Complete_example : Complete input gone over
removed-Complete_example = removed-Complete (omega arith) to_over

progress_example : ((hand_over ≡ removed) × (wait_data ≡ gone)) ⊎ CanStep filled hand_over wait_data
progress_example = progress to_filled

steps-le_example : steps to_over ≤ 8 * 1 + 13
steps-le_example = steps-le to_over

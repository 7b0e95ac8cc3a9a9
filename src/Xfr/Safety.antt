-- ===== src/Xfr/Safety.antt =====
-- What the semaphores of a transfer are for, and what arrives.
use bookcode_linux.Common.{
  ◌≡◌, ◌<◌, ◌^◌, ◌⊎◌, inl, inr, refl, sym, ap, ◌∙◌, Bool, true, false, ◌&&◌, [], ◌∷◌, ◌++◌, Bytes,
  length, arith, append-nil, ◌==◌, Bool-cases, List-cases, length-append,
}
use bookcode_linux.Xfr.{
  Shared, Writer, wait_turn, fill, hand_over, check, wait_end, removed, Reader, wait_data, look,
  output, give_back, detach, sign_off, gone, WriterMove, ReaderMove, Step, writer, reader, Reach,
}
use bookcode_linux.Xfr.Lock.{Lock}
use bookcode_linux.Xfr.Invariant.{Reach-Data, flight, Data}

-- Between reserveSem(WRITE_SEM) and releaseSem(READ_SEM) the writer owns the segment.
abbrev pub writer_owns : Writer → Bool
writer_owns fill = true
writer_owns hand_over = true
writer_owns w = false

-- Between reserveSem(READ_SEM) and its next releaseSem(WRITE_SEM) the reader does.
abbrev pub reader_owns : Reader → Bool
reader_owns wait_data = false
reader_owns gone = false
reader_owns r = true

exclusive_at :
    (w : Writer) (r : Reader) (m : Shared) → Lock w r m → (writer_owns w && reader_owns r) ≡ false
exclusive_at wait_turn r m l = refl
exclusive_at fill wait_data m l = refl
exclusive_at fill _ m l = ground arith
exclusive_at hand_over wait_data m l = refl
exclusive_at hand_over _ m l = ground arith
exclusive_at _ r m l = refl

-- The writer and the reader never own the segment at the same time, and what has been written is at
-- every moment a beginning of the input.
pub exclusive-prefix :
    {input : Bytes} {m : Shared} {w : Writer} {r : Reader}
    → Reach input m w r
    → ((writer_owns w && reader_owns r) ≡ false) × ((rest : Bytes) × (m.stdout ++ rest ≡ input))
exclusive-prefix {m = m} {w = w} {r = r} h =
    (exclusive_at w r m (Reach-Data h).0, (flight w r m ++ m.stdin, (Reach-Data h).1.whole))

-- The state of a transfer that is over.
pub record Complete (input : Bytes) (r : Reader) (m : Shared) : Type 0 where
  pub reader_gone : r ≡ gone
  pub delivered : m.stdout ≡ input
  pub sent_all : m.sent ≡ length input
  pub got_all : m.got ≡ length input
  pub same_xfrs : m.sent_xfrs ≡ m.got_xfrs

Complete-at :
    {input : Bytes} (m : Shared) (r : Reader)
    → length input < 2 ^ 31
    → Lock removed r m
    → Data input removed r m
    → Complete input r m
Complete-at m wait_data h l d = absurd l
Complete-at m gone h l d = record {
  reader_gone = refl;
  delivered = sym (append-nil m.stdout) ∙ rw all at d.whole;
  sent_all = omega (arith, h, d.counted, d.in_int, ap length all);
  got_all =
      omega
        (arith, h, d.received, ap length (d.whole), length-append m.stdout m.stdin, ap length all);
  same_xfrs = l.2;
}
  where
    all : m.stdin ≡ []
    all = d.ended l.1
Complete-at m _ h l d = absurd l

-- When the writer deletes the semaphores and the segment, the reader needs them no more, all of the
-- input has been written and nothing else, and both programs have counted its bytes and the same
-- number of blocks, if their number is an int.
pub removed-Complete :
    {input : Bytes} {m : Shared} {r : Reader}
    → length input < 2 ^ 31
    → Reach input m removed r
    → Complete input r m
removed-Complete {m = m} {r = r} small h = let (l, d) = Reach-Data h in Complete-at m r small l d

abbrev pub CanStep : Shared → Writer → Reader → Type 0
CanStep m w r = (m' : Shared) × (w' : Writer) × (r' : Reader) × Step m w r m' w' r'

fill_step : (m : Shared) (r : Reader) → CanStep m fill r
fill_step m r = elim (List-cases m.stdin) [
  | inl end ↦ (_, _, _, writer (WriterMove.read_end end))
  | inr (x, rest, e) ↦
      (_, _, _, writer (WriterMove.read_block (x ∷ []) rest (e, omega arith, omega arith)))
]

check_step : (m : Shared) (r : Reader) → CanStep m check r
check_step m r = elim (Bool-cases (m.cnt == 0)) [
  | inl end ↦ (_, _, _, writer (WriterMove.at_end (ground arith)))
  | inr more ↦ (_, _, _, writer (WriterMove.go_on (ground arith)))
]

look_step : (m : Shared) (w : Writer) → CanStep m w look
look_step m w = elim (Bool-cases (m.cnt == 0)) [
  | inl end ↦ (_, _, _, reader (ReaderMove.see_end (ground arith)))
  | inr more ↦ (_, _, _, reader (ReaderMove.see_block (ground arith)))
]

progress_at :
    (m : Shared) (w : Writer) (r : Reader)
    → Lock w r m
    → ((w ≡ removed) × (r ≡ gone)) ⊎ CanStep m w r
progress_at m wait_turn wait_data (inl free) =
    inr (_, _, _, writer (WriterMove.reserve (omega arith)))
progress_at m wait_turn wait_data (inr full) =
    inr (_, _, _, reader (ReaderMove.reserve (omega arith)))
progress_at m removed gone l = inl (refl, refl)
progress_at m wait_end gone l = inr (_, _, _, writer (WriterMove.reserve_last (omega arith)))
progress_at m wait_end wait_data l = inr (_, _, _, reader (ReaderMove.reserve (omega arith)))
progress_at m fill r l = inr (fill_step m r)
progress_at m hand_over r l = inr (_, _, _, writer WriterMove.release)
progress_at m check r l = inr (check_step m r)
progress_at m w look l = inr (look_step m w)
progress_at m w output l = inr (_, _, _, reader ReaderMove.write_block)
progress_at m w give_back l = inr (_, _, _, reader ReaderMove.release)
progress_at m w detach l = inr (_, _, _, reader ReaderMove.detached)
progress_at m w sign_off l = inr (_, _, _, reader ReaderMove.release_last)
progress_at m _ _ l = absurd l

-- No deadlock: in every state that a transfer can reach, one of the two can take a step, unless the
-- writer has come to deleting the semaphores and the reader is gone.
pub progress :
    {input : Bytes} {m : Shared} {w : Writer} {r : Reader}
    → Reach input m w r
    → ((w ≡ removed) × (r ≡ gone)) ⊎ CanStep m w r
progress {m = m} {w = w} {r = r} h = progress_at m w r (Reach-Data h).0

-- ===== src/Xfr.antt =====
-- The transfer programs TLPI/svshm/svshm_xfr_writer.c and svshm_xfr_reader.c: two processes that
-- take turns at one shared buffer, under two semaphores of TLPI/svsem/binary_sems.c.
pub mod Lock
pub mod Invariant
pub mod Safety
pub mod Steps
mod Tests
use bookcode_linux.Common.{
  ℕ, suc, ◌+◌, ◌-◌, ◌%◌, ◌^◌, ◌<◌, ◌≤◌, ◌≡◌, ◌≢◌, List, [], ◌∷◌, ◌++◌, Bytes, length, take, drop,
}

abbrev pub buf_size : ℕ
buf_size = 1024

-- `struct shmseg`, the semaphores WRITE_SEM and READ_SEM, what is left of the writer's standard
-- input, the reader's standard output, and the counters `xfrs` and `bytes` of both programs, each
-- as the 32 bits of an int.
pub record Shared : Type 0 where
  pub write_sem : ℕ
  pub read_sem : ℕ
  pub cnt : ℕ
  pub buf : Bytes
  pub stdin : Bytes
  pub stdout : Bytes
  pub sent_xfrs : ℕ
  pub sent : ℕ
  pub got_xfrs : ℕ
  pub got : ℕ

-- `+=` on an int.
abbrev pub add_int : ℕ → ℕ → ℕ
add_int a b = (a + b) % 2 ^ 32

-- Where the writer stands.
pub data Writer : Type 0 where
  -- before reserveSem(WRITE_SEM) in the loop
  wait_turn : Writer
  -- before read(STDIN_FILENO)
  fill : Writer
  -- before releaseSem(READ_SEM)
  hand_over : Writer
  -- before the test for end of file
  check : Writer
  -- before reserveSem(WRITE_SEM) behind the loop
  wait_end : Writer
  -- about to delete the semaphores and the segment, or past it
  removed : Writer

-- Where the reader stands.
pub data Reader : Type 0 where
  -- before reserveSem(READ_SEM)
  wait_data : Reader
  -- before the test for end of file
  look : Reader
  -- before write(STDOUT_FILENO)
  output : Reader
  -- before releaseSem(WRITE_SEM) in the loop
  give_back : Reader
  -- before shmdt()
  detach : Reader
  -- before releaseSem(WRITE_SEM) behind the loop
  sign_off : Reader
  gone : Reader

-- A block of the input, as `read` may return it.
abbrev pub IsBlock : Bytes → Bytes → Bytes → Type 0
IsBlock block rest input = (input ≡ block ++ rest) × (0 < length block) × (length block ≤ buf_size)

-- The block replaces the front of the buffer.
abbrev pub put_block : Shared → Bytes → Bytes → Shared
put_block m block rest = record m {
  cnt = length block;
  buf = block ++ drop (length block) m.buf;
  stdin = rest;
}

-- One step of the writer. A process whose call fails ends, so it takes no further step; a reserve
-- that a signal interrupts is tried again, so it is no step.
pub data WriterMove (m : Shared) : Writer → Shared → Writer → Type 0 where
  reserve : 0 < m.write_sem → WriterMove m wait_turn (record m { write_sem = m.write_sem - 1 }) fill
  read_block :
      (block rest : Bytes)
      → IsBlock block rest m.stdin
      → WriterMove m fill (put_block m block rest) hand_over
  read_end : m.stdin ≡ [] → WriterMove m fill (record m { cnt = 0 }) hand_over
  release : WriterMove m hand_over (record m { read_sem = m.read_sem + 1 }) check
  at_end : m.cnt ≡ 0 → WriterMove m check m wait_end
  go_on :
      m.cnt ≢ 0
      → WriterMove m check
          (record m { sent_xfrs = add_int m.sent_xfrs 1; sent = add_int m.sent m.cnt })
          wait_turn
  reserve_last :
      0 < m.write_sem → WriterMove m wait_end (record m { write_sem = m.write_sem - 1 }) removed

-- One step of the reader.
pub data ReaderMove (m : Shared) : Reader → Shared → Reader → Type 0 where
  reserve : 0 < m.read_sem → ReaderMove m wait_data (record m { read_sem = m.read_sem - 1 }) look
  see_end : m.cnt ≡ 0 → ReaderMove m look m detach
  see_block : m.cnt ≢ 0 → ReaderMove m look (record m { got = add_int m.got m.cnt }) output
  write_block : ReaderMove m output (record m { stdout = m.stdout ++ take m.cnt m.buf }) give_back
  release :
      ReaderMove m give_back
        (record m { write_sem = m.write_sem + 1; got_xfrs = add_int m.got_xfrs 1 })
        wait_data
  detached : ReaderMove m detach m sign_off
  release_last : ReaderMove m sign_off (record m { write_sem = m.write_sem + 1 }) gone

-- The two processes interleaved in any order.
pub data Step (m : Shared) : Writer → Reader → Shared → Writer → Reader → Type 0 where
  writer : {m' : Shared} {w w' : Writer} {r : Reader} → WriterMove m w m' w' → Step m w r m' w' r
  reader : {m' : Shared} {w : Writer} {r r' : Reader} → ReaderMove m r m' r' → Step m w r m' w r'

-- After initSemAvailable(WRITE_SEM) and initSemInUse(READ_SEM), with an empty segment.
abbrev pub start : Bytes → Shared
start input = record {
  write_sem = 1;
  read_sem = 0;
  cnt = 0;
  buf = [];
  stdin = input;
  stdout = [];
  sent_xfrs = 0;
  sent = 0;
  got_xfrs = 0;
  got = 0;
}

pub data Reach (input : Bytes) : Shared → Writer → Reader → Type 0 where
  begin : Reach input (start input) wait_turn wait_data
  next :
      {m m' : Shared} {w w' : Writer} {r r' : Reader}
      → Reach input m w r
      → Step m w r m' w' r'
      → Reach input m' w' r'

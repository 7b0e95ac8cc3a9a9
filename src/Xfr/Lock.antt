-- ===== src/Xfr/Lock.antt =====
-- Where the two processes of a transfer can stand together, and who has the token.
use bookcode_linux.Common.{◌≡◌, ◌≢◌, ◌⊎◌, arith}
use bookcode_linux.Xfr.{
  Shared, Writer, wait_turn, fill, hand_over, check, wait_end, removed, Reader, wait_data, look,
  output, give_back, detach, sign_off, gone, WriterMove, ReaderMove, add_int,
}

-- Where the token is: on a semaphore, or with neither count up while a process has it.
abbrev pub Free : Shared → Type 0
Free m = (m.write_sem ≡ 1) × (m.read_sem ≡ 0)

abbrev pub Full : Shared → Type 0
Full m = (m.write_sem ≡ 0) × (m.read_sem ≡ 1)

abbrev pub Held : Shared → Type 0
Held m = (m.write_sem ≡ 0) × (m.read_sem ≡ 0)

-- Both programs have counted the same blocks, or the writer or the reader one more.
abbrev pub Even : Shared → Type 0
Even m = m.sent_xfrs ≡ m.got_xfrs

abbrev pub SenderAhead : Shared → Type 0
SenderAhead m = m.sent_xfrs ≡ add_int m.got_xfrs 1

abbrev pub ReaderAhead : Shared → Type 0
ReaderAhead m = add_int m.sent_xfrs 1 ≡ m.got_xfrs

-- Which pairs of places are possible, and with which semaphores.
abbrev pub Lock : Writer → Reader → Shared → Type 0
Lock wait_turn wait_data m = (Free m × Even m) ⊎ (Full m × (m.cnt ≢ 0) × SenderAhead m)
Lock wait_turn look m = Held m × (m.cnt ≢ 0) × SenderAhead m
Lock wait_turn output m = Held m × (m.cnt ≢ 0) × SenderAhead m
Lock wait_turn give_back m = Held m × (m.cnt ≢ 0) × SenderAhead m
Lock fill wait_data m = Held m × Even m
Lock hand_over wait_data m = Held m × Even m
Lock check wait_data m = (Full m × Even m) ⊎ (Free m × (m.cnt ≢ 0) × ReaderAhead m)
Lock check look m = Held m × Even m
Lock check output m = Held m × (m.cnt ≢ 0) × Even m
Lock check give_back m = Held m × (m.cnt ≢ 0) × Even m
Lock check detach m = Held m × (m.cnt ≡ 0) × Even m
Lock check sign_off m = Held m × (m.cnt ≡ 0) × Even m
Lock check gone m = Free m × (m.cnt ≡ 0) × Even m
Lock wait_end wait_data m = Full m × (m.cnt ≡ 0) × Even m
Lock wait_end look m = Held m × (m.cnt ≡ 0) × Even m
Lock wait_end detach m = Held m × (m.cnt ≡ 0) × Even m
Lock wait_end sign_off m = Held m × (m.cnt ≡ 0) × Even m
Lock wait_end gone m = Free m × (m.cnt ≡ 0) × Even m
Lock removed gone m = Held m × (m.cnt ≡ 0) × Even m
Lock _ _ m = ⊥

pub WriterMove-Lock :
    {m m' : Shared} {w w' : Writer} (r : Reader) → WriterMove m w m' w' → Lock w r m → Lock w' r m'
WriterMove-Lock wait_data (WriterMove.reserve g) l = ground arith
WriterMove-Lock _ (WriterMove.reserve g) l = ground arith
WriterMove-Lock wait_data (WriterMove.read_block b t g) l = ground arith
WriterMove-Lock _ (WriterMove.read_block b t g) l = ground arith
WriterMove-Lock wait_data (WriterMove.read_end g) l = ground arith
WriterMove-Lock _ (WriterMove.read_end g) l = ground arith
WriterMove-Lock wait_data (WriterMove.release) l = ground arith
WriterMove-Lock _ (WriterMove.release) l = ground arith
WriterMove-Lock wait_data (WriterMove.at_end g) l = ground arith
WriterMove-Lock _ (WriterMove.at_end g) l = ground arith
WriterMove-Lock wait_data (WriterMove.go_on g) l = ground arith
WriterMove-Lock _ (WriterMove.go_on g) l = ground arith
WriterMove-Lock wait_data (WriterMove.reserve_last g) l = ground arith
WriterMove-Lock _ (WriterMove.reserve_last g) l = ground arith

pub ReaderMove-Lock :
    {m m' : Shared} {r r' : Reader} (w : Writer) → ReaderMove m r m' r' → Lock w r m → Lock w r' m'
ReaderMove-Lock wait_turn (ReaderMove.reserve g) l = ground arith
ReaderMove-Lock _ (ReaderMove.reserve g) l = ground arith
ReaderMove-Lock wait_turn (ReaderMove.see_end g) l = ground arith
ReaderMove-Lock _ (ReaderMove.see_end g) l = ground arith
ReaderMove-Lock wait_turn (ReaderMove.see_block g) l = ground arith
ReaderMove-Lock _ (ReaderMove.see_block g) l = ground arith
ReaderMove-Lock wait_turn ReaderMove.write_block l = ground arith
ReaderMove-Lock _ ReaderMove.write_block l = ground arith
ReaderMove-Lock wait_turn ReaderMove.release l = ground arith
ReaderMove-Lock _ ReaderMove.release l = ground arith
ReaderMove-Lock wait_turn ReaderMove.detached l = ground arith
ReaderMove-Lock _ ReaderMove.detached l = ground arith
ReaderMove-Lock wait_turn ReaderMove.release_last l = ground arith
ReaderMove-Lock _ ReaderMove.release_last l = ground arith

-- ===== src/ChangeCase.antt =====
-- The program TLPI/pipes/change_case.c: a parent that sends its input through a child and two
-- pipes, as a step relation.
pub mod Invariant
pub mod Laws
mod Tests
use bookcode_linux.Common.{
  ℕ, ◌+◌, ◌-◌, ◌≤◌, ◌<◌, ◌≡◌, ◌&&◌, List, [], ◌∷◌, ◌++◌, Bytes, length, take, drop, leb,
  if◌then◌else◌,
}

abbrev pub buf_size : ℕ
buf_size = 100

-- toupper(3) in the C locale.
abbrev pub toupper : ℕ → ℕ
toupper c = if leb b'a' c && leb c b'z' then c - 32 else c

-- The loop over the bytes of a block.
abbrev pub upper : Bytes → Bytes
upper [] = []
upper (c ∷ s) = toupper c ∷ upper s

-- Where the parent stands: before the read of its input; with a block for the child; before the
-- read of the answer; with the answer; at its end.
pub data Parent : Type 0 where
  reading : Parent
  sending : Bytes → Parent
  receiving : Parent
  printing : Bytes → Parent
  finished : Parent

-- Where the child stands: before the read; with a block to convert and write; at its end.
pub data Child : Type 0 where
  listening : Child
  answering : Bytes → Child
  gone : Child

-- The input to come, the two pipes, the output, and both processes.
pub record State : Type 0 where
  pub stdin : Bytes
  pub outbound : Bytes
  pub inbound : Bytes
  pub stdout : Bytes
  pub parent : Parent
  pub child : Child

-- A read of the input returns some bytes. A read of a pipe returns what is there, up to the size
-- of the buffer, and waits while there is nothing and the other end is open. A write of at most a
-- buffer goes through at once. A process whose call fails ends the program and takes no further
-- step.
pub data ParentStep (s : State) : Parent → State → Type 0 where
  read_input :
      (block rest : Bytes)
      → s.stdin ≡ block ++ rest
      → 0 < length block
      → length block ≤ buf_size
      → ParentStep s reading (record s { stdin = rest; parent = sending block })
  at_end : s.stdin ≡ [] → ParentStep s reading (record s { parent = finished })
  send :
      (block : Bytes)
      → ParentStep s
          (sending block)
          (record s { outbound = s.outbound ++ block; parent = receiving })
  receive :
      0 < length s.inbound
      → ParentStep s receiving (record s {
        inbound = drop buf_size s.inbound;
        parent = printing (take buf_size s.inbound);
      })
  child_gone :
      s.inbound ≡ [] → s.child ≡ gone → ParentStep s receiving (record s { parent = reading })
  print :
      (block : Bytes)
      → ParentStep s (printing block) (record s { stdout = s.stdout ++ block; parent = reading })

pub data ChildStep (s : State) : Child → State → Type 0 where
  read_block :
      0 < length s.outbound
      → ChildStep s listening (record s {
        outbound = drop buf_size s.outbound;
        child = answering (take buf_size s.outbound);
      })
  see_end :
      s.outbound ≡ [] → s.parent ≡ finished → ChildStep s listening (record s { child = gone })
  answer :
      (block : Bytes)
      → ChildStep s
          (answering block)
          (record s { inbound = s.inbound ++ upper block; child = listening })

pub data Step (s : State) : State → Type 0 where
  of_parent : {s' : State} → ParentStep s s.parent s' → Step s s'
  of_child : {s' : State} → ChildStep s s.child s' → Step s s'

abbrev pub start : Bytes → State
start input = record {
  stdin = input;
  outbound = [];
  inbound = [];
  stdout = [];
  parent = reading;
  child = listening;
}

pub data Reach (input : Bytes) : State → Type 0 where
  begin : Reach input (start input)
  next : {s s' : State} → Reach input s → Step s s' → Reach input s'

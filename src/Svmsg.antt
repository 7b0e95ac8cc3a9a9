-- ===== src/Svmsg.antt =====
-- The file server TLPI/svmsg/svmsg_file_server.c and its client svmsg_file_client.c, which talk by
-- System V message queues.
pub mod Laws
mod Tests
use bookcode_linux.Common.{
  ℕ, ◌^◌, ◌%◌, suc, ◌+◌, ◌-◌, Bool, true, false, Option, none, some, List, [], ◌∷◌, ◌++◌, Bytes,
  length, take, codes, ltb, if◌then◌else◌, Next, again, stop, loop,
}
use bookcode_linux.Io.Posix.{Stream, Got, got, error, read}

abbrev pub path_max : ℕ
path_max = 4096

abbrev pub resp_msg_size : ℕ
resp_msg_size = 8192

-- `struct responseMsg` by its type, with the bytes that are sent.
pub data Response : Type 0 where
  failure : Bytes → Response
  file_data : Bytes → Response
  end_of_data : Response

-- A queue with the messages in it, and whether the msgsnd(2) calls to come succeed; with no outcome
-- left they do.
abbrev pub Queue : Type 0
Queue = List Response × List Bool

abbrev pub send : Response → Queue → Bool × Queue
send m (msgs, []) = (true, (msgs ++ (m ∷ []), []))
send m (msgs, true ∷ oks) = (true, (msgs ++ (m ∷ []), oks))
send m (msgs, false ∷ oks) = (false, (msgs, oks))

-- The loop goes on if the message could be sent.
abbrev pub after_send : Stream → Bool × Queue → Next (Stream × Queue) Queue
after_send s (true, q) = again (s, q)
after_send s (false, q) = stop q

-- What one read leads to.
abbrev pub serve_turn : Queue → Got × Stream → Next (Stream × Queue) Queue
serve_turn q (got [], s) = stop q
serve_turn q (got (b ∷ bs), s) = after_send s (send (file_data (b ∷ bs)) q)
serve_turn q (error e, s) = stop q

unfoldable pub serve_round : Stream × Queue → Next (Stream × Queue) Queue
serve_round (s, q) = serve_turn q (read resp_msg_size s)

-- What follows the loop.
abbrev pub last_message : Option Queue → Option (Bool × Queue)
last_message none = none
last_message (some q) = some (true, (send end_of_data q).1)

-- The child's exit status, and the client's queue. The file is what open(2) gives. Each round takes
-- a byte or a turn, or ends the loop.
unfoldable pub serve_request : Option Stream → Queue → Option (Bool × Queue)
unfolding serve_round loop
serve_request none q = some (false, (send (failure (codes "Couldn't open" ++ 0 ∷ [])) q).1)
serve_request (some (p, ts)) q = elim (loop (length p + length ts + 1) serve_round ((p, ts), q)) [
  | none ↦ none
  | some q' ↦ some (true, (send end_of_data q').1)
]

-- `struct requestMsg`
pub record Request : Type 0 where
  pub client_id : ℕ
  pub pathname : Bytes

-- What msgrcv(2) and fork(2) return in the server's loop.
pub data Event : Type 0 where
  interrupted : Event
  receive_fails : Event
  received : Request → Event
  fork_fails : Request → Event

-- The requests that get a child of their own, until the server gives up or waits for more.
unfoldable pub server : List Event → List Request
server [] = []
server (interrupted ∷ es) = server es
server (receive_fails ∷ es) = []
server (received req ∷ es) = req ∷ server es
server (fork_fails req ∷ es) = []

-- How the client ends: a pathname too long, a failed call, the server's message, or the totals:
-- `totBytes`, and the 32 bits of `numMsgs`.
pub data Ended : Type 0 where
  too_long : Ended
  failed : Ended
  refused : Bytes → Ended
  totals : ℕ → ℕ → Ended

pub data Recv : Type 0 where
  message : Response → Recv
  fails : Recv

abbrev pub size : Response → ℕ
size (failure text) = length text
size (file_data bytes) = length bytes
size end_of_data = 0

abbrev pub is_data : Response → Bool
is_data (failure text) = false
is_data (file_data bytes) = true
is_data end_of_data = false

-- The loop behind a message: its type decides whether another is received. `none` is a client that
-- waits for a message.
unfoldable pub collect : ℕ → ℕ → List Recv → Option Ended
collect tot num [] = none
collect tot num (fails ∷ rs) = some failed
collect tot num (message m ∷ rs) =
    let rest = collect (tot + size m) ((num + 1) % 2 ^ 32) rs in
    if is_data m then rest else some (totals (tot + size m) ((num + 1) % 2 ^ 32))

-- What the first message leads to.
unfoldable pub client : List Recv → Option Ended
unfolding collect
client [] = none
client (fails ∷ rs) = some failed
client (message (failure text) ∷ rs) = some (refused text)
client (message (file_data bytes) ∷ rs) = collect (length bytes) 1 rs
client (message end_of_data ∷ rs) = some (totals 0 1)

-- The message that the client sends for a pathname, if the pathname is not too long.
unfoldable pub request : ℕ → Bytes → Option Request
request id path =
    if ltb (path_max - 1) (length path)
    then none
    else some (record { client_id = id; pathname = take (path_max - 1) path })

abbrev pub messages : List Response → List Recv
messages [] = []
messages (m ∷ ms) = message m ∷ messages ms

-- What the client does with all that the server's child put into its queue.
abbrev pub answered : Option (Bool × Queue) → Option Ended
answered none = none
answered (some (ok, q)) = client (messages q.0)

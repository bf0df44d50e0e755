-- ===== src/Server/Pipes.antt =====
-- server/proxy.go, `proxy`, from the start of its workers: the process, the pipes between it and the
-- workers, and who waits for whom. os/exec copies the stdin of the process in a goroutine of its
-- own, from the `io.Pipe` to a pipe of the system, and its output the other way; it closes neither
-- end of an `io.Pipe`.
pub mod Ends
pub mod Hang
pub mod Notice
use mcptp.Base.{ℕ, ◌+◌, ◌-◌, ◌<◌, ◌≡◌, ◌⊎◌, Bool, true, false}

-- `receiverStdin`: in `wsc.Read`, in `processStdin.Write`, or at its end, with the pipe closed.
pub data Receiver : Type 0 where
  reading writing stopped : Receiver

-- The goroutine that copies to the stdin of the process: it reads from the `io.Pipe`, it writes to
-- the pipe of the system, or it has ended.
pub data Copier : Type 0 where
  idle holding ended : Copier

-- `senderStdout`: it reads or sends, or it has sent to its channel.
pub data Sender : Type 0 where
  sending finished : Sender

-- `proxy`: in its `select`; after the sender, waiting for the receiver; in `subProcess.Wait`;
-- waiting for the sender; at its end; or at a panic, which net/http recovers from.
pub data Stage : Type 0 where
  selecting stopping_receiver waiting_process draining left panicked : Stage

-- `proxy` has returned, in either way.
abbrev pub is_over : Stage → Bool
is_over left = true
is_over panicked = true
is_over _ = false

-- `alive` is the process, `cancelled` the end of its context, `closed` tells that the receiver has
-- ended with nil, as the client has closed the websocket; `output` counts the chunks
-- that the process has written and the sender has not read.
pub record Connection : Type 0 where
  pub alive : Bool
  pub cancelled : Bool
  pub closed : Bool
  pub output : ℕ
  pub copier : Copier
  pub receiver : Receiver
  pub sender : Sender
  pub stage : Stage

abbrev pub start : Connection
start = record {
  alive = true;
  cancelled = false;
  closed = false;
  output = 0;
  copier = idle;
  receiver = reading;
  sender = sending;
  stage = selecting;
}

-- Who makes a step: the process, the client over the websocket, the signal that ends the server, or
-- the server itself.
pub data Actor : Type 0 where
  by_process by_client by_signal by_server : Actor

pub data Step : Actor → Connection → Connection → Type 0 where
  prints :
      (s : Connection) → s.alive ≡ true → Step by_process s (record s { output = s.output + 1 })
  exits : (s : Connection) → s.alive ≡ true → Step by_process s (record s { alive = false })
  cancels :
      (s : Connection) → s.cancelled ≡ false → Step by_signal s (record s { cancelled = true })
  -- `exec.CommandContext` kills the process when the context ends
  kills :
      (s : Connection)
      → s.cancelled ≡ true
      → s.alive ≡ true
      → Step by_server s (record s { alive = false })
  -- a binary message, which the receiver writes to the pipe
  receives :
      (s : Connection) → s.receiver ≡ reading → Step by_client s (record s { receiver = writing })
  -- a shutdown message, a bad message or a read that fails
  receiver_ends :
      (s : Connection) → s.receiver ≡ reading → Step by_client s (record s { receiver = stopped })
  -- the client closes the websocket
  client_closes :
      (s : Connection)
      → s.receiver ≡ reading
      → Step by_client s (record s { receiver = stopped; closed = true })
  -- its read fails since its context has ended
  receiver_cancelled :
      (s : Connection)
      → s.receiver ≡ reading
      → (s.cancelled ≡ true) ⊎ (s.stage ≡ stopping_receiver)
      → Step by_server s (record s { receiver = stopped })
  -- a read of the `io.Pipe` takes all that is being written, or a part
  takes_all :
      (s : Connection)
      → s.receiver ≡ writing
      → s.copier ≡ idle
      → Step by_server s (record s { receiver = reading; copier = holding })
  takes_part :
      (s : Connection)
      → s.receiver ≡ writing
      → s.copier ≡ idle
      → Step by_server s (record s { copier = holding })
  -- the process gets it, or there is none and the write fails
  delivers :
      (s : Connection)
      → s.copier ≡ holding
      → s.alive ≡ true
      → Step by_server s (record s { copier = idle })
  breaks :
      (s : Connection)
      → s.copier ≡ holding
      → s.alive ≡ false
      → Step by_server s (record s { copier = ended })
  -- the end of the `io.Pipe`, which the receiver has closed
  copier_ends :
      (s : Connection)
      → s.copier ≡ idle
      → s.receiver ≡ stopped
      → Step by_server s (record s { copier = ended })
  sends :
      (s : Connection)
      → s.sender ≡ sending
      → 0 < s.output
      → Step by_server s (record s { output = s.output - 1 })
  -- a write that fails, or a line that is no response
  sender_fails :
      (s : Connection)
      → s.sender ≡ sending
      → 0 < s.output
      → Step by_server s (record s { output = s.output - 1; sender = finished })
  -- its context has ended, and its end of the pipe is closed
  sender_closed :
      (s : Connection)
      → s.sender ≡ sending
      → (s.cancelled ≡ true) ⊎ (s.stage ≡ draining)
      → Step by_server s (record s { sender = finished })
  -- the two cases of the `select`, and the receive from the receiver's channel in the second
  selects_receiver :
      (s : Connection)
      → s.stage ≡ selecting
      → s.receiver ≡ stopped
      → s.closed ≡ false
      → Step by_server s (record s { stage = waiting_process })
  -- in the first, the log reads the fields of nil; the deferred calls end the context
  panics :
      (s : Connection)
      → s.stage ≡ selecting
      → s.receiver ≡ stopped
      → s.closed ≡ true
      → Step by_server s (record s { stage = panicked; cancelled = true })
  selects_sender :
      (s : Connection)
      → s.stage ≡ selecting
      → s.sender ≡ finished
      → Step by_server s (record s { stage = stopping_receiver })
  receiver_drained :
      (s : Connection)
      → s.stage ≡ stopping_receiver
      → s.receiver ≡ stopped
      → Step by_server s (record s { stage = waiting_process })
  -- `subProcess.Wait` returns only after the process has ended
  waits :
      (s : Connection)
      → s.stage ≡ waiting_process
      → s.alive ≡ false
      → Step by_server s (record s { stage = draining })
  -- the receive from the sender's channel, or from none if the sender was first
  drains :
      (s : Connection)
      → s.stage ≡ draining
      → s.sender ≡ finished
      → Step by_server s (record s { stage = left })

pub data Run : Connection → Connection → Type 0 where
  stop : (s : Connection) → Run s s
  more : {a : Actor} {s t u : Connection} → Step a s t → Run t u → Run s u

pub data Reach : Connection → Type 0 where
  here : Reach start
  next : {a : Actor} {s t : Connection} → Reach s → Step a s t → Reach t

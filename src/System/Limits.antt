-- ===== src/System/Limits.antt =====
-- The read limit that each side sets: what it lets through, and what it ends.
use mcptp.Base.{
  ℕ, ◌≤◌, ◌<◌, ◌≡◌, refl, sym, ap, ◌∙◌, All, All-append, some, false, List, [], ◌∷◌, ◌++◌,
  append-nil, map, String, Bytes, length, concat, ℤ,
}
use mcptp.Client
use mcptp.Client.Receiver.{Frame, binary_frame, text_frame}
use mcptp.Client.Receiver.Upload.{passed, last, data_frames, receive-frames}
use mcptp.Client.Sender.{
  Incoming, Turn, Sender, message, broken, written_ok, start, forward, running,
}
use mcptp.Client.Sender.Output.{arrives, forward-stdout}
use mcptp.Json.{Grammar, IsGrammar}
use mcptp.Oob.{frame, shutdown}
use mcptp.Server
use mcptp.Server.Close.{shutdown_acknowledged}
use mcptp.Server.Receiver.Relay.{view}
use mcptp.System.Download.{as_message, concat-as_message}
use mcptp.System.Upload.{deliver, delivered, message_of, Fits, data_frames-Fits}
use mcptp.Websocket.{
  MessageType, text_type, binary_type, status_normal_closure, binary_frame_max_size,
}

-- `Read` under a limit: a message within it is read, and a larger one is an error.
pub record IsLimited {I : Type 0} (limit : ℕ) (taken : MessageType → Bytes → I) (fails : I → Type 0)
    (read : MessageType × Bytes → I) : Type 0 where
  pub fits : (m : MessageType × Bytes) → length m.1 ≤ limit → read m ≡ taken m.0 m.1
  pub exceeds : (m : MessageType × Bytes) → limit < length m.1 → fails (read m)

-- What the reads of either side return for a message that is too large.
abbrev pub ClientFails : Incoming → Type 0
ClientFails i = (e : String) × (i ≡ broken e)

abbrev pub ServerFails : Server.Receiver.Incoming → Type 0
ServerFails i = (status : ℤ) × (e : String) × (i ≡ Server.Receiver.failed status e)

-- The rounds for some messages, read that way, with a stdout that takes what is written.
abbrev pub rounds : (MessageType × Bytes → Incoming) → List (MessageType × Bytes) → List Turn
rounds read msgs = map (λ m. record { incoming = read m; written = written_ok }) msgs

pub rounds-fits :
    (limit : ℕ) (read : MessageType × Bytes → Incoming) (msgs more : List (MessageType × Bytes))
    → IsLimited limit message ClientFails read
    → All (λ (m : MessageType × Bytes). length m.1 ≤ limit) msgs
    → rounds read (msgs ++ more) ≡ map arrives msgs ++ rounds read more
rounds-fits limit read [] more i a = refl
rounds-fits limit read (m ∷ msgs) more i (l, a) =
    rw (i.fits m l) (ap (λ ts. arrives m ∷ ts) (rounds-fits limit read msgs more i a))

-- A frame of the client as the server reads it that way; the process takes what it is given.
abbrev pub read_frame :
    (MessageType × Bytes → Server.Receiver.Incoming) → Frame → Server.Receiver.Turn
read_frame read f = record { incoming = read (message_of f); written = Server.Receiver.all_written }

read_frame-Fits :
    (limit : ℕ) (read : MessageType × Bytes → Server.Receiver.Incoming) (frames : List Frame)
    → IsLimited limit Server.Receiver.message ServerFails read
    → All (Fits limit) frames
    → map (read_frame read) frames ≡ map deliver frames
read_frame-Fits limit read [] i a = refl
read_frame-Fits limit read (binary_frame msg ∷ frames) i (l, a) =
    rw (i.fits (binary_type, msg) l)
      (ap (λ ts. deliver (binary_frame msg) ∷ ts) (read_frame-Fits limit read frames i a))
read_frame-Fits limit read (text_frame msg ∷ frames) i (l, a) =
    rw (i.fits (text_type, msg) l)
      (ap (λ ts. deliver (text_frame msg) ∷ ts) (read_frame-Fits limit read frames i a))

-- The client's stdin, read in chunks that its buffer holds and then closed, becomes frames after
-- which its worker waits; a server that reads them under the limit, which its shutdown message fits
-- as well, gives the process the same bytes on a stdin that is then closed, and asks for a normal
-- closure, whatever would follow.
pub upload_limited :
    (G : Grammar) (read : MessageType × Bytes → Server.Receiver.Incoming) (chunks : List Bytes)
    (rest : List Server.Receiver.Turn)
    → IsGrammar G
    → IsLimited binary_frame_max_size Server.Receiver.message ServerFails read
    → All (λ chunk. length chunk ≤ binary_frame_max_size) chunks
    → length (frame G shutdown) ≤ binary_frame_max_size
    → (frames : List Frame) × (Client.Receiver.receive G [] (map passed chunks ++ last [] ∷ [])
        ≡ Client.Receiver.awaiting frames)
      × (view
            (Server.Receiver.receive G Server.Receiver.start (map (read_frame read) frames ++ rest))
          ≡ record {
            result =
                some
                  (some (record { code = status_normal_closure; reason = shutdown_acknowledged }));
            stdin = concat chunks;
            stdin_open = false;
          })
upload_limited G read chunks rest g i a l =
    let quit = text_frame (frame G shutdown) ∷ [] in
    let frames = data_frames chunks ++ quit in
    let fit =
      All-append (Fits binary_frame_max_size) (data_frames chunks) quit (data_frames-Fits chunks a)
        (l, tt) in
    (
      frames,
      receive-frames G [] chunks [],
      rw (read_frame-Fits binary_frame_max_size read frames i fit) (delivered G g chunks rest),
    )

pub All-as_message :
    (limit : ℕ) (frames : List Bytes)
    → All (λ msg. length msg ≤ limit) frames
    → All (λ (m : MessageType × Bytes). length m.1 ≤ limit) (map as_message frames)
All-as_message limit [] a = tt
All-as_message limit (f ∷ frames) (l, a) = (l, All-as_message limit frames a)

pub rounds-read :
    (limit : ℕ) (read : MessageType × Bytes → Incoming) (msgs : List (MessageType × Bytes))
    → IsLimited limit message ClientFails read
    → All (λ (m : MessageType × Bytes). length m.1 ≤ limit) msgs
    → rounds read msgs ≡ map arrives msgs ++ []
rounds-read limit read msgs i a =
    ap (rounds read) (sym (append-nil msgs)) ∙ rounds-fits limit read msgs [] i a

-- Whatever the process writes and whatever fails at the server: if no read of its stdout gives more
-- than the buffer holds, a client that reads the frames of the server under the limit loses none to
-- it: its worker goes on, and its stdout has got all of them, in order and whole.
pub download_limited :
    (G : Grammar) (read : MessageType × Bytes → Incoming) (remote : List Server.Stdout.Turn)
    → IsLimited binary_frame_max_size message ClientFails read
    → All (λ (t : Server.Stdout.Turn). length t.chunk ≤ binary_frame_max_size) remote
    → let frames =
        Server.Stdout.Prefixes.frames_of (Server.Stdout.forward G Server.Stdout.start remote) in
      (s : Sender) × (forward G start (rounds read (map as_message frames)) ≡ running s)
      × (s.stdout ≡ concat frames)
unfolding forward
download_limited G read remote i a =
    let frames =
      Server.Stdout.Prefixes.frames_of (Server.Stdout.forward G Server.Stdout.start remote) in
    let small =
      Server.Stdout.Sizes.forward-Small G binary_frame_max_size Server.Stdout.start remote a tt in
    let fit = All-as_message binary_frame_max_size frames small in
    let (s, e, o) = forward-stdout G start (map as_message frames) [] in
    (
      s,
      rw (rounds-read binary_frame_max_size read (map as_message frames) i fit) e,
      o ∙ concat-as_message frames,
    )

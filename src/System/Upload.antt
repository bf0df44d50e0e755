-- ===== src/System/Upload.antt =====
-- From the local stdin to the stdin of the remote process.
use mcptp.Base.{
  ℕ, ◌≤◌, ◌≡◌, refl, ap, some, List, [], ◌∷◌, ◌++◌, append_assoc, map, Bytes, concat, false, All,
  length,
}
use mcptp.Client
use mcptp.Client.Receiver.{Frame, binary_frame, text_frame, awaiting}
use mcptp.Client.Receiver.Upload.{passed, last, data_frames, receive-frames}
use mcptp.Json.{Grammar, IsGrammar}
use mcptp.Oob.{shutdown, frame}
use mcptp.Server.Close.{shutdown_acknowledged}
use mcptp.Server
use mcptp.Server.Receiver.{Turn, message, all_written, start}
use mcptp.Server.Receiver.Relay.{view, relayed, receive-shutdown}
use mcptp.Websocket.{
  MessageType, text_type, binary_type, status_normal_closure, binary_frame_max_size,
}

-- A frame as the server reads it; the process takes what it is given.
abbrev pub deliver : Frame → Turn
deliver (binary_frame msg) = relayed msg
deliver (text_frame msg) = record { incoming = message text_type msg; written = all_written }

-- The chunks that have bytes.
abbrev pub nonempty : List Bytes → List Bytes
nonempty [] = []
nonempty ([] ∷ chunks) = nonempty chunks
nonempty ((b ∷ bs) ∷ chunks) = (b ∷ bs) ∷ nonempty chunks

concat-nonempty : (chunks : List Bytes) → concat (nonempty chunks) ≡ concat chunks
concat-nonempty [] = refl
concat-nonempty ([] ∷ chunks) = concat-nonempty chunks
concat-nonempty ((b ∷ bs) ∷ chunks) = ap (λ x. (b ∷ bs) ++ x) (concat-nonempty chunks)

deliver-data_frames :
    (chunks : List Bytes) (rest : List Frame)
    → map deliver (data_frames chunks ++ rest) ≡ map relayed (nonempty chunks) ++ map deliver rest
deliver-data_frames [] rest = refl
deliver-data_frames ([] ∷ chunks) rest = deliver-data_frames chunks rest
deliver-data_frames ((b ∷ bs) ∷ chunks) rest =
    ap (λ x. relayed (b ∷ bs) ∷ x) (deliver-data_frames chunks rest)

-- When the server reads these frames, the process has been given the same bytes on a stdin that is
-- then closed, and the server's worker asks for a normal closure.
pub delivered :
    (G : Grammar)
    → IsGrammar G
    → (chunks : List Bytes) (rest : List Turn)
    → view (
        Server.Receiver.receive G start
          (map deliver (data_frames chunks ++ text_frame (frame G shutdown) ∷ []) ++ rest))
      ≡ record {
        result =
            some (some (record { code = status_normal_closure; reason = shutdown_acknowledged }));
        stdin = concat chunks;
        stdin_open = false;
      }
delivered G g chunks rest =
    rw
      (
        deliver-data_frames chunks (text_frame (frame G shutdown) ∷ []),
        append_assoc,
        ← concat-nonempty chunks,
      )
      (receive-shutdown G g start (nonempty chunks) all_written rest)

-- The client's stdin, read in any chunks and then closed, becomes frames after which the client's
-- worker waits. When the server reads them, the process has been given the same bytes on a stdin
-- that is then closed, and the server's worker asks for a normal closure.
pub upload :
    (G : Grammar)
    → IsGrammar G
    → (chunks : List Bytes) (rest : List Turn)
    → (frames : List Frame) × (Client.Receiver.receive G [] (map passed chunks ++ last [] ∷ [])
        ≡ awaiting frames)
      × (view (Server.Receiver.receive G start (map deliver frames ++ rest)) ≡ record {
        result =
            some (some (record { code = status_normal_closure; reason = shutdown_acknowledged }));
        stdin = concat chunks;
        stdin_open = false;
      })
upload G g chunks rest = (
  data_frames chunks ++ text_frame (frame G shutdown) ∷ [],
  receive-frames G [] chunks [],
  delivered G g chunks rest,
)

-- A frame as a message.
abbrev pub message_of : Frame → MessageType × Bytes
message_of (binary_frame msg) = (binary_type, msg)
message_of (text_frame msg) = (text_type, msg)

abbrev pub Fits : ℕ → Frame → Type 0
Fits limit f = length (message_of f).1 ≤ limit

pub data_frames-Fits :
    (chunks : List Bytes)
    → All (λ c. length c ≤ binary_frame_max_size) chunks
    → All (Fits binary_frame_max_size) (data_frames chunks)
data_frames-Fits [] h = tt
data_frames-Fits ([] ∷ chunks) h = data_frames-Fits chunks h.1
data_frames-Fits ((b ∷ bs) ∷ chunks) h = (h.0, data_frames-Fits chunks h.1)

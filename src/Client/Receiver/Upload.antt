-- ===== src/Client/Receiver/Upload.antt =====
-- The frames that the local stdin becomes.
use mcptp.Base.{◌≡◌, refl, ap, ◌∙◌, none, some, List, [], ◌∷◌, ◌++◌, append_assoc, map, Bytes}
use mcptp.Json.{Grammar}
use mcptp.Oob.{shutdown, frame}
use mcptp.Client.Receiver.{Turn, eof, sent_ok, Frame, binary_frame, text_frame, awaiting, receive}

-- A read of bytes with no error, which are sent.
abbrev pub passed : Bytes → Turn
passed chunk = record { chunk = chunk; read_error = none; sent = sent_ok; sent_shutdown = sent_ok }

-- A read that meets the end of the input, and brings the last bytes or none.
abbrev pub last : Bytes → Turn
last chunk = record {
  chunk = chunk;
  read_error = some eof;
  sent = sent_ok;
  sent_shutdown = sent_ok;
}

-- The data frames for some chunks; no frame for an empty one.
abbrev pub data_frames : List Bytes → List Frame
data_frames [] = []
data_frames ([] ∷ chunks) = data_frames chunks
data_frames ((b ∷ bs) ∷ chunks) = binary_frame (b ∷ bs) ∷ data_frames chunks

-- An input that is read to its end is sent as one binary frame for each read, in order and
-- unchanged, with the shutdown message behind; then the worker waits.
pub receive-frames :
    (G : Grammar) (frames : List Frame) (chunks : List Bytes) (rest : List Turn)
    → receive G frames (map passed chunks ++ last [] ∷ rest)
      ≡ awaiting (frames ++ (data_frames chunks ++ text_frame (frame G shutdown) ∷ []))
unfolding receive
receive-frames G frames [] rest = refl
receive-frames G frames ([] ∷ chunks) rest = receive-frames G frames chunks rest
receive-frames G frames ((b ∷ bs) ∷ chunks) rest =
    receive-frames G (frames ++ binary_frame (b ∷ bs) ∷ []) chunks rest
    ∙ ap awaiting (rw append_assoc)

-- ===== src/System/Download.antt =====
-- From the stdout of the remote process to the local stdout.
use mcptp.Base.{◌≡◌, ◌≢◌, All, refl, ap, ◌∙◌, List, [], ◌∷◌, ◌++◌, append-nil, map, Bytes, concat}
use mcptp.Client
use mcptp.Client.Sender.Output.{arrives, payload_of, forward-stdout}
use mcptp.Json.{Grammar}
use mcptp.Server
use mcptp.Server.Stdout.Responses.{IsResponse, stream, stream-Accepted}
use mcptp.Server.Stdout.Frames.{passed, Accepted, forward-frames}
use mcptp.Websocket.{MessageType, binary_type}

-- A frame of the server as the client reads it.
abbrev pub as_message : Bytes → MessageType × Bytes
as_message chunk = (binary_type, chunk)

pub concat-as_message :
    (frames : List Bytes)
    → concat (map (λ m. payload_of (Client.Sender.message m.0 m.1)) (map as_message frames))
      ≡ concat frames
concat-as_message [] = refl
concat-as_message (f ∷ frames) = ap (λ x. f ++ x) (concat-as_message frames)

-- What the process writes to its stdout in chunks that the server's accumulator accepts is sent in
-- frames, and when the client has read them its stdout has been given the same bytes. Both workers
-- go on.
pub download :
    (G : Grammar) (chunks : List Bytes)
    → Accepted G [] chunks
    → (s : Server.Stdout.Sender) × (c : Client.Sender.Sender) × (Server.Stdout.forward G
          Server.Stdout.start
          (map passed chunks)
        ≡ Server.Stdout.running s)
      × (Client.Sender.forward G Client.Sender.start (map arrives (map as_message s.frames))
          ≡ Client.Sender.running c)
      × (c.stdout ≡ concat chunks)
unfolding Server.Stdout.forward Client.Sender.forward
download G chunks h =
    let (s, e, f) = forward-frames G Server.Stdout.start chunks [] h in
    let (c, e', f') = forward-stdout G Client.Sender.start (map as_message s.frames) [] in
    (s, c, rw append-nil at e, rw append-nil at e', f' ∙ concat-as_message s.frames ∙ ap concat f)

-- A process that writes valid responses, one to a line, and whose output is read in any chunks that
-- are not empty, loses none of it: both workers go on, and the client has written the same bytes to
-- its stdout, line for line.
pub download_responses :
    (G : Grammar) (lines chunks : List Bytes)
    → All (IsResponse G) lines
    → All (λ chunk. chunk ≢ []) chunks
    → concat chunks ≡ stream lines
    → (s : Server.Stdout.Sender) × (c : Client.Sender.Sender) × (Server.Stdout.forward G
          Server.Stdout.start
          (map passed chunks)
        ≡ Server.Stdout.running s)
      × (Client.Sender.forward G Client.Sender.start (map arrives (map as_message s.frames))
          ≡ Client.Sender.running c)
      × (c.stdout ≡ stream lines)
download_responses G lines chunks a n e =
    let (s, c, p, q, r) = download G chunks (stream-Accepted G chunks [] lines a n e) in
    (s, c, p, q, r ∙ e)

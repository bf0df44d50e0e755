-- ===== src/System/Session.antt =====
-- A whole session of the two proxies, from the local stdin to the exit of the client's worker.
use mcptp.Base.{
  ℕ, ◌≤◌, length, All-append, subst, Bool, ◌≡◌, ◌≢◌, All, refl, sym, ap, ◌∙◌, true, false, some,
  List, [], ◌∷◌, ◌++◌, append-nil, map, Bytes, concat, ℤ, pos, eqb_ℤ, if◌then◌else◌,
}
use mcptp.Client
use mcptp.Client.Exit.{ExitError, in_proxy}
use mcptp.Client.Proxy.{FirstRead, sender_first, connected, action}
use mcptp.Client.Proxy.Exits.{spawns, proxy-Starts_iff, action-code}
use mcptp.Client.Receiver.Upload.{last}
use mcptp.Client.Sender.{Incoming, Turn, Sender, forward, finished, closed, message, written_ok}
use mcptp.Client.Sender.Endings.{code_of, told, last_code, forward-code}
use mcptp.Client.Sender.Output.{forward-stdout, closed-stdout}
use mcptp.Json.{Grammar, IsGrammar, fits_int}
use mcptp.Oob.{start_ok, shutdown, ServerExited, server_exited, frame, read_message, received}
use mcptp.Oob.RoundTrip.{as_texts, read_message-frame}
use mcptp.Server
use mcptp.Server.Close.{CloseError, shutdown_acknowledged, ungraceful}
use mcptp.Server.Proxy.{receiver_first, Waited, no_error, exit_error, wait_error, proxy}
use mcptp.Server.Proxy.Reports.{Tells, proxy-Tells}
use mcptp.Server.Proxy.Traces.{closes, world}
use mcptp.Server.Receiver.Relay.{view}
use mcptp.Server.Stdout.Frames.{passed, forward-frames}
use mcptp.Server.Stdout.Responses.{IsResponse, stream, stream-Accepted}
use mcptp.System.Limits.{
  IsLimited, ClientFails, ServerFails, rounds, rounds-read, read_frame, upload_limited,
}
use mcptp.System.Noise.{data_of, mixed, mixed-data, Within, LineWithin, mixed-Within}
use mcptp.System.ExitCode.{FitsWaited, Tells-FitsInt, ToldBy, heard, last_code-append, told_clean}
use mcptp.Websocket.{
  MessageType, text_type, binary_frame_max_size, status_normal_closure, status_internal_error,
}

-- What the process is waited for with decides how the server closes the websocket, and the code of the
-- client's worker.
abbrev pub closed_with : Waited → CloseError
closed_with no_error = record { code = status_normal_closure; reason = shutdown_acknowledged }
closed_with _ = record { code = status_internal_error; reason = ungraceful }

abbrev pub clean_code : Waited → ℤ
clean_code no_error = pos 0
clean_code _ = pos 1

proxy-closes_with :
    (pid : ℤ) (w : Waited)
    → closes (proxy (world pid (receiver_first (some (closed_with no_error))) w)).0
      ≡ closed_with w ∷ []
unfolding proxy
proxy-closes_with pid no_error = refl
proxy-closes_with pid (exit_error b code e) = refl
proxy-closes_with pid (wait_error e) = refl

code_of_clean :
    (w : Waited) (m : ServerExited)
    → Tells w m
    → (if eqb_ℤ (closed_with w).code status_normal_closure then code_of m else pos 1) ≡ clean_code w
code_of_clean no_error m t = told_clean no_error m refl t
code_of_clean (exit_error b code e) m t = refl
code_of_clean (wait_error e) m t = refl

-- What the client's worker makes of the messages, the one that tells of the exit, and the close.
heard-ends :
    (G : Grammar) (msgs : List (MessageType × Bytes)) (m : ServerExited) (status : ℤ)
    → read_message G (frame G (server_exited m)) ≡ received (as_texts G (server_exited m))
    → (e : ExitError) × (s : Sender) × (forward G Client.Sender.start
          (heard G msgs m status written_ok)
        ≡ finished e s)
      × (s.stdout ≡ data_of (msgs ++ (text_type, frame G (server_exited m)) ∷ []))
      × (e.code ≡ (if eqb_ℤ status status_normal_closure then code_of m else pos 1))
heard-ends G msgs m status read =
    let exit : MessageType × Bytes = (text_type, frame G (server_exited m)) in
    let (e, s, ends, code) =
      forward-code G Client.Sender.start (msgs ++ exit ∷ []) status written_ok [] in
    let (t, goes, stdout) = forward-stdout G Client.Sender.start (msgs ++ exit ∷ []) _ in
    let last : last_code G (msgs ++ exit ∷ []) (pos 0) ≡ code_of m =
      last_code-append G msgs exit (pos 0) ∙ rw (read, told) in
    (e, s, ends, closed-stdout G t s status e (sym goes ∙ ends) ∙ stdout, rw last at code)

-- The first message of the server, as the client reads it.
abbrev pub greeting : Grammar → ℤ → FirstRead
greeting G pid = Client.Proxy.message text_type (frame G (start_ok pid))

-- What the client's worker reads, under its limit: the messages, the one that tells of the exit, and
-- the close.
abbrev pub heard_limited :
    Grammar
    → (MessageType × Bytes → Incoming)
    → List (MessageType × Bytes)
    → ServerExited
    → ℤ
    → List Turn
heard_limited G read msgs m status =
    rounds read (msgs ++ (text_type, frame G (server_exited m)) ∷ [])
    ++ record { incoming = closed status; written = written_ok } ∷ []

heard_limited-Within :
    (G : Grammar) (read : MessageType × Bytes → Incoming) (msgs : List (MessageType × Bytes))
    (m : ServerExited) (status : ℤ)
    → IsLimited binary_frame_max_size message ClientFails read
    → All (Within binary_frame_max_size) msgs
    → length (frame G (server_exited m)) ≤ binary_frame_max_size
    → heard_limited G read msgs m status ≡ heard G msgs m status written_ok
heard_limited-Within G read msgs m status i a l =
    let exit : List (MessageType × Bytes) = (text_type, frame G (server_exited m)) ∷ [] in
    let fit = All-append (Within binary_frame_max_size) msgs exit a (l, tt) in
    ap (λ turns. turns ++ record { incoming = closed status; written = written_ok } ∷ [])
      (rounds-read binary_frame_max_size read (msgs ++ exit) i fit ∙ append-nil _)

passed-All :
    (limit : ℕ) (outs : List Bytes)
    → All (λ chunk. length chunk ≤ limit) outs
    → All (λ (t : Server.Stdout.Turn). length t.chunk ≤ limit) (map passed outs)
passed-All limit [] a = tt
passed-All limit (chunk ∷ outs) (l, a) = (l, passed-All limit outs a)

-- The sizes in a session: each chunk that is read fits the buffer, and each text message fits the
-- read limit.
pub record Sizes (G : Grammar) (stdin outs : List Bytes) (noise : List (List Bytes)) (w : Waited)
    : Type 0 where
  pub stdin_within : All (λ chunk. length chunk ≤ binary_frame_max_size) stdin
  pub outs_within : All (λ chunk. length chunk ≤ binary_frame_max_size) outs
  pub noise_within : All (All (LineWithin G binary_frame_max_size)) noise
  pub shutdown_within : length (frame G shutdown) ≤ binary_frame_max_size
  pub exit_within :
      (m : ServerExited) → Tells w m → length (frame G (server_exited m)) ≤ binary_frame_max_size

-- A session in which no write fails and each side reads under its limit. The client reads `stdin` in
-- chunks and then its end, the process writes `lines` to its stdout, which the server reads as `outs`
-- before its worker is stopped, some lines to its stderr, and is waited for with `w`;
-- `in_time` tells whether the reader of the client's stdin ends within 100 ms of being told to.
pub record Session (G : Grammar) (stdin lines outs : List Bytes) (noise : List (List Bytes))
    (client_read : MessageType × Bytes → Incoming)
    (server_read : MessageType × Bytes → Server.Receiver.Incoming) (pid : ℤ) (w : Waited)
    (in_time : Bool) : Type 0 where
  -- the worker of the client puts its stdin in frames, and waits
  pub frames : List Client.Receiver.Frame
  pub reads :
      Client.Receiver.receive G [] (map Client.Receiver.Upload.passed stdin ++ last [] ∷ [])
      ≡ Client.Receiver.awaiting frames
  -- the worker of the server gives them to the process, closes its stdin, and ends
  pub asks : CloseError
  pub writes :
      view (Server.Receiver.receive G Server.Receiver.start (map (read_frame server_read) frames))
      ≡ record { result = some (some asks); stdin = concat stdin; stdin_open = false }
  -- the other worker of the server sends the stdout of the process, and goes on
  pub sender : Server.Stdout.Sender
  pub sends :
      Server.Stdout.forward G Server.Stdout.start (map passed outs) ≡ Server.Stdout.running sender
  -- the proxy of the server, whose first worker to end was the first one, tells of the exit and
  -- closes the websocket
  pub tells : ServerExited
  pub told_by : ToldBy pid (receiver_first (some asks)) w tells
  pub truly : Tells w tells
  pub close : CloseError
  pub closing : closes (proxy (world pid (receiver_first (some asks)) w)).0 ≡ close ∷ []
  -- the other worker of the client reads all that, writes the stdout of the process, and ends
  pub exit : ExitError
  pub ending : Sender
  pub ends :
      forward G Client.Sender.start
        (heard_limited G client_read (mixed G noise sender.frames) tells close.code)
      ≡ finished exit ending
  pub stdout : ending.stdout ≡ stream lines
  pub code : exit.code ≡ clean_code w
  -- the proxy of the client, which has started its workers on the first message of the server, ends
  -- with that worker
  pub greets : spawns (Client.Proxy.proxy G (greeting G pid) (sender_first exit in_time)).0 ≡ true
  pub status :
      action G (connected (greeting G pid) (sender_first exit in_time))
      ≡ record { reason = in_proxy exit.reason; code = pos 3 }

-- In every session of a process that writes valid responses, one to a line, in which no write fails,
-- the server reads and sends all that the process writes to its stdout before it stops its worker,
-- and no chunk and no text message is larger than `BinaryFrameMaxSize`, the buffer and the read limit
-- of both sides: the process is given the bytes of the client's stdin and then its end, and the client
-- writes the lines to its stdout, in order and whole, whatever else is on the stderr; the client's
-- worker ends with the code 0 exactly if the process ended without an error, and with 1 if not, and
-- the client's command with 3. It holds for numbers that are Go ints, any cut into chunks, and any
-- grammar that reads what it prints.
pub session :
    (G : Grammar) (stdin lines outs : List Bytes) (noise : List (List Bytes))
    (client_read : MessageType × Bytes → Incoming)
    (server_read : MessageType × Bytes → Server.Receiver.Incoming) (pid : ℤ) (w : Waited)
    (in_time : Bool)
    → IsGrammar G
    → IsLimited binary_frame_max_size message ClientFails client_read
    → IsLimited binary_frame_max_size Server.Receiver.message ServerFails server_read
    → Sizes G stdin outs noise w
    → All (IsResponse G) lines
    → All (λ chunk. chunk ≢ []) outs
    → concat outs ≡ stream lines
    → FitsWaited w
    → fits_int pid ≡ true
    → Session G stdin lines outs noise client_read server_read pid w in_time
unfolding Server.Stdout.forward
session G stdin lines outs noise client_read server_read pid w in_time g cl sl z a n e f i =
    let (frames, reads, writes) =
      upload_limited G server_read stdin [] g sl z.stdin_within z.shutdown_within in
    let (out, sends, whole) =
      forward-frames G Server.Stdout.start outs [] (stream-Accepted G outs [] lines a n e) in
    let sent = rw append-nil at sends in
    let small =
      subst
        (λ (p : Server.Stdout.Progress).
          All (Server.Stdout.Sizes.Small binary_frame_max_size)
            (Server.Stdout.Prefixes.frames_of p))
        sent
        (Server.Stdout.Sizes.forward-Small G binary_frame_max_size Server.Stdout.start
          (map passed outs) (passed-All binary_frame_max_size outs z.outs_within) tt) in
    let (m, before, after, trace, t, _, _, _, _, _) =
      proxy-Tells pid (receiver_first (some (closed_with no_error))) w (λ h. cc) in
    let msgs = mixed G noise out.frames in
    let (x, s, ends, stdout, code) =
      heard-ends G msgs m (closed_with w).code
        (read_message-frame G g (server_exited m) (Tells-FitsInt w m t f)) in
    let fits =
      heard_limited-Within G client_read msgs m (closed_with w).code cl
        (mixed-Within G binary_frame_max_size noise out.frames z.noise_within small)
        (z.exit_within m t) in
    let hello = read_message-frame G g (start_ok pid) i in
    record {
      frames = frames;
      reads = reads;
      asks = closed_with no_error;
      writes = rw append-nil at writes;
      sender = out;
      sends = sent;
      tells = m;
      told_by = (before, after, trace);
      truly = t;
      close = closed_with w;
      closing = proxy-closes_with pid w;
      exit = x;
      ending = s;
      ends = ap (forward G Client.Sender.start) fits ∙ ends;
      stdout = stdout ∙ mixed-data G noise out.frames m ∙ ap concat whole ∙ e;
      code = code ∙ code_of_clean w m t;
      greets =
          (proxy-Starts_iff G (greeting G pid) (sender_first x in_time)).1 (_, pid, refl, hello);
      status = action-code G (frame G (start_ok pid)) pid (sender_first x in_time) hello;
    }

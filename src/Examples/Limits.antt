-- ===== src/Examples/Limits.antt =====
-- What the read limits let through.
use mcptp.Base.{
  ℕ, ◌≡◌, refl, inl, inr, Bool-cases, some, false, List, [], ◌∷◌, ◌++◌, ltb, length, map, Bytes,
  if◌then◌else◌, negsuc, arith,
}
use mcptp.Client
use mcptp.Client.Sender.{Incoming, message, broken, Sender, start, forward, running}
use mcptp.Examples.Postfix.{postfix, postfix-IsGrammar}
use mcptp.Jsonrpc.Accumulator.{accumulate_response}
use mcptp.Oob.{frame}
use mcptp.Server
use mcptp.Client.Receiver.{Frame}
use mcptp.Client.Receiver.Upload.{passed, last}
use mcptp.Server.Close.{shutdown_acknowledged}
use mcptp.Server.Receiver.Relay.{view}
use mcptp.System.Download.{as_message}
use mcptp.System.Limits.{
  IsLimited, ClientFails, ServerFails, rounds, read_frame, upload_limited, download_limited,
}
use mcptp.Websocket.{MessageType, binary_type, status_normal_closure, binary_frame_max_size}

-- A read with a limit, for either side.
abbrev limited : {I : Type 0} → ℕ → (MessageType → Bytes → I) → I → MessageType × Bytes → I
limited limit taken fails (kind, msg) = if ltb limit (length msg) then fails else taken kind msg

limited-IsLimited :
    {I : Type 0} (limit : ℕ) (taken : MessageType → Bytes → I) (e : I) (fails : I → Type 0)
    → fails e
    → IsLimited limit taken fails (limited limit taken e)
limited-IsLimited limit taken e fails f = record {
  fits = λ m l. elim (Bool-cases (ltb limit (length m.1))) [
    | inl h ↦ absurd (ground arith)
    | inr h ↦ rw h refl
  ];
  exceeds = λ m l. elim (Bool-cases (ltb limit (length m.1))) [
    | inl h ↦ rw h f
    | inr h ↦ absurd (ground arith)
  ];
}

abbrev pub client_read : ℕ → MessageType × Bytes → Incoming
client_read limit = limited limit message (broken "read limited")

pub client_read-IsLimited : (limit : ℕ) → IsLimited limit message ClientFails (client_read limit)
client_read-IsLimited limit =
    limited-IsLimited limit message (broken "read limited") ClientFails ("read limited", refl)

abbrev pub server_read : ℕ → MessageType × Bytes → Server.Receiver.Incoming
server_read limit =
    limited limit Server.Receiver.message (Server.Receiver.failed (negsuc 0) "read limited")

pub server_read-IsLimited :
    (limit : ℕ) → IsLimited limit Server.Receiver.message ServerFails (server_read limit)
server_read-IsLimited limit =
    limited-IsLimited limit Server.Receiver.message _ ServerFails (negsuc 0, "read limited", refl)

-- Three chunks, of which the second is empty.
abbrev typed : List Bytes
typed = (1 ∷ 2 ∷ []) ∷ [] ∷ (3 ∷ []) ∷ []

upload_limited_example :
    (frames : List Frame) × (Client.Receiver.receive postfix [] (map passed typed ++ last [] ∷ [])
      ≡ Client.Receiver.awaiting frames)
    × (view (
          Server.Receiver.receive postfix Server.Receiver.start
            (map (read_frame (server_read binary_frame_max_size)) frames ++ []))
        ≡ record {
          result =
              some (some (record { code = status_normal_closure; reason = shutdown_acknowledged }));
          stdin = 1 ∷ 2 ∷ 3 ∷ [];
          stdin_open = false;
        })
unfolding frame postfix
upload_limited_example =
    upload_limited postfix (server_read binary_frame_max_size) typed [] postfix-IsGrammar
      (server_read-IsLimited binary_frame_max_size) (omega arith, (omega arith, (omega arith, tt)))
      (omega arith)

-- Two chunks, and a read that fails.
abbrev printed : List Server.Stdout.Turn
printed =
    Server.Stdout.Frames.passed (5 ∷ 6 ∷ [])
    ∷ record {
      chunk = 7 ∷ [];
      read_error = some (Server.Stdout.other "reset");
      sent = Server.Stdout.sent_ok;
    }
    ∷ []

download_limited_example :
    (s : Sender) × (forward postfix start (
        rounds (client_read binary_frame_max_size) (
          map as_message (
            Server.Stdout.Prefixes.frames_of
              (Server.Stdout.forward postfix Server.Stdout.start printed))))
      ≡ running s)
    × (s.stdout ≡ 5 ∷ 6 ∷ 7 ∷ [])
unfolding Server.Stdout.forward accumulate_response
download_limited_example =
    download_limited postfix (client_read binary_frame_max_size) printed
      (client_read-IsLimited binary_frame_max_size) (omega arith, (omega arith, tt))

abbrev line : Bytes
line = b'a' ∷ b' ' ∷ b'l' ∷ b'i' ∷ b'n' ∷ b'e' ∷ []

-- Two bytes of data, a line, and then data that never arrive.
abbrev data_first : List (MessageType × Bytes)
data_first = (binary_type, 7 ∷ 8 ∷ []) ∷ []

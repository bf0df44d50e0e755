-- ===== src/Examples/Losses.antt =====
-- Sessions that are cut off.
use mcptp.Base.{ℕ, refl, none, List, [], ◌∷◌, IsPrefix, negsuc}
use mcptp.Client
use mcptp.Examples.Postfix.{postfix}
use mcptp.Jsonrpc.Accumulator.{accumulate_request, accumulate_response}
use mcptp.Server
use mcptp.System.Losses.{upload-IsPrefix, download-IsPrefix}
use mcptp.Websocket.{binary_type}

-- The client reads three times, and its third write fails.
abbrev reads : List Client.Receiver.Turn
reads =
    Client.Receiver.Upload.passed (1 ∷ 2 ∷ [])
    ∷ Client.Receiver.Upload.passed (3 ∷ 4 ∷ [])
    ∷ record {
      chunk = 5 ∷ [];
      read_error = none;
      sent = Client.Receiver.send_failed "reset";
      sent_shutdown = Client.Receiver.sent_ok;
    }
    ∷ []

-- The server gets both messages, and its second write to the process is cut off after a byte.
abbrev writes : List Server.Receiver.Turn
writes =
    Server.Receiver.Relay.relayed (1 ∷ 2 ∷ [])
    ∷ record {
      incoming = Server.Receiver.message binary_type (3 ∷ 4 ∷ []);
      written = Server.Receiver.write_failed 1 "broken pipe";
    }
    ∷ []

upload-IsPrefix_example : IsPrefix {A = ℕ} (1 ∷ 2 ∷ 3 ∷ []) (1 ∷ 2 ∷ 3 ∷ 4 ∷ 5 ∷ [])
unfolding Client.Receiver.receive Server.Receiver.receive accumulate_request
upload-IsPrefix_example = upload-IsPrefix postfix reads writes ([], refl)

-- The server sends one chunk and fails to send the next; the client then loses the connection.
abbrev prints : List Server.Stdout.Turn
prints =
    Server.Stdout.Frames.passed (1 ∷ 2 ∷ [])
    ∷ record {
      chunk = 3 ∷ [];
      read_error = none;
      sent = Server.Stdout.send_failed (negsuc 0) "reset";
    }
    ∷ []

abbrev shows : List Client.Sender.Turn
shows =
    Client.Sender.Output.arrives (binary_type, 1 ∷ 2 ∷ [])
    ∷ record { incoming = Client.Sender.broken "reset"; written = Client.Sender.written_ok }
    ∷ []

download-IsPrefix_example : IsPrefix {A = ℕ} (1 ∷ 2 ∷ []) (1 ∷ 2 ∷ 3 ∷ [])
unfolding Server.Stdout.forward Client.Sender.forward accumulate_response
download-IsPrefix_example = download-IsPrefix postfix prints shows ([], refl)

-- ===== src/Examples/Clients.antt =====
-- The workers and the proxy of the client, and both proxies together.
use mcptp.Base.{arith, List, refl, true, false, some, [], ◌∷◌, ◌++◌, Bytes, pos}
use mcptp.Client.Exit.{websocket_failed}
use mcptp.Client.Proxy.{FirstRead, message, First, sender_first}
use mcptp.Client.Sender.{Sender}
use mcptp.Examples.Limits.{client_read, server_read, client_read-IsLimited, server_read-IsLimited}
use mcptp.Examples.Messages.{exited, exit_text, answer_line, answer_line-IsResponse}
use mcptp.Examples.Postfix.{postfix, postfix-IsGrammar}
use mcptp.Oob.{start_ok, process_stderr, server_exited, frame}
use mcptp.Server
use mcptp.Server.Close.{shutdown_acknowledged}
use mcptp.Server.Proxy.{receiver_first, exit_error, Waited}
use mcptp.System.Session.{Sizes, Session, session}
use mcptp.Websocket.{MessageType, text_type, status_normal_closure, binary_frame_max_size}

-- The process exits with 3 after an acknowledged shutdown.
abbrev acknowledged : Server.Proxy.First
acknowledged =
    receiver_first (some (record { code = status_normal_closure; reason = shutdown_acknowledged }))

abbrev exits : Waited
exits = exit_error true (pos 3) exit_text

abbrev bye : Bytes
bye = b'b' ∷ b'y' ∷ b'e' ∷ []

abbrev warning : MessageType × Bytes
warning = (text_type, frame postfix (process_stderr bye))

-- An exit message, and then a normal closure.
abbrev farewell : MessageType × Bytes
farewell = (text_type, frame postfix (server_exited exited))

-- The first message of a server whose process has started.
abbrev pub greeting : FirstRead
greeting = message text_type (frame postfix (start_ok (pos 9)))

abbrev pub lost : First
lost = sender_first (record { reason = websocket_failed "reset"; code = pos 1 }) true

abbrev chunks : List Bytes
chunks = (1 ∷ 2 ∷ []) ∷ [] ∷ (3 ∷ []) ∷ []

-- The process writes two lines, the first in two chunks, the second of them with the other line behind
-- it.
abbrev cut : List Bytes
cut = answer_line ∷ (10 ∷ answer_line ++ 10 ∷ []) ∷ []

session-Sizes : Sizes postfix chunks cut ((bye ∷ []) ∷ []) exits
unfolding frame postfix answer_line
session-Sizes = record {
  stdin_within = (omega arith, (omega arith, (omega arith, tt)));
  outs_within = (omega arith, (omega arith, tt));
  noise_within = ((omega arith, tt), tt);
  shutdown_within = omega arith;
  exit_within = λ m t. rw (t.0, t.1, t.2) (omega arith);
}

session_example :
    Session postfix chunks
      (answer_line ∷ answer_line ∷ [])
      cut
      ((bye ∷ []) ∷ [])
      (client_read binary_frame_max_size)
      (server_read binary_frame_max_size)
      (pos 9)
      exits
      false
unfolding postfix answer_line
session_example =
    session postfix chunks (answer_line ∷ answer_line ∷ []) cut ((bye ∷ []) ∷ [])
      (client_read binary_frame_max_size) (server_read binary_frame_max_size) (pos 9) exits false
      postfix-IsGrammar (client_read-IsLimited binary_frame_max_size)
      (server_read-IsLimited binary_frame_max_size) session-Sizes
      (answer_line-IsResponse, (answer_line-IsResponse, tt)) ((λ e. cc), ((λ e. cc), tt)) refl refl
      refl

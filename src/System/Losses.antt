-- ===== src/System/Losses.antt =====
-- Both directions when anything can fail: what arrives is a beginning of what was given.
use mcptp.Base.{List, [], concat, IsPrefix, IsPrefix-trans, concat-IsPrefix}
use mcptp.Client
use mcptp.Json.{Grammar}
use mcptp.Server

-- Whatever fails on either side, and wherever the connection is lost: if the binary messages that the
-- server reads are the first of those that the client has sent, what the process is given is a
-- beginning of what the client has read from its stdin.
pub upload-IsPrefix :
    (G : Grammar) (local : List Client.Receiver.Turn) (remote : List Server.Receiver.Turn)
    → IsPrefix (Server.Receiver.Prefixes.binaries remote) (
        Client.Receiver.Prefixes.binaries
          (Client.Receiver.Prefixes.frames_of (Client.Receiver.receive G [] local)))
    → IsPrefix
        (Server.Receiver.Prefixes.stdin_of (Server.Receiver.receive G Server.Receiver.start remote))
        (Client.Receiver.Prefixes.read_in local)
upload-IsPrefix G local remote p =
    let sent =
      Client.Receiver.Prefixes.binaries
        (Client.Receiver.Prefixes.frames_of (Client.Receiver.receive G [] local)) in
    IsPrefix-trans _ (concat sent) _
      (IsPrefix-trans _ (concat (Server.Receiver.Prefixes.binaries remote)) _
        (Server.Receiver.Prefixes.receive-IsPrefix G Server.Receiver.start remote)
        (concat-IsPrefix _ sent p))
      (Client.Receiver.Prefixes.receive-IsPrefix G local)

-- Whatever fails on either side, and wherever the connection is lost: if the binary messages that the
-- client reads are the first of those that the server has sent, what the client writes to its stdout is a beginning of what the
-- server has read from the process.
pub download-IsPrefix :
    (G : Grammar) (remote : List Server.Stdout.Turn) (local : List Client.Sender.Turn)
    → IsPrefix
        (Client.Sender.Prefixes.binaries local)
        (Server.Stdout.Prefixes.frames_of (Server.Stdout.forward G Server.Stdout.start remote))
    → IsPrefix
        (Client.Sender.Prefixes.stdout_of (Client.Sender.forward G Client.Sender.start local))
        (Server.Stdout.Prefixes.read_in remote)
download-IsPrefix G remote local p =
    let sent =
      Server.Stdout.Prefixes.frames_of (Server.Stdout.forward G Server.Stdout.start remote) in
    IsPrefix-trans _ (concat sent) _
      (IsPrefix-trans _ (concat (Client.Sender.Prefixes.binaries local)) _
        (Client.Sender.Prefixes.forward-IsPrefix G Client.Sender.start local)
        (concat-IsPrefix _ sent p))
      (Server.Stdout.Prefixes.forward-IsPrefix G Server.Stdout.start remote)

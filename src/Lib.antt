-- ===== src/Lib.antt =====
-- mcptp (MCP Teleport): a network proxy that lets a stdio MCP server run on another machine. The
-- MCP client launches the client proxy, whose stdin and stdout it uses as those of the MCP server.
-- The client proxy dials a websocket to the server proxy, which spawns the MCP server and forwards
-- its stdin, stdout and stderr. Data go in binary messages; the events of the process (it started,
-- it failed to start, it exited, a line of its stderr) and the end of the client's stdin go in text
-- messages, the out-of-band messages.
--
-- Files and what they model:
--   Base, Base/*                 shared names, tests, lists, integers
--   Json                         what the program uses of encoding/json
--   Jsonrpc/Request, Response, Error, Batch    protocol/jsonrpcv2/jsonrpcv2.go
--   Jsonrpc/Buffer, Accumulator  protocol/jsonrpcv2/accumulator.go and its bytes.Buffer
--   Oob, Oob/Send                protocol/oob.go
--   Websocket                    protocol/websocket.go
--   Server/Receiver, Stdout, Stderr    server/proxy.go: receiverStdin, senderStdout, senderStderr
--   Server/Proxy                 server/proxy.go: proxy, handleProcessWaitError,
--                                sendNormalExitMessage
--   Server/Admission             server/proxy.go: handleConnection with its counters
--   Server/Pipes                 server/proxy.go: the process, its pipes, and the waits of proxy
--   Server/Service               server/command.go: Command.Action and cleanShutdown
--   Server/Connections           both together, with every connection of the server
--   Server/Close                 the close errors of server/proxy.go
--   Client/Receiver, Sender      client/proxy.go: receiverStdin, senderStdout
--   Client/Proxy                 client/proxy.go: proxy; client/command.go: Command.Action
--   Client/Exit                  the values of cli.Exit in client/proxy.go
--   Flags, Client/Flags, Server/Flags, Mtls/Flags    client/command.go, server/command.go and
--                                mtls/command.go: the declarations of the flags
--   Settings, Client/Settings, Server/Settings    client/command.go and server/command.go: the
--                                validators and Before; isLoopbackHost; server/logger.go
--   Mtls/Certificates            protocol/mtls.go, generation
--   Mtls/Configuration           protocol/mtls.go, GetServerTLSConfig and GetClientTLSConfig
--   Mtls/Command                 mtls/command.go
--   Mtls/Laws                    what is assumed of crypto/x509 and crypto/tls
--   Program, Program/Commands    main.go: version, the commands, and the exit status of each
--   System/*                     what one proxy sends and the other reads
--   Examples/*                   tests, and an input for each result
-- Files below a component hold its lemmas and results, named for what they prove.
--
-- How it is modelled. A worker (a goroutine) is a function over a list of rounds: each round holds
-- the answers that its calls get (the message read, the error of a write and so on), so a list is
-- any behaviour of the environment, and a worker that has used up its list is blocked on the next
-- call. Its state is a record with its variables and what it has written so far. What it sends to
-- its channel is the result of the function. `proxy` of the server gives the list of its actions
-- and how it ends, a nil dereference being a panic. handleConnection is a step relation over the
-- handlers that are running, one step for each atomic operation. Server/Service puts around it the
-- steps of Action, of cleanShutdown and of the requests that come: there a handler that runs can
-- always return. Server/Pipes looks into one connection, with the goroutine of os/exec that copies
-- to the stdin of the process, and the panic of proxy; it keeps of the data only whether there are
-- any. Server/Connections puts the pipes of each connection into the service, so that a handler
-- returns only when its proxy does. Close reasons and exit messages are named by constructors in
-- place of their texts.
-- Log entries are kept as data where the program computes them. The output directory of the mTLS
-- command is an association list from names to files; a PEM file is named by its block, and the
-- randomness that a generation draws, the time and the errors of the disk are given by the
-- environment.
--
-- Bytes are numbers, and texts are native strings; the strings of the out-of-band payloads, which
-- may come from a process, are bytes, of which json.Marshal makes a text. An int is an integer
-- whose range is tested where json.Unmarshal tests it, and a number that becomes a float64 is
-- tested likewise. The connection counters are numbers: they count requests of one run and stay far
-- below 2 ^ 63. The only fuel is that of the accumulator's drain loop: the length of the buffer,
-- which each round makes shorter.
--
-- Parameters: the text grammar of JSON (Grammar: parse and print, with the hypothesis that a
-- printed value is read back, within the depth that json.Unmarshal takes; the text that is made of
-- a Go string, with the hypothesis that a text stays as it is; and which numbers are float64s),
-- what strconv prints of an integer, the functions of net, net/url, os/exec and strings that read a
-- command line, the cryptography (Crypto, with its documented promises, IsCrypto), and the command-
-- line library: Cli, with IsCli (it ends the process with the code of an error that has one, and
-- returns any other result), and Reader, with IsReader (how a flag gets its value). The read limit
-- of the websocket library is a function from messages to what conn.Read returns, with IsLimited.
-- json.RawMessage is kept as the value that its text stands for.
--
-- Not modelled: the inside of net/http, whose Serve is taken to be closed by Shutdown only, the
-- set-up of the signals in main.go, what the TLS handshake does with a configuration, and the texts
-- that a command shows as help.
pub mod Base
pub mod Client
pub mod Examples
pub mod Flags
pub mod Json
pub mod Jsonrpc
pub mod Mtls
pub mod Oob
pub mod Program
pub mod Server
pub mod Settings
pub mod System
pub mod Websocket

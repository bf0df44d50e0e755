-- ===== src/Examples/Services.antt =====
-- The server as a whole, the pipes of a connection, and the exit status of the program.
use mcptp.Base.{
  ℕ, arith, ◌≡◌, ◌≢◌, ◌≤◌, ◌⊎◌, inl, refl, true, false, none, some, All, String, ok, pos,
}
use mcptp.Client.Proxy.{connected}
use mcptp.Examples.Clients.{greeting, lost}
use mcptp.Examples.Postfix.{postfix}
use mcptp.Program
use mcptp.Program.{Cli, IsCli, RunEnd, coded, uncoded, exit_status, client_command}
use mcptp.Program.Status.{client_command-status}
use mcptp.Server.Pipes as Pipes
use mcptp.Server.Pipes.{Connection, receives, takes_all, breaks, exits, cancels}
use mcptp.Server.Pipes.Ends as Ends
use mcptp.Server.Pipes.Ends.{steps_left, Run-ends}
use mcptp.Server.Pipes.Hang.{Blocked, Blocked-hangs}
use mcptp.Server.Pipes.Notice.{Ended-unnoticed}
use mcptp.Server.Service.{
  Service, start, server_closed, connect, signal, shut_down, end_serving, end_waiting,
  begin_handler, serve_error, after_serve, Reach, here, next, connects, signals, shuts_down,
  ends_serving, ends_waiting, begins,
}
use mcptp.Server.Service.Late.{After, Reach-returned}

-- A request whose handler begins after `Action` has returned.
abbrev asked : Service
asked = shut_down (signal (connect start))

abbrev over : Service
over = end_waiting (end_serving false server_closed asked)

abbrev late : Service
late = begin_handler over

asked-Reach : Reach false 2 asked
unfolding connect signal
asked-Reach =
    next (next (next here (connects start refl)) (signals _ refl)) (shuts_down _ refl refl)

late-Reach : Reach false 2 late
unfolding connect signal shut_down end_serving end_waiting serve_error after_serve
late-Reach =
    next
      (next (next asked-Reach (ends_serving asked server_closed refl (λ e. refl)))
        (ends_waiting _ refl refl))
      (begins _ (omega arith))

Reach-returned_example :
    (late.signalled ≡ true) × (late.closing ≡ true) × All (After late.seen) late.server.handlers
unfolding connect signal shut_down end_serving end_waiting begin_handler serve_error after_serve
Reach-returned_example = Reach-returned late-Reach refl

-- The process has ended, and the client has sent a message that could not be delivered.
abbrev dead : Connection
dead = record Pipes.start { alive = false }

-- The process ends, and then the server is told to end.
abbrev stopped : Connection
stopped = record dead { cancelled = true }

stopped-Reach : Pipes.Reach stopped
stopped-Reach = Pipes.next (Pipes.next Pipes.here (exits _ refl)) (cancels _ refl)

Run-ends_example :
    (1 ≤ steps_left stopped)
    × (((t : Connection) × Pipes.Step Pipes.by_server
            (record stopped { receiver = Pipes.stopped })
            t)
        ⊎ (Pipes.is_over Pipes.selecting ≡ true)
        ⊎ Blocked (record stopped { receiver = Pipes.stopped }))
Run-ends_example =
    Run-ends {n = 1} {s = stopped} {t = record stopped { receiver = Pipes.stopped }} stopped-Reach
      (record { dead = refl; told = inl refl })
      (Ends.more (Pipes.receiver_cancelled _ refl (inl refl)) (Ends.stop _))

abbrev blocked : Connection
blocked = record dead { receiver = Pipes.writing; copier = Pipes.ended }

-- The server is told to end.
abbrev cancelled : Connection
cancelled = record blocked { cancelled = true }

Blocked-hangs_example : (cancelled.receiver ≡ Pipes.writing) × (cancelled.stage ≢ Pipes.left)
Blocked-hangs_example =
    Blocked-hangs (Pipes.more (cancels blocked refl) (Pipes.stop cancelled))
      (record { unread = refl; in_write = refl; before = inl refl })

Ended-unnoticed_example : (Pipes.by_client ≡ Pipes.by_client) ⊎ (Pipes.by_client ≡ Pipes.by_signal)
Ended-unnoticed_example = Ended-unnoticed (receives dead refl) (record {
  dead = refl;
  not_cancelled = refl;
  sent = refl;
  copying = refl;
  listening = refl;
  forwarding = refl;
  in_select = refl;
})

-- A library that does no more than its documentation says.
abbrev run : Cli
run (some (coded code)) = Program.exits code
run (some uncoded) = Program.returns (some uncoded)
run none = Program.returns none

run-IsCli : IsCli run
run-IsCli = record { handles = (λ code. refl); passes = refl; succeeds = refl }

client_command-status_example :
    exit_status (run (client_command {E = String} {S = ℕ} postfix (ok 0) (connected greeting lost)))
    ≡ pos 3
client_command-status_example =
    client_command-status {E = String} {S = ℕ} run postfix (ok 0) (connected greeting lost)
      run-IsCli

-- ===== src/Examples/Shutdowns.antt =====
-- The server with a connection, up to its end.
use mathlib.Core.List.{Memᴰ}
use mcptp.Base.{
  ◌≡◌, ◌≢◌, ◌⊎◌, inl, inr, refl, sym, ap, ◌∙◌, true, false, none, some, [], ◌∷◌, arith,
}
use mcptp.Server.Admission
use mcptp.Server.Connections.{
  Whole, set, start, Keeps, serves, begins_proxy, proceeds, stop, more, Reach, here, next,
}
use mcptp.Server.Connections.Hang.{Blocked-unreturned}
use mcptp.Server.Connections.Shutdown.{returned-ended}
use mcptp.Server.Pipes
use mcptp.Server.Pipes.{Connection}
use mcptp.Server.Service
use mcptp.Server.Service.{
  Service, returned, connect, begin_handler, signal, shut_down, end_serving, end_waiting,
  server_closed,
}

-- One handler, without a maximum, that runs `proxy`.
abbrev pub entering : Service
entering = begin_handler (connect Service.start)

abbrev pub one : Admission.Handler
one = record { id = 1; phase = Admission.proxying }

abbrev running : Service
running = record entering {
  server = record { conn_ids = 1; nb_conn = 0; inflight = 1; handlers = one ∷ [] };
}

running-Reach : Reach false 0 (record start { service = running })
unfolding connect begin_handler Admission.enter Admission.count
running-Reach =
    next
      (next
        (next here
          (serves start (connect Service.start) (Service.connects _ refl) (λ h c m p e. cc)))
        (serves _ entering (Service.begins _ (omega arith)) (λ h c m p e. cc)))
      (serves _ running
        (Service.works entering _
          (Admission.counts entering.server [] [] (record { id = 1; phase = Admission.entered })
            refl refl)
          refl)
        (λ h c m p e. cc))

-- The connection of that handler.
abbrev on : Whole → Connection → Whole
on w c = record w { connections = set 1 c w.connections }

abbrev pub opened : Whole
opened = on (record start { service = running }) Pipes.start

pub opened-Reach : Reach false 0 opened
opened-Reach = next running-Reach (begins_proxy _ one (Memᴰ.head refl) refl refl)

-- The process ends, and the client sends two messages.
abbrev dead : Connection
dead = record Pipes.start { alive = false }

abbrev blocked : Connection
blocked = record dead { receiver = Pipes.writing; copier = Pipes.ended }

abbrev hanging : Whole
hanging =
    on
      (on
        (on (on (on opened dead) (record dead { receiver = Pipes.writing }))
          (record dead { copier = Pipes.holding }))
        (record dead { copier = Pipes.ended }))
      blocked

hanging-Reach : Reach false 0 hanging
unfolding set
hanging-Reach =
    next
      (next
        (next
          (next
            (next opened-Reach (proceeds _ 1 _ _ _ refl (Pipes.exits Pipes.start refl) (λ h. cc)))
            (proceeds _ 1 _ _ _ refl (Pipes.receives dead refl) (λ h. cc)))
          (proceeds _ 1 _ _ _ refl (Pipes.takes_all _ refl refl) (λ h. cc)))
        (proceeds _ 1 _ _ _ refl (Pipes.breaks _ refl refl) (λ h. cc)))
      (proceeds _ 1 _ _ _ refl (Pipes.receives _ refl) (λ h. cc))

Blocked-unreturned_example : (signal running).phase ≢ returned none
unfolding set connect begin_handler signal
Blocked-unreturned_example =
    Blocked-unreturned {w = record hanging { service = signal running }} 1 blocked hanging-Reach
      refl (record { unread = refl; in_write = refl; before = inl refl }) (λ h. cc)
      (more (serves _ (signal running) (Service.signals _ refl) (λ h c m p e. inl m)) (stop _))

-- The client leaves, the process ends, and the handler returns.
abbrev left : Connection
left = record dead { receiver = Pipes.stopped; sender = Pipes.finished; stage = Pipes.left }

abbrev ending : Connection
ending = record Pipes.start { receiver = Pipes.stopped }

abbrev waiting : Connection
waiting = record ending { stage = Pipes.waiting_process }

abbrev draining : Connection
draining = record ending { alive = false; stage = Pipes.draining }

abbrev parted : Whole
parted =
    on
      (on (on (on (on (on opened ending) waiting) (record waiting { alive = false })) draining)
        (record draining { sender = Pipes.finished }))
      left

parted-Reach : Reach false 0 parted
unfolding set
parted-Reach =
    next
      (next
        (next
          (next
            (next
              (next opened-Reach
                (proceeds _ 1 _ _ _ refl (Pipes.receiver_ends Pipes.start refl) (λ h. cc)))
              (proceeds _ 1 _ _ _ refl (Pipes.selects_receiver ending refl refl refl) (λ h. cc)))
            (proceeds _ 1 _ _ _ refl (Pipes.exits waiting refl) (λ h. cc)))
          (proceeds _ 1 _ _ _ refl (Pipes.waits _ refl refl) (λ h. cc)))
        (proceeds _ 1 _ _ _ refl (Pipes.sender_closed draining refl (inr refl)) (λ h. cc)))
      (proceeds _ 1 _ _ _ refl (Pipes.drains _ refl refl) (λ h. cc))

abbrev empty : Service
empty = record running {
  server = record { conn_ids = 1; nb_conn = 0; inflight = 0; handlers = [] };
}

returns-Keeps : Keeps parted.connections running empty
unfolding set connect begin_handler
returns-Keeps h c (Memᴰ.head e) p o =
    let i : h.id ≡ 1 = ap Admission.Handler.id e in
    let j : some left ≡ some c = sym (ap parted.connections i) ∙ o in
    let k : left ≡ c = cc in inr (sym (ap (λ x. Pipes.is_over (Connection.stage x)) k))
returns-Keeps h c (Memᴰ.tail m) p o = elim m [ ]

abbrev asked : Service
asked = shut_down (signal empty)

abbrev over : Service
over = end_waiting (end_serving false server_closed asked)

over-Reach : Reach false 0 (record parted { service = over })
unfolding connect begin_handler signal shut_down end_serving end_waiting Admission.leave
    Service.serve_error Service.after_serve
over-Reach =
    next
      (next
        (next
          (next
            (next parted-Reach (
              serves _ empty
                (Service.works running _
                  (Admission.returns running.server [] [] one refl (inr refl)) refl)
                returns-Keeps))
            (serves _ (signal empty) (Service.signals _ refl) (λ h c m p e. inl m)))
          (serves _ asked (Service.shuts_down _ refl refl) (λ h c m p e. inl m)))
        (serves _ _ (Service.ends_serving asked server_closed refl (λ e. refl))
          (λ h c m p e. inl m)))
      (serves _ over (Service.ends_waiting _ refl refl) (λ h c m p e. inl m))

returned-ended_example :
    ((left.alive ≡ false) × (left.receiver ≡ Pipes.stopped) × (left.sender ≡ Pipes.finished))
    ⊎ ((left.stage ≡ Pipes.panicked) × (left.closed ≡ true) × (left.cancelled ≡ true))
unfolding set connect begin_handler signal shut_down end_serving end_waiting
returned-ended_example = returned-ended 1 left over-Reach refl refl (omega arith)

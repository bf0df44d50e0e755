-- ===== src/Examples/Endings.antt =====
-- A server that is told to end with a connection, and the numbers and the places of its handlers.
use mathlib.Core.List.{Memᴰ}
use mcptp.Base.{◌≤◌, ◌⊎◌, false, ◌≢◌, inl, refl, [], ◌∷◌, arith}
use mcptp.Examples.Servers.{one_runs, two_enters, two_in, two_counts_reached, two_enters_reached}
use mcptp.Examples.Shutdowns.{entering, one, opened, opened-Reach}
use mcptp.Server.Admission.{Server, Handler, Step, enter, count, check}
use mcptp.Server.Admission.Exact.{Reaches, Turn-exact}
use mcptp.Server.Admission.Ids.{Reach-ids}
use mcptp.Server.Admission.Slots.{Slots, Turn, Seen, view}
use mcptp.Server.Admission
use mcptp.Server.Connections.{Whole, Reach, start, set, here, next, serves, begins_proxy}
use mcptp.Server.Connections.Processes.{Alive-le}
use mcptp.Server.Pipes
use mcptp.Server.Connections.Course.{Course}
use mcptp.Server.Connections.Ends.{Over, signalled-Over}
use mcptp.Server.Connections.Progress.{SomeBlocked}
use mcptp.Server.Service
use mcptp.Server.Service.{Service, signal}

abbrev told : Whole
told = record opened { service = signal opened.service }

signalled-Over_example : (v : Whole) × Course false 0 told v × (Over v.service ⊎ SomeBlocked v)
unfolding signal Service.connect Service.begin_handler
signalled-Over_example =
    signalled-Over told
      (next opened-Reach
        (serves opened (signal opened.service) (Service.signals _ refl) (λ h c m p e. inl m)))
      (λ e h. cc) refl

-- With a maximum of two, the handler counts itself, goes on, and runs its connection.
abbrev counting : Service
counting = record entering {
  server = record {
    conn_ids = 1;
    nb_conn = 1;
    inflight = 1;
    handlers = record { id = 1; phase = Admission.counted 1 } ∷ [];
  };
}

abbrev housed : Service
housed = record counting { server = record counting.server { handlers = one ∷ [] } }

abbrev living : Whole
living = record start { service = housed; connections = set 1 Pipes.start start.connections }

living-Reach : Reach false 2 living
unfolding Service.connect Service.begin_handler enter count check
living-Reach =
    next
      (next
        (next
          (next
            (next here (
              serves start (Service.connect Service.start) (Service.connects _ refl)
                (λ h c m p e. cc)))
            (serves _ entering (Service.begins _ (omega arith)) (λ h c m p e. cc)))
          (serves _ counting
            (Service.works entering _
              (Admission.counts entering.server [] [] (record { id = 1; phase = Admission.entered })
                refl refl)
              refl)
            (λ h c m p e. cc)))
        (serves _ housed
          (Service.works counting _
            (Admission.checks counting.server [] [] (record { id = 1; phase = Admission.counted 1 })
              1 refl refl)
            refl)
          (λ h c m p e. cc)))
      (begins_proxy _ one (Memᴰ.head refl) refl refl)

Alive-le_example : 1 ≤ 2
unfolding set
Alive-le_example =
    Alive-le (1 ∷ []) living-Reach (omega arith) (tt, tt) ((Pipes.start, refl, refl, (λ h. cc)), tt)

Reach-ids_example : (1 ≤ 2) × (2 ≤ 2) × ((k : Handler) → Memᴰ k one_runs.handlers → k.id ≢ 2)
unfolding enter count check
Reach-ids_example =
    Reach-ids [] (count 1 two_enters two_in).1 one_runs.handlers two_counts_reached refl

-- One connection runs, and the second request is in.
abbrev places : Slots
places = record { undecided = 1; turned_away = 0; granted = 0; running = 1 }

Turn-exact_example :
    ((t : Server) → Step 1 two_enters t → Seen 1 places (view 1 t.handlers))
    × ((b : Slots) → Turn 1 places b → Reaches 1 two_enters b)
unfolding enter count check
Turn-exact_example = Turn-exact {s = two_enters} two_enters_reached (omega arith)

-- ===== src/Server/Connections/Course.antt =====
-- The steps that the server makes by itself, and where they take one connection.
use mcptp.Base.{
  ℕ, zero, suc, ◌<◌, ◌≡◌, ◌≢◌, ◌⊎◌, inl, inr, refl, Bool, true, false, Bool-cases, some, arith,
}
use mcptp.Server.Connections.{Whole, set, Step, serves, begins_proxy, proceeds, Reach, next}
use mcptp.Server.Connections.Hang.{set_same}
use mcptp.Server.Pipes
use mcptp.Server.Pipes.{
  Connection, Actor, by_process, by_client, by_signal, by_server, cancels, kills,
}
use mcptp.Server.Pipes.Ends.{Ending, step-Ending, Ending-Next, steps_left}
use mcptp.Server.Pipes.Hang.{Blocked}
use mcptp.Server.Pipes.Notice.{Reach-Inv}
use mcptp.Server.Service
use mcptp.Server.Service.{
  Service, Failure, ServeEnd, server_closed, returned, shut_down, end_serving, end_waiting,
  serve_error, after_serve,
}

-- Not the outside: no request that comes or goes, no signal, and no failure of `Serve`.
abbrev pub ByService : {tls : Bool} {max : ℕ} {s t : Service} → Service.Step tls max s t → Type 0
ByService (Service.connects s p) = ⊥
ByService (Service.drops s p) = ⊥
ByService (Service.begins s p) = Unit
ByService (Service.works s b m p) = Unit
ByService (Service.signals s p) = ⊥
ByService (Service.shuts_down s p q) = Unit
ByService (Service.ends_serving s e p q) = e ≡ server_closed
ByService (Service.ends_waiting s p q) = Unit

-- Neither a process nor a client.
abbrev pub ByServer : {tls : Bool} {max : ℕ} {v w : Whole} → Step tls max v w → Type 0
ByServer (serves w t st k) = ByService st
ByServer (begins_proxy w h m p n) = Unit
ByServer (proceeds w id a c d e st s) = (a ≡ by_server) ⊎ (a ≡ by_signal)

-- A run of the server by itself.
pub data Course (tls : Bool) (max : ℕ) : Whole → Whole → Type 0 where
  stop : (w : Whole) → Course tls max w w
  more :
      {u v w : Whole} (st : Step tls max u v)
      → ByServer st
      → Course tls max v w
      → Course tls max u w

pub Course-trans :
    {tls : Bool} {max : ℕ} {u v w : Whole}
    → Course tls max u v
    → Course tls max v w
    → Course tls max u w
Course-trans (stop _) b = b
Course-trans (more st o a) b = more st o (Course-trans a b)

pub Course-Reach :
    {tls : Bool} {max : ℕ} {v w : Whole} → Reach tls max v → Course tls max v w → Reach tls max w
Course-Reach r (stop _) = r
Course-Reach r (more st o a) = Course-Reach (next r st) a

-- `Action` has not failed.
abbrev pub Unfailed : Service → Type 0
Unfailed s = (e : Failure) → s.phase ≢ returned (some e)

step-Unfailed :
    {tls : Bool} {max : ℕ} {v w : Whole} (st : Step tls max v w)
    → ByServer st
    → Unfailed v.service
    → Unfailed w.service
unfolding Service.begin_handler shut_down end_serving end_waiting serve_error after_serve
step-Unfailed (serves w t (Service.connects s p) k) o u = absurd o
step-Unfailed (serves w t (Service.drops s p) k) o u = absurd o
step-Unfailed (serves w t (Service.begins s p) k) o u = u
step-Unfailed (serves w t (Service.works s b m p) k) o u = u
step-Unfailed (serves w t (Service.signals s p) k) o u = absurd o
step-Unfailed (serves w t (Service.shuts_down s p q) k) o u = u
step-Unfailed (serves w t (Service.ends_serving s e p q) k) o u = λ f. rw o (λ h. cc)
step-Unfailed (serves w t (Service.ends_waiting s p q) k) o u = λ f h. cc
step-Unfailed (begins_proxy w h m p n) o u = u
step-Unfailed (proceeds w id a c d e st s) o u = u

pub Course-Unfailed :
    {tls : Bool} {max : ℕ} {v w : Whole}
    → Course tls max v w
    → Unfailed v.service
    → Unfailed w.service
Course-Unfailed (stop _) u = u
Course-Unfailed (more st o a) u = Course-Unfailed a (step-Unfailed st o u)

-- Where the server can take a connection by itself: to its end, or to a receiver that is blocked.
abbrev Settled : (tls : Bool) → (max : ℕ) → Whole → ℕ → Type 0
Settled tls max w id =
    (v : Whole) × (d : Connection) × Course tls max w v
    × (v.service ≡ w.service)
    × (v.connections id ≡ some d)
    × ((Pipes.is_over d.stage ≡ true) ⊎ Blocked d)

-- One more step before.
after_step :
    {tls : Bool} {max : ℕ} (w : Whole) (id : ℕ) (a : Actor) (c d : Connection)
    → w.connections id ≡ some c
    → Pipes.Step a c d
    → (a ≡ by_signal → w.service.signalled ≡ true)
    → (a ≡ by_server) ⊎ (a ≡ by_signal)
    → ((v : Whole) → v.connections id ≡ some d → Settled tls max v id)
    → Settled tls max w id
after_step w id a c d e st s o k =
    let v = record w { connections = set id d w.connections } in
    let (u, f, run, same, g, h) = k v (set_same id id d w.connections refl) in
    (u, f, more (proceeds w id a c d e st s) o run, same, g, h)

settle_ending :
    {tls : Bool} {max : ℕ} (n : ℕ) (w : Whole) (id : ℕ) (c : Connection)
    → w.connections id ≡ some c
    → Pipes.Reach c
    → Ending c
    → steps_left c < n
    → Settled tls max w id
settle_ending zero w id c e r g l = absurd (omega arith)
settle_ending (suc n) w id c e r g l = elim (Ending-Next c c.receiver refl (Reach-Inv r) g) [
  | inl (d, st) ↦
      let (g', less) = step-Ending st g in
      after_step w id by_server c d e st (λ b. cc) (inl refl)
        (λ v f. settle_ending n v id d f (Pipes.next r st) g' (omega (arith, l, less)))
  | inr (inl h) ↦ (w, c, stop w, refl, e, inl h)
  | inr (inr h) ↦ (w, c, stop w, refl, e, inr h)
]

settle_cancelled :
    {tls : Bool} {max : ℕ} (w : Whole) (id : ℕ) (c : Connection)
    → w.connections id ≡ some c
    → Pipes.Reach c
    → c.cancelled ≡ true
    → Settled tls max w id
settle_cancelled w id c e r k = elim (Bool-cases c.alive) [
  | inl h ↦
      let st = kills c k h in
      let d : Connection = record c { alive = false } in
      after_step w id by_server c d e st (λ b. cc) (inl refl)
        (λ v f.
          settle_ending (suc (steps_left d)) v id d f (Pipes.next r st)
            (record { dead = refl; told = inl k }) (omega arith))
  | inr h ↦
      settle_ending (suc (steps_left c)) w id c e r (record { dead = h; told = inl k })
        (omega arith)
]

-- After the signal the server can take each connection to its end by itself, or to a receiver that
-- is blocked.
pub settle :
    {tls : Bool} {max : ℕ} (w : Whole) (id : ℕ) (c : Connection)
    → w.connections id ≡ some c
    → Pipes.Reach c
    → w.service.signalled ≡ true
    → Settled tls max w id
settle w id c e r k = elim (Bool-cases c.cancelled) [
  | inl h ↦ settle_cancelled w id c e r h
  | inr h ↦
      let st = cancels c h in
      let d : Connection = record c { cancelled = true } in
      after_step w id by_signal c d e st (λ b. k) (inr refl)
        (λ v f. settle_cancelled v id d f (Pipes.next r st) refl)
]

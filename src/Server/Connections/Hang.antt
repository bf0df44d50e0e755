-- ===== src/Server/Connections/Hang.antt =====
-- What one blocked connection does to the shutdown of the server.
use mathlib.Core.List.{Memᴰ}
use mcptp.Base.{
  ℕ, ◌<◌, ◌==◌, ==_iff, ◌≡◌, ◌≢◌, inl, inr, ap, subst, ◌∙◌, Bool, false, Bool-cases, none, some,
  List, length, arith,
}
use mcptp.Server.Admission.{Handler}
use mcptp.Server.Admission.Limit.{Reach-Inv}
use mcptp.Server.Connections.{
  Whole, Connections, set, Step, serves, begins_proxy, proceeds, Run, stop, more, Reach, next,
}
use mcptp.Server.Connections.Shutdown.{Reach-service, Reach-AllGood}
use mcptp.Server.Pipes
use mcptp.Server.Pipes.{Connection, Actor}
use mcptp.Server.Pipes.Hang.{Blocked, Step-Blocked}
use mcptp.Server.Service
use mcptp.Server.Service.{
  Service, returned, end_waiting, end_serving, connect, drop_request, begin_handler, signal,
  shut_down,
}
use mcptp.Server.Service.Late.{Reach-server, after_serve_iff}

-- The connection with that number is blocked.
abbrev BlockedAt : ℕ → Connections → Type 0
BlockedAt id connections = (c : Connection) × (connections id ≡ some c) × Blocked c

pub set_same :
    (id n : ℕ) (d : Connection) (connections : Connections)
    → n ≡ id
    → set id d connections n ≡ some d
unfolding set
set_same id n d connections e = rw ((==_iff n id).1 e)

set_other :
    (id n : ℕ) (d : Connection) (connections : Connections)
    → (n == id) ≡ false
    → set id d connections n ≡ connections n
unfolding set
set_other id n d connections e = rw e

Step-BlockedAt :
    {tls : Bool} {max : ℕ} {v w : Whole} (id : ℕ)
    → Step tls max v w
    → BlockedAt id v.connections
    → BlockedAt id w.connections
Step-BlockedAt id (serves w t st k) b = b
Step-BlockedAt id (begins_proxy w h m p n) (c, e, b) = elim (Bool-cases (id == h.id)) [
  | inl k ↦ let i = ap w.connections ((==_iff id h.id).0 k) in cc
  | inr k ↦ (c, set_other h.id id Pipes.start w.connections k ∙ e, b)
]
Step-BlockedAt id (proceeds w n a c' d e' st s) (c, e, b) = elim (Bool-cases (id == n)) [
  | inl k ↦
      let i = (==_iff id n).0 k in
      let same : c ≡ c' = let j = ap w.connections i in cc in
      (d, set_same n id d w.connections i, Step-Blocked st (subst Blocked same b))
  | inr k ↦ (c, set_other n id d w.connections k ∙ e, b)
]

-- A service with a handler does not get to the end of its wait.
unreturned :
    {tls : Bool} {max : ℕ} {s t : Service}
    → Service.Step tls max s t
    → 0 < s.server.inflight
    → s.phase ≢ returned none
    → t.phase ≢ returned none
unfolding connect drop_request begin_handler signal shut_down end_serving end_waiting
unreturned (Service.connects s p) i n = n
unreturned (Service.drops s p) i n = n
unreturned (Service.begins s p) i n = n
unreturned (Service.works s b m p) i n = n
unreturned (Service.signals s p) i n = n
unreturned (Service.shuts_down s p q) i n = n
unreturned {tls} (Service.ends_serving s e p q) i n = (after_serve_iff tls e).1
unreturned (Service.ends_waiting s p q) i n = absurd (omega arith)

Memᴰ-length : {h : Handler} {hs : List Handler} → Memᴰ h hs → 0 < length hs
Memᴰ-length (Memᴰ.head e) = omega arith
Memᴰ-length (Memᴰ.tail m) = omega arith

BlockedAt-inflight :
    {tls : Bool} {max : ℕ} {w : Whole} (id : ℕ)
    → Reach tls max w
    → BlockedAt id w.connections
    → 0 < w.service.server.inflight
BlockedAt-inflight id r (c, e, b) =
    let (reach, held) = Reach-AllGood r id c e in
    let counted = (Reach-Inv (Reach-server (Reach-service r))).all_inflight in
    elim held [
      | inl (h, m, i, p) ↦ omega (arith, counted, Memᴰ-length m)
      | inr l ↦ absurd (ground (arith, b.before))
    ]

step_unreturned :
    {tls : Bool} {max : ℕ} {v w : Whole}
    → Step tls max v w
    → 0 < v.service.server.inflight
    → v.service.phase ≢ returned none
    → w.service.phase ≢ returned none
step_unreturned (serves w t st k) i n = unreturned st i n
step_unreturned (begins_proxy w h m p q) i n = n
step_unreturned (proceeds w id a c d e st s) i n = n

-- While one connection is blocked, `Action` does not come to return nil, whatever the others, the
-- clients and the signal do.
pub Blocked-unreturned :
    {tls : Bool} {max : ℕ} {v w : Whole} (id : ℕ) (c : Connection)
    → Reach tls max v
    → v.connections id ≡ some c
    → Blocked c
    → v.service.phase ≢ returned none
    → Run tls max v w
    → w.service.phase ≢ returned none
Blocked-unreturned id c r e b n (stop _) = n
Blocked-unreturned id c r e b n (more st run) =
    let (d, e', b') = Step-BlockedAt id st (c, e, b) in
    Blocked-unreturned id d (next r st) e' b'
      (step_unreturned st (BlockedAt-inflight id r (c, e, b)) n) run

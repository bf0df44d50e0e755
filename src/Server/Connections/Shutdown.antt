-- ===== src/Server/Connections/Shutdown.antt =====
-- What a shutdown of the server leaves of its connections.
use mathlib.Core.List.{Memᴰ}
use mcptp.Base.{
  ℕ, ◌≤◌, ◌==◌, ==_iff, ◌≡◌, ◌⊎◌, inl, inr, sym, ap, subst, ◌∙◌, Bool, true, false, Bool-cases,
  none, some, List, All, arith,
}
use mcptp.Server.Admission.{Handler, proxying}
use mcptp.Server.Connections.{
  Whole, Connections, set, Keeps, Step, serves, begins_proxy, proceeds, Reach, here, next,
}
use mcptp.Server.Pipes
use mcptp.Server.Pipes.{Connection, Actor}
use mcptp.Server.Pipes.Notice.{Reach-left, Reach-panicked, is_over_cases}
use mcptp.Server.Service
use mcptp.Server.Service.{
  Service, returned, end_waiting, end_serving, connect, drop_request, begin_handler, signal,
  shut_down,
}
use mcptp.Server.Service.Late.{After, Reach-returned}

pub Reach-service :
    {tls : Bool} {max : ℕ} {w : Whole} → Reach tls max w → Service.Reach tls max w.service
Reach-service here = Service.here
Reach-service (next r (serves w t st k)) = Service.next (Reach-service r) st
Reach-service (next r (begins_proxy w h m p n)) = Reach-service r
Reach-service (next r (proceeds w id a c d e st s)) = Reach-service r

-- A handler runs the connection.
abbrev pub Held : ℕ → List Handler → Type 0
Held id handlers = (h : Handler) × Memᴰ h handlers × (h.id ≡ id) × (h.phase ≡ proxying)

abbrev pub Good : Service → ℕ → Connection → Type 0
Good s id c = Pipes.Reach c × (Held id s.server.handlers ⊎ (Pipes.is_over c.stage ≡ true))

set_cases :
    (id n : ℕ) (d c : Connection) (connections : Connections)
    → set id d connections n ≡ some c
    → ((n ≡ id) × (d ≡ c)) ⊎ (connections n ≡ some c)
unfolding set
set_cases id n d c connections e = elim (Bool-cases (n == id)) [
  | inl h ↦ inl ((==_iff n id).0 h, (let e' = rw h at e in cc))
  | inr h ↦ inr (let e' = rw h at e in cc)
]

-- The end of `proxy` is for good.
stays_left :
    {a : Actor} {c d : Connection}
    → Pipes.Step a c d
    → Pipes.is_over c.stage ≡ true
    → Pipes.is_over d.stage ≡ true
stays_left (Pipes.prints s p) e = ground arith
stays_left (Pipes.panics s p q c) e = ground arith
stays_left (Pipes.selects_receiver s p q c) e = ground arith
stays_left (Pipes.selects_sender s p q) e = ground arith
stays_left (Pipes.receiver_drained s p q) e = ground arith
stays_left (Pipes.waits s p q) e = ground arith
stays_left _ e = ground arith

-- A connection is one that its own steps reach, and a handler runs it until it is at its end.
abbrev pub AllGood : Whole → Type 0
AllGood w = (id : ℕ) (c : Connection) → w.connections id ≡ some c → Good w.service id c

serves-Held :
    (s t : Service) (connections : Connections) (id : ℕ) (c : Connection)
    → Keeps connections s t
    → connections id ≡ some c
    → Held id s.server.handlers ⊎ (Pipes.is_over c.stage ≡ true)
    → Held id t.server.handlers ⊎ (Pipes.is_over c.stage ≡ true)
serves-Held s t connections id c k e (inr l) = inr l
serves-Held s t connections id c k e (inl (h, m, i, p)) = elim (k h c m p (ap connections i ∙ e)) [
  | inl m' ↦ inl (h, m', i, p)
  | inr l ↦ inr l
]

proceeds-Good :
    {a : Actor} {c d : Connection} (s : Service) (id : ℕ)
    → Pipes.Step a c d
    → Good s id c
    → Good s id d
proceeds-Good s id st (r, inl held) = (Pipes.next r st, inl held)
proceeds-Good s id st (r, inr l) = (Pipes.next r st, inr (stays_left st l))

Step-AllGood : {tls : Bool} {max : ℕ} {v w : Whole} → Step tls max v w → AllGood v → AllGood w
Step-AllGood (serves w t st k) all id c e =
    let (r, o) = all id c e in (r, serves-Held w.service t w.connections id c k e o)
Step-AllGood (begins_proxy w h m p n) all id c e =
    elim (set_cases h.id id Pipes.start c w.connections e) [
      | inl (i, s) ↦ (subst Pipes.Reach s Pipes.here, inl (h, m, sym i, p))
      | inr e' ↦ all id c e'
    ]
Step-AllGood (proceeds w n a c d e st s) all id c' e' =
    elim (set_cases n id d c' w.connections e') [
      | inl (i, s) ↦
          subst (Good w.service id) s
            (proceeds-Good w.service id st (all id c (ap w.connections i ∙ e)))
      | inr k ↦ all id c' k
    ]

pub Reach-AllGood : {tls : Bool} {max : ℕ} {w : Whole} → Reach tls max w → AllGood w
Reach-AllGood here = λ id c e. cc
Reach-AllGood (next r st) = Step-AllGood st (Reach-AllGood r)

All-Memᴰ : (P : Handler → Type 0) {h : Handler} {hs : List Handler} → Memᴰ h hs → All P hs → P h
All-Memᴰ P (Memᴰ.head e) (p, a) = subst P (sym e) p
All-Memᴰ P (Memᴰ.tail m) (p, a) = All-Memᴰ P m a

-- When `Action` has returned nil, each connection whose handler had begun before is at its end: its
-- process has ended, and so have its workers; or its `proxy` has panicked after the client had closed
-- the websocket, and the context that kills its process has ended.
pub returned-ended :
    {tls : Bool} {max : ℕ} {w : Whole} (id : ℕ) (c : Connection)
    → Reach tls max w
    → w.service.phase ≡ returned none
    → w.connections id ≡ some c
    → id ≤ w.service.seen
    → ((c.alive ≡ false) × (c.receiver ≡ Pipes.stopped) × (c.sender ≡ Pipes.finished))
      ⊎ ((c.stage ≡ Pipes.panicked) × (c.closed ≡ true) × (c.cancelled ≡ true))
returned-ended {w = w} id c r e o n =
    let (reach, held) = Reach-AllGood r id c o in
    elim held [
      | inl (h, m, i, p) ↦
          let late = (Reach-returned (Reach-service r) e).2 in
          absurd (omega (arith, i, n, All-Memᴰ (After w.service.seen) m late))
      | inr l ↦ elim (is_over_cases c.stage l) [
        | inl g ↦ inl (Reach-left reach g)
        | inr g ↦ let (x, y) = Reach-panicked reach g in inr (g, x, y)
      ]
    ]

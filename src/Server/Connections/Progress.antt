-- ===== src/Server/Connections/Progress.antt =====
-- How each handler of a closing server goes on, with its connection.
use mathlib.Core.List.{Memᴰ}
use mcptp.Base.{
  ℕ, ◌<◌, ◌≡◌, ◌⊎◌, inl, inr, refl, ap, sym, subst, ◌∙◌, Bool, true, Option-cases, some, List, [],
  ◌∷◌,
}
use mcptp.Server.Admission
use mcptp.Server.Admission.{Handler, entered, counted, refused, proxying, enter}
use mcptp.Server.Admission.Ids.{count_conn_ids}
use mcptp.Server.Connections.{Whole, Connections, Keeps, serves, begins_proxy, Reach, next}
use mcptp.Server.Connections.Course.{ByService, Course, stop, more, Course-trans, settle}
use mcptp.Server.Connections.Hang.{set_same}
use mcptp.Server.Connections.Shutdown.{Reach-service, Reach-AllGood}
use mcptp.Server.Pipes
use mcptp.Server.Pipes.{Connection}
use mcptp.Server.Pipes.Hang.{Blocked}
use mcptp.Server.Service
use mcptp.Server.Service.{
  Service, server_closed, serving, waiting, returned, begin_handler, shut_down, end_serving,
  end_waiting,
}
use mcptp.Server.Service.Late.{Reach-asked}
use mcptp.Server.Service.Shutdown.{left, closing_step, leave_conn_ids}

-- Some connection is in a write that nothing reads.
abbrev pub SomeBlocked : Whole → Type 0
SomeBlocked w = (id : ℕ) × (c : Connection) × (w.connections id ≡ some c) × Blocked c

-- The server can get nearer to its end by itself, or to a connection that is blocked.
abbrev pub Nearer : (tls : Bool) → (max : ℕ) → Whole → Type 0
Nearer tls max w =
    (v : Whole) × Course tls max w v
    × (SomeBlocked v ⊎ ((v.service.closing ≡ true) × (left v.service < left w.service)))

pub serve_step :
    {tls : Bool} {max : ℕ} (w : Whole) (t : Service) (st : Service.Step tls max w.service t)
    → ByService st
    → Keeps w.connections w.service t
    → w.service.closing ≡ true
    → Nearer tls max w
serve_step w t st o k c = (_, more (serves w t st k) o (stop _), inr (closing_step st c))

-- The first handler changes or goes, and it is in no connection that goes on.
Keeps-head :
    (connections : Connections) (s t : Service) (h : Handler) (hs : List Handler)
    → s.server.handlers ≡ h ∷ hs
    → ((k : Handler) → Memᴰ k hs → Memᴰ k t.server.handlers)
    → ((c : Connection)
        → h.phase ≡ proxying
        → connections h.id ≡ some c
        → Pipes.is_over c.stage ≡ true)
    → Keeps connections s t
Keeps-head connections s t h hs e f g k c m p q = elim (subst (Memᴰ k) e m) [
  | Memᴰ.head i ↦ inr (g c (ap (λ x. x.phase) (sym i) ∙ p) (ap (λ x. connections x.id) (sym i) ∙ q))
  | Memᴰ.tail m' ↦ inl (f k m')
]

-- A step of the first handler.
work_head :
    {tls : Bool} {max : ℕ} (w : Whole) (h : Handler) (hs : List Handler) (b : Admission.Server)
    → w.service.server.handlers ≡ h ∷ hs
    → Admission.Step max w.service.server b
    → b.conn_ids ≡ w.service.server.conn_ids
    → ((k : Handler) → Memᴰ k hs → Memᴰ k b.handlers)
    → ((c : Connection)
        → h.phase ≡ proxying
        → w.connections h.id ≡ some c
        → Pipes.is_over c.stage ≡ true)
    → w.service.closing ≡ true
    → Nearer tls max w
work_head w h hs b e m n f g c =
    let t = record w.service { server = b } in
    serve_step w t (Service.works w.service b m n) tt
      (Keeps-head w.connections w.service t h hs e f g) c

-- A handler that runs `proxy` returns when its connection is at its end.
returns_left :
    {tls : Bool} {max : ℕ} (w : Whole) (id : ℕ) (hs : List Handler) (c : Connection)
    → w.service.server.handlers ≡ record { id = id; phase = proxying } ∷ hs
    → w.connections id ≡ some c
    → Pipes.is_over c.stage ≡ true
    → w.service.closing ≡ true
    → Nearer tls max w
returns_left {max = max} w id hs c e i l k =
    let s = w.service.server in
    work_head w _ hs _ e (Admission.returns s [] hs _ e (inr refl)) (leave_conn_ids max s)
      (λ h m. m) (λ d p j. let same : c ≡ d = cc in ap (λ x. Pipes.is_over x.stage) (sym same) ∙ l)
      k

-- Such a handler goes on, with its connection.
returns_settled :
    {tls : Bool} {max : ℕ} (w : Whole) (id : ℕ) (hs : List Handler) (c : Connection)
    → Reach tls max w
    → w.service.server.handlers ≡ record { id = id; phase = proxying } ∷ hs
    → w.connections id ≡ some c
    → w.service.closing ≡ true
    → Nearer tls max w
returns_settled w id hs c r e i k =
    let (reach, held) = Reach-AllGood r id c i in
    let (v, d, run, same, j, o) = settle w id c i reach (Reach-asked (Reach-service r) k) in
    elim o [
      | inl l ↦
          let (u, run', o') =
            returns_left v id hs d (ap (λ s. s.server.handlers) same ∙ e) j l
              (ap (λ s. s.closing) same ∙ k) in
          (
            u,
            Course-trans run run',
            subst (λ s. SomeBlocked u ⊎ ((u.service.closing ≡ true) × (left u.service < left s)))
                same o',
          )
      | inr b ↦ (v, run, inl (id, d, j, b))
    ]

-- Each handler that has begun goes on.
pub handler-Nearer :
    {tls : Bool} {max : ℕ} (w : Whole) (id : ℕ) (p : Admission.Phase) (hs : List Handler)
    → Reach tls max w
    → w.service.server.handlers ≡ record { id = id; phase = p } ∷ hs
    → w.service.closing ≡ true
    → Nearer tls max w
handler-Nearer {max = max} w id entered hs r e k =
    let s = w.service.server in
    work_head w _ hs _ e (Admission.counts s [] hs _ e refl) (count_conn_ids max s _)
      (λ h m. Memᴰ.tail m) (λ c p i. cc) k
handler-Nearer w id (counted n) hs r e k =
    work_head w _ hs _ e (Admission.checks w.service.server [] hs _ n e refl) refl
      (λ h m. Memᴰ.tail m) (λ c p i. cc) k
handler-Nearer {max = max} w id refused hs r e k =
    let s = w.service.server in
    work_head w _ hs _ e (Admission.returns s [] hs _ e (inl refl)) (leave_conn_ids max s)
      (λ h m. m) (λ c p i. cc) k
handler-Nearer w id proxying hs r e k = elim (Option-cases (w.connections id)) [
  | inr (c, i) ↦ returns_settled w id hs c r e i k
  | inl i ↦
      let m = subst (Memᴰ (record { id = id; phase = proxying })) (sym e) (Memᴰ.head refl) in
      let st = begins_proxy w (record { id = id; phase = proxying }) m refl i in
      let (v, run, o) =
        returns_settled _ id hs Pipes.start (next r st) e
          (set_same id id Pipes.start w.connections refl) k in
      (v, more st tt run, o)
]

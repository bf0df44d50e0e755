-- ===== src/Server/Service/Late.antt =====
-- What the server has left when `Action` returns.
use mcptp.Base.{
  ℕ, ◌≤◌, ◌<◌, ◌≡◌, refl, subst, Bool, true, false, none, List, [], ◌∷◌, ◌++◌, arith, All, length,
}
use mcptp.Server.Admission
use mcptp.Server.Admission.{Server, Handler, enter, count, check, leave}
use mcptp.Server.Admission.Ids.{count_id, check_id}
use mcptp.Server.Admission.Limit.{Reach-Inv}
use mcptp.Server.Service.{
  Service, ServeEnd, server_closed, listen_failed, serve_failed, serve_error, waiting, returned,
  after_serve, connect, drop_request, begin_handler, signal, shut_down, end_serving, end_waiting,
  connects, drops, begins, works, signals, shuts_down, ends_serving, ends_waiting, Reach, here,
  next,
}

-- The handlers of a service are those of some run of the handlers alone.
pub Reach-server :
    {tls : Bool} {max : ℕ} {s : Service} → Reach tls max s → Admission.Reach max s.server
unfolding connect drop_request begin_handler signal shut_down end_serving end_waiting
Reach-server here = Admission.here
Reach-server (next r (connects s p)) = Reach-server r
Reach-server (next r (drops s p)) = Reach-server r
Reach-server (next r (begins s p)) = Admission.next (Reach-server r) (Admission.arrive s.server)
Reach-server (next r (works s b m p)) = Admission.next (Reach-server r) m
Reach-server (next r (signals s p)) = Reach-server r
Reach-server (next r (shuts_down s p q)) = Reach-server r
Reach-server (next r (ends_serving s e p q)) = Reach-server r
Reach-server (next r (ends_waiting s p q)) = Reach-server r

-- The handler has come after the n-th.
abbrev pub After : ℕ → Handler → Type 0
After n h = n < h.id

All-middle :
    (P : Handler → Type 0) (before : List Handler) (h : Handler) (after : List Handler)
    → All P (before ++ h ∷ after)
    → P h × All P (before ++ after)
All-middle P [] h after a = a
All-middle P (b ∷ before) h after (p, a) = let (q, r) = All-middle P before h after a in (q, (p, r))

All-insert :
    (P : Handler → Type 0) (before : List Handler) (h : Handler) (after : List Handler)
    → P h
    → All P (before ++ after)
    → All P (before ++ h ∷ after)
All-insert P [] h after p a = (p, a)
All-insert P (b ∷ before) h after p (q, a) = (q, All-insert P before h after p a)

-- A step of a handler that has begun leaves the handlers after the n-th.
Step-After :
    {max : ℕ} (n : ℕ) {a b : Server}
    → Admission.Step max a b
    → b.conn_ids ≡ a.conn_ids
    → All (After n) a.handlers
    → All (After n) b.handlers
unfolding enter
Step-After n (Admission.arrive s) e all = absurd (omega arith)
Step-After {max} n (Admission.counts s before after h p q) e all =
    let (k, rest) = All-middle (After n) before h after (subst (All (After n)) p all) in
    All-insert (After n) before (count max s h).1 after (rw (count_id max s h) k) rest
Step-After {max} n (Admission.checks s before after h total p q) e all =
    let (k, rest) = All-middle (After n) before h after (subst (All (After n)) p all) in
    All-insert (After n) before (check max total h) after (rw (check_id max total h) k) rest
Step-After n (Admission.returns s before after h p q) e all =
    (All-middle (After n) before h after (subst (All (After n)) p all)).1

record Inv (s : Service) : Type 0 where
  asked : s.closing ≡ true → s.signalled ≡ true
  closed : s.phase ≡ waiting → s.closing ≡ true
  quiet : s.phase ≡ returned none → s.closing ≡ true
  late : s.phase ≡ returned none → All (After s.seen) s.server.handlers
  grown : s.phase ≡ returned none → s.seen ≤ s.server.conn_ids

no_handlers : (hs : List Handler) (n : ℕ) → length hs ≡ 0 → All (After n) hs
no_handlers [] n e = tt
no_handlers (h ∷ hs) n e = absurd (omega arith)

pub after_serve_iff :
    (tls : Bool) (e : ServeEnd)
    → (after_serve (serve_error tls e) ≡ waiting → e ≡ server_closed)
      × (after_serve (serve_error tls e) ≡ returned none → ⊥)
unfolding after_serve serve_error
after_serve_iff tls server_closed = ((λ h. refl), (λ h. cc))
after_serve_iff true (listen_failed e) = ((λ h. cc), (λ h. cc))
after_serve_iff false (listen_failed e) = ((λ h. cc), (λ h. cc))
after_serve_iff true (serve_failed e) = ((λ h. cc), (λ h. cc))
after_serve_iff false (serve_failed e) = ((λ h. cc), (λ h. cc))

Reach-Inv_service : {tls : Bool} {max : ℕ} {s : Service} → Reach tls max s → Inv s
unfolding connect drop_request begin_handler signal shut_down end_serving end_waiting enter
Reach-Inv_service here = record {
  asked = λ h. cc;
  closed = λ h. cc;
  quiet = λ h. cc;
  late = λ h. cc;
  grown = λ h. cc;
}
Reach-Inv_service (next r (connects s p)) =
    let v = Reach-Inv_service r in
    record { asked = v.asked; closed = v.closed; quiet = v.quiet; late = v.late; grown = v.grown }
Reach-Inv_service (next r (drops s p)) =
    let v = Reach-Inv_service r in
    record { asked = v.asked; closed = v.closed; quiet = v.quiet; late = v.late; grown = v.grown }
Reach-Inv_service (next r (begins s p)) =
    let v = Reach-Inv_service r in
    record {
      asked = v.asked;
      closed = v.closed;
      quiet = v.quiet;
      late = λ h. (omega (arith, v.grown h), v.late h);
      grown = λ h. omega (arith, v.grown h);
    }
Reach-Inv_service (next r (works s b m p)) =
    let v = Reach-Inv_service r in
    record {
      asked = v.asked;
      closed = v.closed;
      quiet = v.quiet;
      late = λ h. Step-After s.seen m p (v.late h);
      grown = λ h. omega (arith, v.grown h);
    }
Reach-Inv_service (next r (signals s p)) =
    let v = Reach-Inv_service r in
    record { asked = λ h. refl; closed = v.closed; quiet = v.quiet; late = v.late; grown = v.grown }
Reach-Inv_service (next r (shuts_down s p q)) =
    let v = Reach-Inv_service r in
    record { asked = λ h. p; closed = λ h. refl; quiet = λ h. refl; late = v.late; grown = v.grown }
Reach-Inv_service {tls} (next r (ends_serving s e p q)) =
    let v = Reach-Inv_service r in
    let (only, never) = after_serve_iff tls e in
    record {
      asked = v.asked;
      closed = λ h. q (only h);
      quiet = λ h. absurd (never h);
      late = λ h. absurd (never h);
      grown = λ h. absurd (never h);
    }
Reach-Inv_service (next r (ends_waiting s p q)) =
    let v = Reach-Inv_service r in
    let w = Reach-Inv (Reach-server r) in
    record {
      asked = v.asked;
      closed = λ h. cc;
      quiet = λ h. v.closed p;
      late = λ h. no_handlers s.server.handlers _ (omega (arith, w.all_inflight));
      grown = λ h. omega arith;
    }

-- `Shutdown` is called only after the signal.
pub Reach-asked :
    {tls : Bool} {max : ℕ} {s : Service} → Reach tls max s → s.closing ≡ true → s.signalled ≡ true
Reach-asked r = (Reach-Inv_service r).asked

-- `Action` returns nil only after a signal and the call of Shutdown. From then on each handler that
-- has not returned has come after that moment: those that had begun before it have all returned.
pub Reach-returned :
    {tls : Bool} {max : ℕ} {s : Service}
    → Reach tls max s
    → s.phase ≡ returned none
    → (s.signalled ≡ true) × (s.closing ≡ true) × All (After s.seen) s.server.handlers
Reach-returned r h = let v = Reach-Inv_service r in (v.asked (v.quiet h), v.quiet h, v.late h)

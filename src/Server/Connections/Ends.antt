-- ===== src/Server/Connections/Ends.antt =====
-- How the whole server comes to its end after the signal.
use mathlib.Core.List.{Memᴰ}
use mcptp.Base.{
  ℕ, zero, suc, ◌<◌, ◌≡◌, ◌⊎◌, inl, inr, refl, ap, ◌∙◌, Bool, true, Bool-cases, none, some, List,
  [], ◌∷◌, length, ltb, ltb→lt, arith,
}
use mcptp.Server.Admission.{Handler, enter}
use mcptp.Server.Admission.Limit.{Reach-Inv}
use mcptp.Server.Connections.{Whole, serves, Reach, next}
use mcptp.Server.Connections.Course.{
  Course, stop, more, Course-trans, Course-Reach, Unfailed, Course-Unfailed,
}
use mcptp.Server.Connections.Progress.{SomeBlocked, Nearer, serve_step, handler-Nearer}
use mcptp.Server.Connections.Shutdown.{Reach-service}
use mcptp.Server.Service
use mcptp.Server.Service.{
  Service, server_closed, serving, waiting, returned, begin_handler, shut_down, end_serving,
  end_waiting,
}
use mcptp.Server.Service.Late.{Reach-server}
use mcptp.Server.Service.Shutdown.{left, Done}

action-Nearer :
    {tls : Bool} {max : ℕ} (w : Whole) (p : Service.Phase)
    → w.service.phase ≡ p
    → w.service.closing ≡ true
    → w.service.server.inflight ≡ 0
    → w.service.server.handlers ≡ []
    → w.service.pending ≡ 0
    → Nearer tls max w ⊎ Done w.service
unfolding end_serving end_waiting
action-Nearer w serving p c i h n = inl (
    serve_step w _ (Service.ends_serving w.service server_closed p (λ e. c)) refl
      (λ h d m q j. inl m) c)
action-Nearer w waiting p c i h n =
    inl (serve_step w _ (Service.ends_waiting w.service p i) tt (λ h d m q j. inl m) c)
action-Nearer w (returned e) p c i h n = inr ((e, p), h, n)

handlers-Nearer :
    {tls : Bool} {max : ℕ} (w : Whole) (hs : List Handler)
    → Reach tls max w
    → w.service.server.handlers ≡ hs
    → w.service.closing ≡ true
    → w.service.pending ≡ 0
    → Nearer tls max w ⊎ Done w.service
handlers-Nearer w [] r e c n =
    let i = (Reach-Inv (Reach-server (Reach-service r))).all_inflight in
    action-Nearer w w.service.phase refl c (i ∙ ap length e) e n
handlers-Nearer w (h ∷ hs) r e c n = inl (handler-Nearer w h.id h.phase hs r e c)

begins-Nearer :
    {tls : Bool} {max : ℕ} (w : Whole)
    → 0 < w.service.pending
    → w.service.closing ≡ true
    → Nearer tls max w
unfolding begin_handler enter
begins-Nearer w p c =
    serve_step w _ (Service.begins w.service p) tt (λ h d m q i. inl (Memᴰ.tail m)) c

server-Nearer :
    {tls : Bool} {max : ℕ} (w : Whole)
    → Reach tls max w
    → w.service.closing ≡ true
    → Nearer tls max w ⊎ Done w.service
server-Nearer w r c = elim (Bool-cases (ltb 0 w.service.pending)) [
  | inl p ↦ inl (begins-Nearer w (ltb→lt 0 w.service.pending p) c)
  | inr p ↦ handlers-Nearer w w.service.server.handlers r refl c (ground arith)
]

-- Where the server can come to by itself.
abbrev Ends : (tls : Bool) → (max : ℕ) → Whole → Type 0
Ends tls max w = (v : Whole) × Course tls max w v × (Done v.service ⊎ SomeBlocked v)

closing_Ends :
    {tls : Bool} {max : ℕ} (n : ℕ) (w : Whole)
    → Reach tls max w
    → w.service.closing ≡ true
    → left w.service < n
    → Ends tls max w
closing_Ends zero w r c l = absurd (omega arith)
closing_Ends (suc n) w r c l = elim (server-Nearer w r c) [
  | inr d ↦ (w, stop w, inl d)
  | inl (v, run, inl b) ↦ (v, run, inr b)
  | inl (v, run, inr (d, less)) ↦
      let (u, run', o) = closing_Ends n v (Course-Reach r run) d (omega (arith, l, less)) in
      (u, Course-trans run run', o)
]

-- `Action` has returned nil, and no request and no handler is left.
abbrev pub Over : Service → Type 0
Over s = (s.phase ≡ returned none) × (s.server.handlers ≡ []) × (s.pending ≡ 0)

Done-Over : (s : Service) → Unfailed s → Done s → Over s
Done-Over s u ((none, p), h, n) = (p, h, n)
Done-Over s u ((some f, p), h, n) = absurd (u f p)

signalled-Ends :
    {tls : Bool} {max : ℕ} (w : Whole)
    → Reach tls max w
    → w.service.signalled ≡ true
    → Ends tls max w
unfolding shut_down
signalled-Ends w r s = elim (Bool-cases w.service.closing) [
  | inl c ↦ closing_Ends (suc (left w.service)) w r c (omega arith)
  | inr c ↦
      let st = serves w _ (Service.shuts_down w.service s c) (λ h d m q j. inl m) in
      let (v, run, o) = closing_Ends (suc (left w.service)) _ (next r st) refl (omega arith) in
      (v, more st tt run, o)
]

-- From each state that the server can reach in which `Action` has not failed, once the signal has
-- come, the server can by itself, with no step of a client or of a process, come to its end, where
-- `Action` has returned nil and no request and no handler is left, or else to a connection whose
-- receiver is in a write that nothing reads.
pub signalled-Over :
    {tls : Bool} {max : ℕ} (w : Whole)
    → Reach tls max w
    → Unfailed w.service
    → w.service.signalled ≡ true
    → (v : Whole) × Course tls max w v × (Over v.service ⊎ SomeBlocked v)
signalled-Over w r u s =
    let (v, run, o) = signalled-Ends w r s in
    elim o [
      | inl d ↦ (v, run, inl (Done-Over v.service (Course-Unfailed run u) d))
      | inr b ↦ (v, run, inr b)
    ]

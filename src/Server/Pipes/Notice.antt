-- ===== src/Server/Pipes/Notice.antt =====
-- What the server notices of the end of its process, and what it has left at its own end.
use mcptp.Base.{◌≡◌, ◌⊎◌, inl, inr, refl, Bool, true, false, arith}
use mcptp.Server.Pipes.{
  Connection, reading, stopped, idle, sending, finished, Stage, selecting, stopping_receiver,
  waiting_process, draining, left, panicked, is_over, Actor, by_client, by_signal, by_server, Step,
  prints, exits, kills, receives, receiver_cancelled, takes_all, takes_part, delivers, breaks,
  copier_ends, sends, sender_fails, sender_closed, selects_receiver, panics, selects_sender,
  receiver_drained, waits, drains, Reach, here, next,
}

-- The process has ended and all that it wrote is sent, and nothing else has happened.
pub record Ended (s : Connection) : Type 0 where
  pub dead : s.alive ≡ false
  pub not_cancelled : s.cancelled ≡ false
  pub sent : s.output ≡ 0
  pub copying : s.copier ≡ idle
  pub listening : s.receiver ≡ reading
  pub forwarding : s.sender ≡ sending
  pub in_select : s.stage ≡ selecting

-- When its process has ended by itself and its output is sent, the server makes no step: it goes on
-- only when the client sends something or leaves, or the server is told to end.
pub Ended-unnoticed :
    {a : Actor} {s t : Connection} → Step a s t → Ended s → (a ≡ by_client) ⊎ (a ≡ by_signal)
Ended-unnoticed (prints s p) e = ground arith
Ended-unnoticed (exits s p) e = ground arith
Ended-unnoticed (kills s p q) e = ground arith
Ended-unnoticed (receiver_cancelled s p q) e = ground arith
Ended-unnoticed (takes_all s p q) e = ground arith
Ended-unnoticed (takes_part s p q) e = ground arith
Ended-unnoticed (delivers s p q) e = ground arith
Ended-unnoticed (breaks s p q) e = ground arith
Ended-unnoticed (copier_ends s p q) e = ground arith
Ended-unnoticed (sends s p q) e = ground arith
Ended-unnoticed (sender_fails s p q) e = ground arith
Ended-unnoticed (sender_closed s p q) e = ground arith
Ended-unnoticed (selects_receiver s p q c) e = ground arith
Ended-unnoticed (panics s p q c) e = ground arith
Ended-unnoticed (selects_sender s p q) e = ground arith
Ended-unnoticed (receiver_drained s p q) e = ground arith
Ended-unnoticed (waits s p q) e = ground arith
Ended-unnoticed (drains s p q) e = ground arith
Ended-unnoticed _ e = ground arith

-- In `subProcess.Wait`, no step of the server ends the process or goes on, while the process runs
-- and the server is not told to end: the wait has no limit of its own.
pub wait_unforced :
    {s t : Connection}
    → Step by_server s t
    → s.stage ≡ waiting_process
    → s.alive ≡ true
    → s.cancelled ≡ false
    → (t.stage ≡ waiting_process) × (t.alive ≡ true) × (t.cancelled ≡ false)
wait_unforced (kills s p q) x y z = ground arith
wait_unforced (panics s p q c) x y z = ground arith
wait_unforced (selects_sender s p q) x y z = ground arith
wait_unforced (waits s p q) x y z = ground arith
wait_unforced (drains s p q) x y z = ground arith
wait_unforced _ x y z = ground arith

-- Where `proxy` stands: before the receiver has ended, before the process has, before the sender has.
abbrev pub before_receiver : Stage → Bool
before_receiver selecting = true
before_receiver stopping_receiver = true
before_receiver _ = false

abbrev before_process : Stage → Bool
before_process draining = false
before_process left = false
before_process _ = true

abbrev before_sender : Stage → Bool
before_sender left = false
before_sender _ = true

abbrev unpanicked : Stage → Bool
unpanicked panicked = false
unpanicked _ = true

pub record Inv (s : Connection) : Type 0 where
  pub receiver_over : (before_receiver s.stage ≡ true) ⊎ (s.receiver ≡ stopped)
  pub process_over : (before_process s.stage ≡ true) ⊎ (s.alive ≡ false)
  pub sender_over : (before_sender s.stage ≡ true) ⊎ (s.sender ≡ finished)
  pub panic_why : (unpanicked s.stage ≡ true) ⊎ ((s.closed ≡ true) × (s.cancelled ≡ true))

pub Step-Inv : {a : Actor} {s t : Connection} → Step a s t → Inv s → Inv t
Step-Inv (prints s p) v = ground arith
Step-Inv (receives s p) v = ground arith
Step-Inv (takes_all s p q) v = ground arith
Step-Inv (selects_receiver s p q c) v = ground arith
Step-Inv (panics s p q c) v = ground arith
Step-Inv (receiver_drained s p q) v = ground arith
Step-Inv (waits s p q) v = ground arith
Step-Inv (drains s p q) v = ground arith
Step-Inv _ v = ground arith

pub Reach-Inv : {s : Connection} → Reach s → Inv s
Reach-Inv here = record {
  receiver_over = inl refl;
  process_over = inl refl;
  sender_over = inl refl;
  panic_why = inl refl;
}
Reach-Inv (next r st) = Step-Inv st (Reach-Inv r)

-- When `proxy` gets to its end, the process has ended, and so have the receiver, with the stdin of
-- the process closed, and the sender: no worker outlives the connection.
pub Reach-left :
    {s : Connection}
    → Reach s
    → s.stage ≡ left
    → (s.alive ≡ false) × (s.receiver ≡ stopped) × (s.sender ≡ finished)
Reach-left r e =
    let v = Reach-Inv r in
    (ground (arith, v.process_over), ground (arith, v.receiver_over), ground (arith, v.sender_over))

-- `proxy` panics only after the client has closed the websocket, and its context has ended then.
pub Reach-panicked :
    {s : Connection} → Reach s → s.stage ≡ panicked → (s.closed ≡ true) × (s.cancelled ≡ true)
Reach-panicked r e = let v = Reach-Inv r in ground (arith, v.panic_why)

pub is_over_cases : (g : Stage) → is_over g ≡ true → (g ≡ left) ⊎ (g ≡ panicked)
is_over_cases left h = inl refl
is_over_cases panicked h = inr refl
is_over_cases selecting h = cc
is_over_cases stopping_receiver h = cc
is_over_cases waiting_process h = cc
is_over_cases draining h = cc

-- ===== src/Server/Pipes/Ends.antt =====
-- How a connection comes to its end when its process has ended and its receiver is free to.
use mcptp.Base.{
  ℕ, zero, suc, ◌+◌, ◌≤◌, ◌<◌, ◌≡◌, ◌⊎◌, inl, inr, refl, ap, true, false, Bool-cases, arith,
}
use mcptp.Server.Pipes.{
  Connection, Receiver, reading, writing, stopped, Copier, idle, holding, ended, Sender, sending,
  finished, Stage, selecting, stopping_receiver, waiting_process, draining, left, panicked, is_over,
  by_server, Step, kills, receiver_cancelled, takes_all, takes_part, delivers, breaks, copier_ends,
  sends, sender_fails, sender_closed, selects_receiver, panics, selects_sender, receiver_drained,
  waits, drains, Reach, next,
}
use mcptp.Server.Pipes.Hang.{Blocked}
use mcptp.Server.Pipes.Notice.{Inv, Reach-Inv, before_receiver}

abbrev receiver_left : Receiver → ℕ
receiver_left reading = 1
receiver_left writing = 3
receiver_left stopped = 0

abbrev copier_left : Copier → ℕ
copier_left idle = 2
copier_left holding = 1
copier_left ended = 0

abbrev sender_left : Sender → ℕ
sender_left sending = 1
sender_left finished = 0

abbrev stage_left : Stage → ℕ
stage_left selecting = 4
stage_left stopping_receiver = 3
stage_left waiting_process = 2
stage_left draining = 1
stage_left left = 0
stage_left panicked = 0

-- The steps that the server has before it when the process has ended, at most.
abbrev pub steps_left : Connection → ℕ
steps_left s =
    s.output
    + receiver_left s.receiver
    + copier_left s.copier
    + sender_left s.sender
    + stage_left s.stage

-- The process has ended, and the receiver is told to end or has ended.
pub record Ending (s : Connection) : Type 0 where
  pub dead : s.alive ≡ false
  pub told : (s.cancelled ≡ true) ⊎ (s.receiver ≡ stopped)

pub step-Ending :
    {s t : Connection} → Step by_server s t → Ending s → Ending t × (steps_left t < steps_left s)
step-Ending (kills s p q) e = ground arith
step-Ending (receiver_cancelled s p q) e = (record { dead = e.dead; told = inr refl }, ground arith)
step-Ending (takes_all s p q) e = (ground arith, ground arith)
step-Ending (takes_part s p q) e = (ground arith, ground arith)
step-Ending (delivers s p q) e = ground arith
step-Ending (breaks s p q) e = (ground arith, ground arith)
step-Ending (copier_ends s p q) e = (ground arith, ground arith)
step-Ending (sends s p q) e = (ground arith, ground arith)
step-Ending (sender_fails s p q) e = (ground arith, ground arith)
step-Ending (sender_closed s p q) e = (ground arith, ground arith)
step-Ending (panics s p q c) e = (record { dead = e.dead; told = inl refl }, ground arith)
step-Ending (selects_receiver s p q c) e = (ground arith, ground arith)
step-Ending (selects_sender s p q) e = (ground arith, ground arith)
step-Ending (receiver_drained s p q) e = (ground arith, ground arith)
step-Ending (waits s p q) e = (ground arith, ground arith)
step-Ending (drains s p q) e = (ground arith, ground arith)

abbrev pub Next : Connection → Type 0
Next s = (t : Connection) × Step by_server s t

-- Once the receiver has ended, `proxy` can go on from each of its stages.
stage-Next :
    (s : Connection) (g : Stage) (w : Sender)
    → s.stage ≡ g
    → s.sender ≡ w
    → s.receiver ≡ stopped
    → s.alive ≡ false
    → Next s ⊎ (is_over s.stage ≡ true)
stage-Next s selecting w e f r d = elim (Bool-cases s.closed) [
  | inl c ↦ inl (_, panics s e r c)
  | inr c ↦ inl (_, selects_receiver s e r c)
]
stage-Next s stopping_receiver w e f r d = inl (_, receiver_drained s e r)
stage-Next s waiting_process w e f r d = inl (_, waits s e d)
stage-Next s draining sending e f r d = inl (_, sender_closed s f (inr e))
stage-Next s draining finished e f r d = inl (_, drains s e f)
stage-Next s left w e f r d = inr (ap is_over e)
stage-Next s panicked w e f r d = inr (ap is_over e)

before_of : (g : Stage) → before_receiver g ≡ true → (g ≡ selecting) ⊎ (g ≡ stopping_receiver)
before_of selecting h = inl refl
before_of stopping_receiver h = inr refl
before_of waiting_process h = cc
before_of draining h = cc
before_of left h = cc
before_of panicked h = cc

stays : (s : Connection) → s.receiver ≡ writing → Inv s → before_receiver s.stage ≡ true
stays s r v = elim v.receiver_over [ inl h ↦ h | inr h ↦ cc ]

-- A receiver that is in a write goes on, or nothing reads it.
writing-Next :
    (s : Connection) (c : Copier)
    → s.copier ≡ c
    → s.receiver ≡ writing
    → s.alive ≡ false
    → Inv s
    → Next s ⊎ Blocked s
writing-Next s idle e r d v = inl (_, takes_all s r e)
writing-Next s holding e r d v = inl (_, breaks s e d)
writing-Next s ended e r d v =
    inr (record { unread = e; in_write = r; before = before_of s.stage (stays s r v) })

pub Ending-Next :
    (s : Connection) (r : Receiver)
    → s.receiver ≡ r
    → Inv s
    → Ending s
    → Next s ⊎ (is_over s.stage ≡ true) ⊎ Blocked s
Ending-Next s reading r v e = inl (_, receiver_cancelled s r (inl (ground (arith, e.told))))
Ending-Next s writing r v e = elim (writing-Next s s.copier refl r e.dead v) [
  | inl n ↦ inl n
  | inr b ↦ inr (inr b)
]
Ending-Next s stopped r v e = elim (stage-Next s s.stage s.sender refl refl r e.dead) [
  | inl n ↦ inl n
  | inr b ↦ inr (inl b)
]

-- A run of n steps of the server.
pub data Run : ℕ → Connection → Connection → Type 0 where
  stop : (s : Connection) → Run zero s s
  more : {n : ℕ} {s t u : Connection} → Step by_server s t → Run n t u → Run (suc n) s u

-- When the process has ended, and the server is told to end or the receiver has ended, the steps of
-- the server are bounded; and where it can make none, `proxy` is at its end or at a panic, or the receiver
-- is in a write that nothing reads.
pub Run-ends :
    {n : ℕ} {s t : Connection}
    → Reach s
    → Ending s
    → Run n s t
    → (n ≤ steps_left s) × (Next t ⊎ (is_over t.stage ≡ true) ⊎ Blocked t)
Run-ends {s = s} r e (stop _) = (omega arith, Ending-Next s s.receiver refl (Reach-Inv r) e)
Run-ends r e (more st run) =
    let (e', less) = step-Ending st e in
    let (bound, rest) = Run-ends (next r st) e' run in (omega arith, rest)

-- ===== src/Server/Pipes/Hang.antt =====
-- A process that ends by itself, and a client that does not know of it.
use mcptp.Base.{◌≡◌, ◌≢◌, ◌⊎◌, inl, inr, refl, false, arith}
use mcptp.Server.Pipes.{
  Connection, reading, writing, idle, ended, selecting, stopping_receiver, left, Actor, Step,
  receives, receiver_ends, receiver_cancelled, takes_all, takes_part, delivers, breaks,
  selects_receiver, panics, client_closes, selects_sender, receiver_drained, waits, drains, Run,
  stop, more,
}

-- The receiver is in a write that nothing reads, and `proxy` has not gone past it.
pub record Blocked (s : Connection) : Type 0 where
  pub unread : s.copier ≡ ended
  pub in_write : s.receiver ≡ writing
  pub before : (s.stage ≡ selecting) ⊎ (s.stage ≡ stopping_receiver)

pub Step-Blocked : {a : Actor} {s t : Connection} → Step a s t → Blocked s → Blocked t
Step-Blocked (receiver_ends s p) b = ground arith
Step-Blocked (receiver_cancelled s p q) b = ground arith
Step-Blocked (takes_all s p q) b = ground arith
Step-Blocked (takes_part s p q) b = ground arith
Step-Blocked (delivers s p q) b = ground arith
Step-Blocked (selects_receiver s p q c) b = ground arith
Step-Blocked (panics s p q c) b = ground arith
Step-Blocked (client_closes s p) b = ground arith
Step-Blocked (selects_sender s p q) b = record {
  unread = b.unread;
  in_write = b.in_write;
  before = inr refl;
}
Step-Blocked (receiver_drained s p q) b = ground arith
Step-Blocked (waits s p q) b = ground arith
Step-Blocked (drains s p q) b = ground arith
Step-Blocked _ b = ground arith

Run-Blocked : {s t : Connection} → Run s t → Blocked s → Blocked t
Run-Blocked (stop s) b = b
Run-Blocked (more st r) b = Run-Blocked r (Step-Blocked st b)

-- A receiver that is in a write which nothing reads stays there, and `proxy` never gets to its end:
-- whatever the process, the client and the signal do.
pub Blocked-hangs :
    {s t : Connection} → Run s t → Blocked s → (t.receiver ≡ writing) × (t.stage ≢ left)
Blocked-hangs r b = let c = Run-Blocked r b in (c.in_write, (λ h. ground (arith, c.before)))

-- If the process has ended while `proxy` is in its `select`, the receiver in a read and the copying
-- goroutine idle, some run leads to a receiver that is in a write which nothing reads.
pub two_messages-Blocked :
    (s : Connection)
    → s.alive ≡ false
    → s.receiver ≡ reading
    → s.copier ≡ idle
    → s.stage ≡ selecting
    → (t : Connection) × Run s t × Blocked t
two_messages-Blocked s d r c g = (
  record s { receiver = writing; copier = ended },
  more (receives s r)
      (more (takes_all _ refl c) (more (breaks _ refl d) (more (receives _ refl) (stop _)))),
  record { unread = refl; in_write = refl; before = inl g },
)

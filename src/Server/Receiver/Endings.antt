-- ===== src/Server/Receiver/Endings.antt =====
-- Why a receiver ends: each result names a round that explains it.
use mathlib.Core.List.{Memᴰ}
use mcptp.Base.{
  ℕ, false, ◌≡◌, refl, ap, ◌∙◌, ◌⊎◌, inl, inr, Option, none, some, List, [], ◌∷◌, arith, Bytes, ℤ,
  negsuc, eqb_ℤ, eqb_ℤ_iff, Bool-cases, subst, String,
}
use mcptp.Json.{Grammar}
use mcptp.Oob.{ReadError, ReadResult, shutdown, received, unreadable, read_message}
use mcptp.Server.Close.{CloseError}
use mcptp.Server.Receiver.{
  Incoming, message, failed, Written, all_written, write_failed, Turn, Receiver, Progress, running,
  finished, on_oob, step, resume, receive,
}
use mcptp.Websocket.{
  text_type, binary_type, other_type, status_normal_closure, status_unsupported_data,
  status_internal_error,
}

-- The round is a failed read of a websocket that the peer has closed.
abbrev pub PeerClosed : Turn → Type 0
PeerClosed t =
    (status : ℤ) × (e : String) × (t.incoming ≡ failed status e) × (eqb_ℤ status (negsuc 0) ≡ false)

-- The round brings a shutdown message.
abbrev pub AsksShutdown : Grammar → Turn → Type 0
AsksShutdown G t =
    (msg : Bytes) × (t.incoming ≡ message text_type msg) × (read_message G msg ≡ received shutdown)

-- The round brings a message that the receiver does not understand.
abbrev pub Unsupported : Grammar → Turn → Type 0
Unsupported G t =
    ((msg : Bytes) × (t.incoming ≡ message other_type msg))
    ⊎ ((msg : Bytes) × (e : ReadError) × (t.incoming ≡ message text_type msg)
        × (read_message G msg ≡ unreadable e))

-- The round is a read or a write that failed.
abbrev pub Broken : Turn → Type 0
Broken t =
    ((e : String) × (t.incoming ≡ failed (negsuc 0) e))
    ⊎ ((msg : Bytes) × (n : ℕ) × (e : String) × (t.incoming ≡ message binary_type msg)
        × (t.written ≡ write_failed n e))

-- What explains a result: nil by a closed websocket, and each status code by its kind of round.
pub data Explains (G : Grammar) (t : Turn) : Option CloseError → Type 0 where
  by_peer : PeerClosed t → Explains G t none
  by_shutdown :
      {c : CloseError} → c.code ≡ status_normal_closure → AsksShutdown G t → Explains G t (some c)
  by_kind :
      {c : CloseError} → c.code ≡ status_unsupported_data → Unsupported G t → Explains G t (some c)
  by_failure : {c : CloseError} → c.code ≡ status_internal_error → Broken t → Explains G t (some c)

-- `Explained p`: if the step ends the worker, the round explains it.
abbrev Explained : Grammar → Turn → Progress → Type 0
Explained G t (running r) = Unit
Explained G t (finished c r) = Explains G t c

on_oob-Explained :
    (G : Grammar) (t : Turn) (msg : Bytes) (r : Receiver) (m : ReadResult)
    → t.incoming ≡ message text_type msg
    → read_message G msg ≡ m
    → Explained G t (on_oob m r)
unfolding on_oob
on_oob-Explained G t msg r (unreadable e) i h = by_kind refl (inr (msg, e, i, h))
on_oob-Explained G t msg r (received shutdown) i h = by_shutdown refl (msg, i, h)
on_oob-Explained G t msg r (received p) i h = tt

step-Explained :
    (G : Grammar) (r : Receiver) (t : Turn) (i : Incoming) (w : Written)
    → t.incoming ≡ i
    → t.written ≡ w
    → Explained G t (step G r i w)
unfolding step
step-Explained G r t (failed status e) w p q = elim (Bool-cases (eqb_ℤ status (negsuc 0))) [
  | inl h ↦
      let minus_one = (eqb_ℤ_iff status (negsuc 0)).0 h in
      rw h (by_failure refl (inl (e, p ∙ ap (λ s. failed s e) minus_one)))
  | inr h ↦ rw h (by_peer (status, e, p, h))
]
step-Explained G r t (message binary_type msg) (write_failed n e) p q =
    by_failure refl (inr (msg, n, e, p, q))
step-Explained G r t (message binary_type msg) all_written p q = tt
step-Explained G r t (message text_type msg) w p q =
    on_oob-Explained G t msg r (read_message G msg) p refl
step-Explained G r t (message other_type msg) w p q = by_kind refl (inl (msg, p))

resume_finished :
    (next : Receiver → Progress) (p : Progress) {c : Option CloseError} {r' : Receiver}
    → resume next p ≡ finished c r'
    → ((s : Receiver) × (p ≡ running s) × (next s ≡ finished c r'))
      ⊎ ((s : Receiver) × (p ≡ finished c s) × (r' ≡ record s { stdin_open = false }))
unfolding resume
resume_finished next (running s) e = inl (s, refl, e)
resume_finished next (finished d s) e = inr (s, cc, cc)

-- A receiver that ends has closed the stdin of the process, and one of its rounds explains the
-- result: nil only if the websocket was closed, a normal closure only after a shutdown message,
-- "unsupported data" only after a message that cannot be read, and an internal error only after a
-- failed read or write.
pub receive-Explains :
    (G : Grammar) (r : Receiver) (ts : List Turn) {c : Option CloseError} {r' : Receiver}
    → receive G r ts ≡ finished c r'
    → (t : Turn) × Memᴰ t ts × Explains G t c × (r'.stdin_open ≡ false)
unfolding receive
receive-Explains G r [] e = absurd (ground arith)
receive-Explains G r (t ∷ ts) {c} {r'} e =
    elim (resume_finished (λ s. receive G s ts) (step G r t.incoming t.written) e) [
      | inl (s, f, later) ↦
          let (u, m, x, o) = receive-Explains G s ts later in (u, Memᴰ.tail m, x, o)
      | inr (s, f, o) ↦ (
        t,
        Memᴰ.head refl,
        subst (Explained G t) f (step-Explained G r t _ _ refl refl),
        rw o refl,
      )
    ]

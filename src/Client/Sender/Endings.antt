-- ===== src/Client/Sender/Endings.antt =====
-- The exit that the client's sender reports.
use mcptp.Base.{
  ◌≡◌, inl, inr, refl, none, some, List, [], ◌∷◌, ◌++◌, Bytes, ℤ, pos, eqb_ℤ, Bool-cases, arith,
  if◌then◌else◌, map,
}
use mcptp.Json.{Grammar}
use mcptp.Oob.{server_exited, ServerExited, ReadResult, received, read_message}
use mcptp.Client.Exit.{closed_normally, closed_unexpectedly, ExitError}
use mcptp.Client.Sender.{
  message, closed, Written, Turn, Sender, running, finished, on_oob, on_closed, step, resume,
  forward, written_ok,
}
use mcptp.Client.Sender.Output.{arrives}
use mcptp.Websocket.{MessageType, text_type, binary_type, other_type, status_normal_closure}

-- The exit code that a message tells: its own, or 1 where it has none.
abbrev pub code_of : ServerExited → ℤ
code_of m = elim m.exit_code [ none ↦ pos 1 | some n ↦ n ]

-- The code told by the last exit message among some rounds, or an earlier one.
abbrev pub told : ReadResult → ℤ → ℤ
told (received (server_exited m)) code = code_of m
told _ code = code

abbrev pub code_after : Grammar → MessageType × Bytes → ℤ → ℤ
code_after G (text_type, msg) code = told (read_message G msg) code
code_after G _ code = code

abbrev pub last_code : Grammar → List (MessageType × Bytes) → ℤ → ℤ
last_code G [] code = code
last_code G (m ∷ msgs) code = last_code G msgs (code_after G m code)

on_oob-code : (r : ReadResult) (s : Sender) → (on_oob r s).exit_code ≡ told r s.exit_code
unfolding on_oob
on_oob-code r s = ground arith

step-code :
    (G : Grammar) (kind : MessageType) (msg : Bytes) (s : Sender)
    → (s' : Sender) × (step G (message kind msg) written_ok s ≡ running s')
      × (s'.exit_code ≡ code_after G (kind, msg) s.exit_code)
unfolding step
step-code G binary_type msg s = (_, refl, refl)
step-code G text_type msg s = (_, refl, on_oob-code (read_message G msg) s)
step-code G other_type msg s = (_, refl, refl)

on_closed-code :
    (status : ℤ) (s : Sender)
    → (e : ExitError) × (on_closed status s ≡ finished e s)
      × (e.code ≡ (if eqb_ℤ status status_normal_closure then s.exit_code else pos 1))
unfolding on_closed
on_closed-code status s = elim (Bool-cases (eqb_ℤ status status_normal_closure)) [
  | inl h ↦ (record { reason = closed_normally s.exit_info; code = s.exit_code }, rw h, rw h)
  | inr h ↦ (record { reason = closed_unexpectedly status s.exit_info; code = pos 1 }, rw h, rw h)
]

-- When the websocket is closed the worker ends. Its exit code is then 1 for any status but a normal
-- closure, and after a normal closure the code that the last exit message told, 0 without one.
pub forward-code :
    (G : Grammar) (s : Sender) (msgs : List (MessageType × Bytes)) (status : ℤ) (w : Written)
    (rest : List Turn)
    → (e : ExitError) × (s' : Sender) × (forward G s
          (map arrives msgs ++ record { incoming = closed status; written = w } ∷ rest)
        ≡ finished e s')
      × (e.code
          ≡ (if eqb_ℤ status status_normal_closure then last_code G msgs s.exit_code else pos 1))
unfolding forward step
forward-code G s [] status w rest =
    let (e, f, c) = on_closed-code status s in (e, s, rw (f, resume), c)
forward-code G s ((kind, msg) ∷ msgs) status w rest =
    let (t, f, c) = step-code G kind msg s in
    let (e, s', f', c') = forward-code G t msgs status w rest in
    (e, s', rw (f, resume) f', rw (← c) c')

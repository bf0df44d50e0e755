-- ===== src/Client/Sender/Output.antt =====
-- What the client writes to its stdout.
use mcptp.Base.{
  ◌≡◌, inl, inr, ℤ, pos, String, eqb_ℤ, Bool-cases, refl, ap, sym, ◌∙◌, List, [], ◌∷◌, ◌++◌,
  append_assoc, append-nil, Bytes, concat, map, arith,
}
use mcptp.Json.{Grammar}
use mcptp.Oob.{ReadResult, read_message}
use mcptp.Client.Exit.{ExitError, websocket_failed}
use mcptp.Client.Sender.{
  Incoming, closed, broken, finished, on_closed, message, written_ok, Turn, Sender, running, on_oob,
  step, resume, forward,
}
use mcptp.Websocket.{MessageType, text_type, binary_type, other_type, status_normal_closure}

-- The data among some messages.
abbrev pub payload_of : Incoming → Bytes
payload_of (message binary_type msg) = msg
payload_of _ = []

-- The round is a message, and stdout takes what is written.
abbrev pub arrives : MessageType × Bytes → Turn
arrives (kind, msg) = record { incoming = message kind msg; written = written_ok }

pub on_oob-stdout : (r : ReadResult) (s : Sender) → (on_oob r s).stdout ≡ s.stdout
unfolding on_oob
on_oob-stdout r s = ground arith

step-stdout :
    (G : Grammar) (kind : MessageType) (msg : Bytes) (s : Sender)
    → (s' : Sender) × (step G (message kind msg) written_ok s ≡ running s')
      × (s'.stdout ≡ s.stdout ++ payload_of (message kind msg))
unfolding step
step-stdout G binary_type msg s = (_, refl, refl)
step-stdout G text_type msg s =
    (_, refl, on_oob-stdout (read_message G msg) s ∙ sym (append-nil s.stdout))
step-stdout G other_type msg s = (_, refl, sym (append-nil s.stdout))

-- While the websocket delivers messages and stdout takes them, the worker goes on, and the binary
-- messages reach stdout whole, in order and with nothing between, whatever else arrives.
pub forward-stdout :
    (G : Grammar) (s : Sender) (msgs : List (MessageType × Bytes)) (rest : List Turn)
    → (s' : Sender) × (forward G s (map arrives msgs ++ rest) ≡ forward G s' rest)
      × (s'.stdout ≡ s.stdout ++ concat (map (λ m. payload_of (message m.0 m.1)) msgs))
unfolding forward
forward-stdout G s [] rest = (s, refl, sym (append-nil s.stdout))
forward-stdout G s ((kind, msg) ∷ msgs) rest =
    let (t, e, o) = step-stdout G kind msg s in
    let (s', e', o') = forward-stdout G t msgs rest in
    let tail = concat (map (λ (m : MessageType × Bytes). payload_of (message m.0 m.1)) msgs) in
    (
      s',
      rw (e, resume) e',
      o' ∙ ap (λ x. x ++ tail) o ∙ append_assoc s.stdout (payload_of (message kind msg)) tail,
    )

-- A close writes nothing to stdout.
pub closed-stdout :
    (G : Grammar) (s t : Sender) (status : ℤ) (e : ExitError)
    → forward G s (record { incoming = closed status; written = written_ok } ∷ []) ≡ finished e t
    → t.stdout ≡ s.stdout
unfolding forward step on_closed resume
closed-stdout G s t status e h = elim (Bool-cases (eqb_ℤ status status_normal_closure)) [
  | inl k ↦ let h' = rw k at h in cc
  | inr k ↦ let h' = rw k at h in cc
]

-- A read that fails ends the worker with the code 1, and writes nothing to stdout.
pub broken-stdout :
    (G : Grammar) (s : Sender) (e : String) (rest : List Turn)
    → forward G s (record { incoming = broken e; written = written_ok } ∷ rest)
      ≡ finished (record { reason = websocket_failed e; code = pos 1 }) s
unfolding forward step resume
broken-stdout G s e rest = refl

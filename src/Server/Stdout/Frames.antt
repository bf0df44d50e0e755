-- ===== src/Server/Stdout/Frames.antt =====
-- What the sender puts on the websocket, as long as the accumulator accepts what it reads.
use mcptp.Base.{
  ◌≡◌, ◌≢◌, refl, sym, ap, subst, ◌∙◌, none, List, [], ◌∷◌, ◌++◌, map, append_assoc, append-nil,
  Bytes,
}
use mcptp.Json.{Grammar}
use mcptp.Jsonrpc.Accumulator.{
  Accumulator, Accumulated, incomplete, complete, rejected, AccumulateError, accumulate_response,
}
use mcptp.Jsonrpc.Response.{Response}
use mcptp.Server.Stdout.{Turn, sent_ok, Sender, running, after_send, step, resume, forward}

-- A chunk that is read with no error and sent.
abbrev pub passed : Bytes → Turn
passed chunk = record { chunk = chunk; read_error = none; sent = sent_ok }

-- Each chunk has bytes, and leaves the accumulator with no error.
abbrev pub Accepted : Grammar → Accumulator → List Bytes → Type 0
Accepted G accumulator [] = Unit
Accepted G accumulator (chunk ∷ chunks) =
    let (response, left) = accumulate_response G accumulator chunk in
    (chunk ≢ []) × ((e : AccumulateError) → response ≢ rejected e) × Accepted G left chunks

after_send-running :
    (a : Accumulated Response) (s : Sender)
    → ((e : AccumulateError) → a ≢ rejected e)
    → (s' : Sender) × (after_send a s ≡ running s')
      × (s'.frames ≡ s.frames)
      × (s'.accumulator ≡ s.accumulator)
unfolding after_send
after_send-running incomplete s h = (s, refl, refl, refl)
after_send-running (complete r) s h = (_, refl, refl, refl)
after_send-running (rejected e) s h = absurd (h e refl)

step-passed :
    (G : Grammar) (chunk : Bytes) (s : Sender)
    → chunk ≢ []
    → ((e : AccumulateError) → (accumulate_response G s.accumulator chunk).0 ≢ rejected e)
    → (s' : Sender) × (step G chunk none sent_ok s ≡ running s')
      × (s'.frames ≡ s.frames ++ chunk ∷ [])
      × (s'.accumulator ≡ (accumulate_response G s.accumulator chunk).1)
unfolding step
step-passed G [] s n h = absurd (n refl)
step-passed G (b ∷ bs) s n h = after_send-running _ _ h

-- As long as the accumulator accepts them, the chunks read from the process are sent as binary
-- frames, each once, in order and unchanged, and the worker goes on.
pub forward-frames :
    (G : Grammar) (s : Sender) (chunks : List Bytes) (rest : List Turn)
    → Accepted G s.accumulator chunks
    → (s' : Sender) × (forward G s (map passed chunks ++ rest) ≡ forward G s' rest)
      × (s'.frames ≡ s.frames ++ chunks)
unfolding forward
forward-frames G s [] rest h = (s, refl, sym (append-nil s.frames))
forward-frames G s (chunk ∷ chunks) rest h =
    let (s', e, f, a) = step-passed G chunk s h.0 h.1 in
    let (s'', e', f') =
      forward-frames G s' chunks rest (subst (λ x. Accepted G x chunks) (sym a) h.2) in
    (
      s'',
      rw (e, resume) e',
      f' ∙ ap (λ x. x ++ chunks) f ∙ append_assoc s.frames (chunk ∷ []) chunks,
    )

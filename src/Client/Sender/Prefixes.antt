-- ===== src/Client/Sender/Prefixes.antt =====
-- What the client writes to its stdout, whatever fails.
use mcptp.Base.{
  list_laws, prefix-append, ◌≡◌, sym, subst, ◌∙◌, inl, inr, Bool-cases, eqb_ℤ, List, [], ◌∷◌, ◌++◌,
  append-nil, Bytes, concat, IsPrefix, IsPrefix-append, append-IsPrefix, take-IsPrefix, take,
}
use mcptp.Client.Sender.{
  Incoming, message, closed, broken, Written, written_ok, write_failed, Turn, Sender, Progress,
  running, finished, on_closed, on_binary, step, resume, forward,
}
use mcptp.Client.Sender.Output.{on_oob-stdout}
use mcptp.Json.{Grammar}
use mcptp.Oob.{read_message}
use mcptp.Websocket.{text_type, binary_type, other_type, status_normal_closure}

-- The binary messages that some rounds bring, and what has been written.
abbrev pub carried : Incoming → List Bytes
carried (message binary_type msg) = msg ∷ []
carried _ = []

abbrev pub binaries : List Turn → List Bytes
binaries [] = []
binaries (t ∷ turns) = carried t.incoming ++ binaries turns

abbrev pub stdout_of : Progress → Bytes
stdout_of (running s) = s.stdout
stdout_of (finished e s) = s.stdout

-- All has been written, or the worker has ended and a beginning of it has been written.
Kept : Bytes → Progress → Type 0
Kept all (running s) = s.stdout ≡ all
Kept all (finished e s) = IsPrefix s.stdout all

step-Kept :
    (G : Grammar) (i : Incoming) (w : Written) (s : Sender)
    → Kept (s.stdout ++ concat (carried i)) (step G i w s)
unfolding step on_closed on_binary Kept
step-Kept G (closed status) w s = elim (Bool-cases (eqb_ℤ status status_normal_closure)) [
  | inl h ↦ rw h (prefix-append s.stdout [])
  | inr h ↦ rw h (prefix-append s.stdout [])
]
step-Kept G (broken e) w s = prefix-append s.stdout []
step-Kept G (message binary_type msg) written_ok s = simp list_laws
step-Kept G (message binary_type msg) (write_failed n e) s =
    rw (append-nil msg) (append-IsPrefix s.stdout (take n msg) msg (take-IsPrefix n msg))
step-Kept G (message text_type msg) w s =
    on_oob-stdout (read_message G msg) s ∙ sym (append-nil s.stdout)
step-Kept G (message other_type msg) w s = sym (append-nil s.stdout)

resume-IsPrefix :
    (G : Grammar) (turns : List Turn) (p : Progress) (all : Bytes)
    → ((s : Sender)
        → IsPrefix (stdout_of (forward G s turns)) (s.stdout ++ concat (binaries turns)))
    → Kept all p
    → IsPrefix (stdout_of (resume (λ s. forward G s turns) p)) (all ++ concat (binaries turns))
unfolding resume Kept
resume-IsPrefix G turns (running s) all ih k = rw (← k) (ih s)
resume-IsPrefix G turns (finished e s) all ih k =
    IsPrefix-append s.stdout all (concat (binaries turns)) k

-- What the worker has written is a beginning of what the binary messages bring, whatever the rounds are.
pub forward-IsPrefix :
    (G : Grammar) (s : Sender) (turns : List Turn)
    → IsPrefix (stdout_of (forward G s turns)) (s.stdout ++ concat (binaries turns))
unfolding forward
forward-IsPrefix G s [] = prefix-append s.stdout []
forward-IsPrefix G s (t ∷ turns) =
    let p = step G t.incoming t.written s in
    subst (IsPrefix (stdout_of (resume (λ r. forward G r turns) p))) (simp list_laws) (
      resume-IsPrefix G turns p _ (λ r. forward-IsPrefix G r turns)
        (step-Kept G t.incoming t.written s))

-- ===== src/Server/Stdout/Prefixes.antt =====
-- What the server sends of the stdout of the process, whatever fails.
use mcptp.Base.{
  list_laws, prefix-append, ◌≡◌, refl, sym, subst, inl, inr, Bool-cases, eqb_ℤ, negsuc, Option,
  none, some, List, [], ◌∷◌, ◌++◌, append-nil, map, Bytes, concat, IsPrefix, IsPrefix-refl,
  IsPrefix-append,
}
use mcptp.Jsonrpc.Accumulator.{Accumulated, incomplete, complete, rejected}
use mcptp.Jsonrpc.Response.{Response}
use mcptp.Json.{Grammar}
use mcptp.Server.Stdout.{
  ReadEnd, eof, closed_pipe, other, Sent, sent_ok, send_failed, Turn, Sender, Progress, running,
  finished, LoopError, read_error, bad_message, check_error, after_send, send, as_loop_error, step,
  resume, forward,
}

abbrev pub frames_of : Progress → List Bytes
frames_of (running s) = s.frames
frames_of (finished c s) = s.frames

-- What is read of the stdout in some rounds.
abbrev pub read_in : List Turn → Bytes
read_in turns = concat (map Turn.chunk turns)

-- All that has been sent, or the worker has ended and a beginning of it has been sent.
Kept : Bytes → Progress → Type 0
Kept all (running s) = concat s.frames ≡ all
Kept all (finished c s) = IsPrefix (concat s.frames) all

check_error-Kept :
    (e : Option LoopError) (s : Sender) (all : Bytes)
    → concat s.frames ≡ all
    → Kept all (check_error e s)
unfolding check_error Kept
check_error-Kept none s all h = h
check_error-Kept (some (read_error eof)) s all h = rw (← h) (IsPrefix-refl (concat s.frames))
check_error-Kept (some (read_error closed_pipe)) s all h =
    rw (← h) (IsPrefix-refl (concat s.frames))
check_error-Kept (some (read_error (other e))) s all h = rw (← h) (IsPrefix-refl (concat s.frames))
check_error-Kept (some (bad_message e)) s all h = rw (← h) (IsPrefix-refl (concat s.frames))

after_send-Kept :
    (a : Accumulated Response) (s : Sender) (all : Bytes)
    → concat s.frames ≡ all
    → Kept all (after_send a s)
unfolding after_send
after_send-Kept incomplete s all h = check_error-Kept none s all h
after_send-Kept (complete r) s all h = check_error-Kept none _ all h
after_send-Kept (rejected e) s all h = check_error-Kept (some (bad_message e)) _ all h

send-Kept :
    (G : Grammar) (chunk : Bytes) (sent : Sent) (s : Sender)
    → Kept (concat s.frames ++ chunk) (send G chunk sent s)
unfolding send Kept
send-Kept G chunk sent_ok s = after_send-Kept _ _ _ (simp list_laws)
send-Kept G chunk (send_failed status e) s = elim (Bool-cases (eqb_ℤ status (negsuc 0))) [
  | inl h ↦ rw h (chunk, refl)
  | inr h ↦ rw h (chunk, refl)
]

step-Kept :
    (G : Grammar) (chunk : Bytes) (e : Option ReadEnd) (sent : Sent) (s : Sender)
    → Kept (concat s.frames ++ chunk) (step G chunk e sent s)
unfolding step
step-Kept G [] e sent s =
    check_error-Kept (as_loop_error e) s _ (sym (append-nil (concat s.frames)))
step-Kept G (b ∷ bs) e sent s = send-Kept G (b ∷ bs) sent s

resume-IsPrefix :
    (G : Grammar) (turns : List Turn) (p : Progress) (all : Bytes)
    → ((s : Sender)
        → IsPrefix (concat (frames_of (forward G s turns))) (concat s.frames ++ read_in turns))
    → Kept all p
    → IsPrefix (concat (frames_of (resume (λ s. forward G s turns) p))) (all ++ read_in turns)
unfolding resume Kept
resume-IsPrefix G turns (running s) all ih k = rw (← k) (ih s)
resume-IsPrefix G turns (finished c s) all ih k =
    IsPrefix-append (concat s.frames) all (read_in turns) k

-- What the worker has sent is a beginning of what it has read, whatever the rounds are.
pub forward-IsPrefix :
    (G : Grammar) (s : Sender) (turns : List Turn)
    → IsPrefix (concat (frames_of (forward G s turns))) (concat s.frames ++ read_in turns)
unfolding forward
forward-IsPrefix G s [] = prefix-append (concat s.frames) []
forward-IsPrefix G s (t ∷ turns) =
    let p = step G t.chunk t.read_error t.sent s in
    subst (IsPrefix (concat (frames_of (resume (λ r. forward G r turns) p)))) (simp list_laws) (
      resume-IsPrefix G turns p _ (λ r. forward-IsPrefix G r turns)
        (step-Kept G t.chunk t.read_error t.sent s))

-- ===== src/Server/Stdout/Sizes.antt =====
-- How large the messages are that the server sends of the stdout of the process.
use mcptp.Base.{
  ℕ, ◌≤◌, All, All-append, inl, inr, Bool-cases, eqb_ℤ, negsuc, Option, none, some, List, [], ◌∷◌,
  Bytes, length,
}
use mcptp.Json.{Grammar}
use mcptp.Jsonrpc.Accumulator.{Accumulated, incomplete, complete, rejected}
use mcptp.Jsonrpc.Response.{Response}
use mcptp.Server.Stdout.{
  ReadEnd, eof, closed_pipe, other, Sent, sent_ok, send_failed, Turn, Sender, Progress, running,
  finished, LoopError, read_error, bad_message, check_error, after_send, send, as_loop_error, step,
  resume, forward,
}
use mcptp.Server.Stdout.Prefixes.{frames_of}

abbrev pub Small : ℕ → Bytes → Type 0
Small limit frame = length frame ≤ limit

AllSmall : ℕ → Progress → Type 0
AllSmall limit p = All (Small limit) (frames_of p)

check_error-AllSmall :
    (limit : ℕ) (e : Option LoopError) (s : Sender)
    → All (Small limit) s.frames
    → AllSmall limit (check_error e s)
unfolding check_error AllSmall
check_error-AllSmall limit none s a = a
check_error-AllSmall limit (some (read_error eof)) s a = a
check_error-AllSmall limit (some (read_error closed_pipe)) s a = a
check_error-AllSmall limit (some (read_error (other e))) s a = a
check_error-AllSmall limit (some (bad_message e)) s a = a

after_send-AllSmall :
    (limit : ℕ) (r : Accumulated Response) (s : Sender)
    → All (Small limit) s.frames
    → AllSmall limit (after_send r s)
unfolding after_send
after_send-AllSmall limit incomplete s a = check_error-AllSmall limit none s a
after_send-AllSmall limit (complete r) s a = check_error-AllSmall limit none _ a
after_send-AllSmall limit (rejected e) s a = check_error-AllSmall limit (some (bad_message e)) _ a

step-AllSmall :
    (G : Grammar) (limit : ℕ) (chunk : Bytes) (e : Option ReadEnd) (sent : Sent) (s : Sender)
    → length chunk ≤ limit
    → All (Small limit) s.frames
    → AllSmall limit (step G chunk e sent s)
unfolding step send AllSmall
step-AllSmall G limit [] e sent s l a = check_error-AllSmall limit (as_loop_error e) s a
step-AllSmall G limit (b ∷ bs) e sent_ok s l a =
    after_send-AllSmall limit _ _ (All-append (Small limit) s.frames _ a (l, tt))
step-AllSmall G limit (b ∷ bs) e (send_failed status t) s l a =
    elim (Bool-cases (eqb_ℤ status (negsuc 0))) [ inl h ↦ rw h a | inr h ↦ rw h a ]

resume-AllSmall :
    (G : Grammar) (limit : ℕ) (turns : List Turn) (p : Progress)
    → ((s : Sender) → All (Small limit) s.frames → AllSmall limit (forward G s turns))
    → AllSmall limit p
    → AllSmall limit (resume (λ s. forward G s turns) p)
unfolding resume AllSmall
resume-AllSmall G limit turns (running s) ih a = ih s a
resume-AllSmall G limit turns (finished c s) ih a = a

-- If no read gives more than the limit, no frame is larger, whatever the rounds are.
pub forward-Small :
    (G : Grammar) (limit : ℕ) (s : Sender) (turns : List Turn)
    → All (λ (t : Turn). length t.chunk ≤ limit) turns
    → All (Small limit) s.frames
    → All (Small limit) (frames_of (forward G s turns))
unfolding forward AllSmall
forward-Small G limit s [] r a = a
forward-Small G limit s (t ∷ turns) (l, r) a =
    resume-AllSmall G limit turns (step G t.chunk t.read_error t.sent s)
      (λ s' b. forward-Small G limit s' turns r b)
      (step-AllSmall G limit t.chunk t.read_error t.sent s l a)

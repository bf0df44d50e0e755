-- ===== src/Server/Proxy/Waits.antt =====
-- Which runs of a connection wait for the process that they started.
use mcptp.Base.{
  ◌≡◌, ◌≢◌, ◌↔◌, refl, sym, ap, ◌∙◌, Bool, true, false, ◌||◌, Option, none, some, [], ◌∷◌, ◌++◌,
  arith, ℤ,
}
use mcptp.Server.Close.{CloseError}
use mcptp.Server.Proxy.{
  Started, started, not_started, First, receiver_first, stdout_first, Waited, no_error, exit_error,
  wait_error, World, select, run_started, body, report, drain, closing, sender_stderr,
  sender_stdout, start_process, send, spawn, cancel, await, wait_process, close, cancel_process,
  Ending, returns, panics, Trace, proxy,
}

-- Whether the trace has a wait for the process.
abbrev pub waits : Trace → Bool
waits [] = false
waits (wait_process ∷ actions) = true
waits (_ ∷ actions) = waits actions

waits-append : (s t : Trace) → waits (s ++ t) ≡ (waits s || waits t)
waits-append [] t = refl
waits-append (wait_process ∷ s) t = refl
waits-append (close c ∷ s) t = waits-append s t
waits-append (send p ∷ s) t = waits-append s t
waits-append (start_process ∷ s) t = waits-append s t
waits-append (spawn w ∷ s) t = waits-append s t
waits-append (cancel w ∷ s) t = waits-append s t
waits-append (await w ∷ s) t = waits-append s t
waits-append (cancel_process ∷ s) t = waits-append s t

report-waits :
    (drains : Trace) (w : Waited) (d : Option CloseError) → waits (report drains w d).0 ≡ true
unfolding report
report-waits drains no_error d = refl
report-waits drains (exit_error b code e) d = refl
report-waits drains (wait_error e) d = refl

select-waits :
    (first : First) (w : Waited) → (waits (select first w).0 ≡ true) ↔ (first ≢ receiver_first none)
unfolding select
select-waits (receiver_first none) w = ((λ h p. cc), (λ h. absurd (h refl)))
select-waits (receiver_first (some c)) w =
    ((λ h p. cc), (λ h. report-waits (drain sender_stdout ++ drain sender_stderr) w (some c)))
select-waits (stdout_first d) w = ((λ h p. cc), (λ h. report-waits [] w d))

or_false : (b : Bool) → (b || false) ≡ b
or_false b = ground arith

run_started-waits :
    (pid : ℤ) (s : Bool) (first : First) (w : Waited)
    → (waits (run_started pid s first w).0 ≡ true) ↔ ((s ≡ true) × (first ≢ receiver_first none))
unfolding run_started
run_started-waits pid false first w = ((λ h. cc), (λ h. cc))
run_started-waits pid true first w =
    let e = waits-append (select first w).0 _ ∙ or_false (waits (select first w).0) in
    let (only, when) = select-waits first w in
    ((λ h. (refl, only (sym e ∙ h))), (λ (p, q). e ∙ when q))

body-waits :
    (b : Started) (s : Bool) (first : First) (w : Waited)
    → (waits (body (record { begins = b; sent_start = s; first = first; waited = w })).0 ≡ true)
      ↔ (((pid : ℤ) × (b ≡ started pid)) × (s ≡ true) × (first ≢ receiver_first none))
unfolding body
body-waits (not_started e) s first w = ((λ h. cc), (λ h. absurd (ground arith)))
body-waits (started pid) s first w =
    let (only, when) = run_started-waits pid s first w in
    (λ h. let k = only h in ((pid, refl), k.0, k.1), λ h. when (h.1, h.2))

closing-waits : (e : Ending) → waits (closing e ++ cancel_process ∷ []) ≡ false
unfolding closing
closing-waits (returns (some c)) = refl
closing-waits (returns none) = refl
closing-waits panics = refl

-- The server waits for its process exactly if the process started, the start message was sent, and
-- the receiver did not end first with nil.
pub proxy-waits_iff :
    (w : World)
    → (waits (proxy w).0 ≡ true) ↔ (
        ((pid : ℤ) × (w.begins ≡ started pid))
        × (w.sent_start ≡ true)
        × (w.first ≢ receiver_first none))
unfolding proxy
proxy-waits_iff w =
    let e = waits-append (body w).0 (closing (body w).1 ++ cancel_process ∷ []) in
    let f = ap (◌||◌ (waits (body w).0)) (closing-waits (body w).1) ∙ or_false (waits (body w).0) in
    let (only, when) = body-waits w.begins w.sent_start w.first w.waited in
    ((λ h. only (sym (e ∙ f) ∙ h)), (λ h. (e ∙ f) ∙ when h))

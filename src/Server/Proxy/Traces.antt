-- ===== src/Server/Proxy/Traces.antt =====
-- What a connection's trace tells: whether it panics, and what it closes the websocket with.
use mcptp.Base.{
  ◌≡◌, ◌≢◌, ◌↔◌, refl, ap, ◌∙◌, Bool, true, false, Option, none, some, List, [], ◌∷◌, ◌++◌, arith,
  ℤ, eqb_ℤ_iff,
}
use mcptp.Server.Close.{CloseError}
use mcptp.Server.Proxy.{
  Started, started, not_started, First, receiver_first, stdout_first, Waited, no_error, exit_error,
  wait_error, World, select, run_started, body, report, drain, adapt_close, closing, sender_stdout,
  sender_stderr, start_process, send, spawn, cancel, await, wait_process, close, cancel_process,
  Ending, returns, panics, Trace, proxy,
}
use mcptp.Websocket.{status_normal_closure}

-- The close errors that a trace closes the websocket with.
abbrev pub closes : Trace → List CloseError
closes [] = []
closes (close c ∷ actions) = c ∷ closes actions
closes (_ ∷ actions) = closes actions

-- What the worker that finishes first sends.
abbrev pub desired : First → Option CloseError
desired (receiver_first c) = c
desired (stdout_first c) = c

-- A run whose process started and whose start message was sent.
abbrev pub world : ℤ → First → Waited → World
world pid first w = record { begins = started pid; sent_start = true; first = first; waited = w }

select-panics :
    (first : First) (w : Waited) → ((select first w).1 ≡ panics) ↔ (first ≡ receiver_first none)
unfolding select
select-panics (receiver_first none) w = ground arith
select-panics (receiver_first (some c)) w = ground arith
select-panics (stdout_first d) w = ground arith

run_started-panics :
    (pid : ℤ) (sent_start : Bool) (first : First) (w : Waited)
    → ((run_started pid sent_start first w).1 ≡ panics)
      ↔ ((sent_start ≡ true) × (first ≡ receiver_first none))
unfolding run_started
run_started-panics pid false first w = ground arith
run_started-panics pid true first w = ground (arith, select-panics first w)

body-panics :
    (b : Started) (sent_start : Bool) (first : First) (w : Waited)
    → ((body (record { begins = b; sent_start = sent_start; first = first; waited = w })).1
        ≡ panics)
      ↔ (((pid : ℤ) × (b ≡ started pid)) × (sent_start ≡ true) × (first ≡ receiver_first none))
unfolding body
body-panics (not_started e) sent_start first w = (λ h. cc, λ h. absurd (ground arith))
body-panics (started pid) sent_start first w =
    let (only, when) = run_started-panics pid sent_start first w in
    (λ h. let k = only h in ((pid, refl), k.0, k.1), λ h. when (h.1, h.2))

-- `proxy` panics exactly if the process started, the start message was sent, and the receiver ended
-- first with nil, that is on a websocket that the client had closed.
pub proxy_panics_iff :
    (w : World)
    → ((proxy w).1 ≡ panics) ↔ (
        ((pid : ℤ) × (w.begins ≡ started pid))
        × (w.sent_start ≡ true)
        × (w.first ≡ receiver_first none))
unfolding proxy
proxy_panics_iff w = body-panics w.begins w.sent_start w.first w.waited

-- The ending asks for a normal closure with `c`.
abbrev Normal : CloseError → Ending → Type 0
Normal c ending = (ending ≡ returns (some c)) × (c.code ≡ status_normal_closure)

adapt_close_ne_normal :
    (d : Option CloseError) (c : CloseError)
    → adapt_close d ≡ some c
    → c.code ≢ status_normal_closure
unfolding adapt_close
adapt_close_ne_normal none c e = cc
adapt_close_ne_normal (some d) c e = ground (arith, eqb_ℤ_iff d.code status_normal_closure)

report-Normal :
    (drains : Trace) (w : Waited) (d : Option CloseError) (c : CloseError)
    → Normal c (report drains w d).1
    → (w ≡ no_error) × (d ≡ some c)
unfolding report
report-Normal drains no_error d c (e, n) = (refl, cc)
report-Normal drains (exit_error b code t) d c (e, n) = absurd (adapt_close_ne_normal d c (cc) n)
report-Normal drains (wait_error t) d c (e, n) = absurd (adapt_close_ne_normal d c (cc) n)

select-Normal :
    (first : First) (w : Waited) (c : CloseError)
    → Normal c (select first w).1
    → (w ≡ no_error) × (desired first ≡ some c)
unfolding select
select-Normal (receiver_first none) w c (e, n) = cc
select-Normal (receiver_first (some d)) w c h =
    report-Normal (drain sender_stdout ++ drain sender_stderr) w (some d) c h
select-Normal (stdout_first d) w c h = report-Normal [] w d c h

body-Normal :
    (w : World) (b : Started) (s : Bool) (c : CloseError)
    → w.begins ≡ b
    → w.sent_start ≡ s
    → Normal c (body w).1
    → (w.waited ≡ no_error) × (desired w.first ≡ some c)
unfolding body run_started
body-Normal w (not_started t) s c p q h = absurd (ground arith)
body-Normal w (started pid) false c p q h = absurd (ground arith)
body-Normal w (started pid) true c p q h =
    select-Normal w.first w.waited c (rw (p, q, body, run_started) at h)

closes-append : (s t : Trace) → closes (s ++ t) ≡ closes s ++ closes t
closes-append [] t = refl
closes-append (close c ∷ s) t = ap (◌∷◌ c) (closes-append s t)
closes-append (send p ∷ s) t = closes-append s t
closes-append (start_process ∷ s) t = closes-append s t
closes-append (spawn w ∷ s) t = closes-append s t
closes-append (cancel w ∷ s) t = closes-append s t
closes-append (await w ∷ s) t = closes-append s t
closes-append (wait_process ∷ s) t = closes-append s t
closes-append (cancel_process ∷ s) t = closes-append s t

report-closes :
    (drains : Trace) (w : Waited) (d : Option CloseError)
    → closes drains ≡ []
    → closes (report drains w d).0 ≡ []
unfolding report
report-closes drains no_error d h = rw (closes-append, h)
report-closes drains (exit_error b code e) d h = rw (closes-append, h)
report-closes drains (wait_error e) d h = rw (closes-append, h)

select-closes : (first : First) (w : Waited) → closes (select first w).0 ≡ []
unfolding select
select-closes (receiver_first none) w = refl
select-closes (receiver_first (some c)) w =
    report-closes (drain sender_stdout ++ drain sender_stderr) w (some c) refl
select-closes (stdout_first d) w = report-closes [] w d refl

run_started-closes :
    (pid : ℤ) (s : Bool) (first : First) (w : Waited) → closes (run_started pid s first w).0 ≡ []
unfolding run_started
run_started-closes pid false first w = refl
run_started-closes pid true first w =
    closes-append (select first w).0 _ ∙ ap (λ x. x ++ []) (select-closes first w)

body-closes :
    (b : Started) (s : Bool) (first : First) (w : Waited)
    → closes (body (record { begins = b; sent_start = s; first = first; waited = w })).0 ≡ []
unfolding body
body-closes (not_started e) s first w = refl
body-closes (started pid) s first w = run_started-closes pid s first w

closing_first :
    (e : Ending) {c : CloseError} {cs : List CloseError}
    → closes (closing e ++ cancel_process ∷ []) ≡ c ∷ cs
    → (e ≡ returns (some c)) × (cs ≡ [])
unfolding closing
closing_first (returns (some c)) h = ground arith
closing_first (returns none) h = cc
closing_first panics h = cc

-- The websocket is closed at most once. It is closed with the status of a normal closure only if
-- the process ended without an error and the worker that finished first asked for just that.
pub proxy-closes :
    (w : World) {c : CloseError} {cs : List CloseError}
    → closes (proxy w).0 ≡ c ∷ cs
    → (cs ≡ [])
      × (c.code ≡ status_normal_closure → (w.waited ≡ no_error) × (desired w.first ≡ some c))
unfolding proxy
proxy-closes w {c} {cs} h =
    let nothing = body-closes w.begins w.sent_start w.first w.waited in
    let tail = closes-append (body w).0 (closing (body w).1 ++ cancel_process ∷ []) in
    let (e, one) = closing_first (body w).1 (rw (tail, nothing) at h) in
    (one, λ n. body-Normal w w.begins w.sent_start c refl refl (e, n))

-- ===== src/Server/Admission/Limit.antt =====
-- The limit on connections under every interleaving of the handlers.
use mcptp.Base.{
  ℕ, suc, ◌+◌, ◌≤◌, ◌<◌, ◌≡◌, ◌⊎◌, refl, sym, ap, ◌∙◌, List, [], ◌∷◌, ◌++◌, arith, ltb, leb,
  if◌then◌else◌, length,
}
use mcptp.Server.Admission.{
  Phase, entered, counted, refused, proxying, Handler, Server, enter, count, check, leave, Step,
  arrive, counts, checks, returns, Reach, here, next,
}

-- A sum over the handlers.
abbrev pub tally : (Phase → ℕ) → List Handler → ℕ
tally f [] = 0
tally f (h ∷ hs) = f h.phase + tally f hs

pub tally-append :
    (f : Phase → ℕ) (before : List Handler) (h : Handler) (after : List Handler)
    → tally f (before ++ h ∷ after) ≡ f h.phase + tally f (before ++ after)
tally-append f [] h after = refl
tally-append f (b ∷ before) h after = omega (arith, tally-append f before h after)

length-insert :
    (before : List Handler) (h : Handler) (after : List Handler)
    → length (before ++ h ∷ after) ≡ suc (length (before ++ after))
length-insert [] h after = refl
length-insert (b ∷ before) h after = ap suc (length-insert before h after)

-- 1 for a handler that is in `nbConn`.
abbrev pub in_counter : ℕ → Phase → ℕ
in_counter max entered = 0
in_counter max _ = if ltb 0 max then 1 else 0

-- 1 for a handler that runs a connection.
abbrev pub runs : Phase → ℕ
runs proxying = 1
runs _ = 0

-- 1 for a handler that runs a connection or will.
abbrev admitted : ℕ → Phase → ℕ
admitted max entered = 0
admitted max refused = 0
admitted max proxying = 1
admitted max (counted n) = if leb n max then 1 else 0

pub record Inv (max : ℕ) (s : Server) : Type 0 where
  pub all_inflight : s.inflight ≡ length s.handlers
  pub all_counted : s.nb_conn ≡ tally (in_counter max) s.handlers
  pub few_admitted : 0 < max → tally (admitted max) s.handlers ≤ max

admitted-le : (max : ℕ) (p : Phase) → 0 < max → admitted max p ≤ in_counter max p
admitted-le max p h = ground arith

tally-le :
    (max : ℕ) (hs : List Handler) → 0 < max → tally (admitted max) hs ≤ tally (in_counter max) hs
tally-le max [] h = omega arith
tally-le max (x ∷ hs) h = omega (arith, admitted-le max x.phase h, tally-le max hs h)

runs-le : (max : ℕ) (hs : List Handler) → tally runs hs ≤ tally (admitted max) hs
runs-le max [] = omega arith
runs-le max (x ∷ hs) = ground (arith, runs-le max hs)

-- The invariant when one handler has been taken out and put back in another phase.
module _ (max : ℕ) (s : Server) (before after : List Handler) (h : Handler)
    (e : s.handlers ≡ before ++ h ∷ after) (v : Inv max s) where
  inflight_split : s.inflight ≡ suc (length (before ++ after))
  inflight_split = v.all_inflight ∙ ap length e ∙ length-insert before h after

  nb_conn_split : s.nb_conn ≡ in_counter max h.phase + tally (in_counter max) (before ++ after)
  nb_conn_split =
      v.all_counted ∙ ap (tally (in_counter max)) e ∙ tally-append (in_counter max) before h after

  admitted_split : 0 < max → admitted max h.phase + tally (admitted max) (before ++ after) ≤ max
  admitted_split p = omega (
    arith,
    v.few_admitted p,
    ap (tally (admitted max)) e,
    tally-append (admitted max) before h after,
  )

-- The invariant from the parts.
back-Inv :
    (max : ℕ) (t : Server) (before after : List Handler) (h : Handler)
    → t.handlers ≡ before ++ h ∷ after
    → t.inflight ≡ suc (length (before ++ after))
    → t.nb_conn ≡ in_counter max h.phase + tally (in_counter max) (before ++ after)
    → (0 < max → admitted max h.phase + tally (admitted max) (before ++ after) ≤ max)
    → Inv max t
back-Inv max t before after h e i n a = record {
  all_inflight = i ∙ sym (length-insert before h after) ∙ sym (ap length e);
  all_counted =
      n ∙ sym (tally-append (in_counter max) before h after) ∙ sym (ap (tally (in_counter max)) e);
  few_admitted = λ p.
      omega (arith, a p, ap (tally (admitted max)) e, tally-append (admitted max) before h after);
}

count-Inv :
    (max : ℕ) (s : Server) (before after : List Handler) (h : Handler)
    → s.handlers ≡ before ++ h ∷ after
    → h.phase ≡ entered
    → Inv max s
    → Inv max (record (count max s h).0 { handlers = before ++ (count max s h).1 ∷ after })
unfolding count
count-Inv max s before after h e p v =
    let i = inflight_split max s before after h e v in
    let n = nb_conn_split max s before after h e v in
    let a = admitted_split max s before after h e v in
    back-Inv max _ before after (count max s h).1 refl (ground arith) (ground (arith, n))
      (λ pos. ground (arith, n, a pos, tally-le max (before ++ after) pos))

check-Inv :
    (max : ℕ) (s : Server) (before after : List Handler) (h : Handler) (total : ℕ)
    → s.handlers ≡ before ++ h ∷ after
    → h.phase ≡ counted total
    → Inv max s
    → Inv max (record s { handlers = before ++ check max total h ∷ after })
unfolding check
check-Inv max s before after h total e p v =
    let i = inflight_split max s before after h e v in
    let n = nb_conn_split max s before after h e v in
    let a = admitted_split max s before after h e v in
    back-Inv max _ before after (check max total h) refl i (ground (arith, n))
      (λ pos. ground (arith, a pos))

leave-Inv :
    (max : ℕ) (s : Server) (before after : List Handler) (h : Handler)
    → s.handlers ≡ before ++ h ∷ after
    → (h.phase ≡ refused) ⊎ (h.phase ≡ proxying)
    → Inv max s
    → Inv max (record (leave max s) { handlers = before ++ after })
unfolding leave
leave-Inv max s before after h e p v =
    let i = inflight_split max s before after h e v in
    let n = nb_conn_split max s before after h e v in
    let a = admitted_split max s before after h e v in
    record {
      all_inflight = omega arith;
      all_counted = ground (arith, n);
      few_admitted = λ pos. ground (arith, a pos);
    }

Step-Inv : {max : ℕ} {s t : Server} → Step max s t → Inv max s → Inv max t
unfolding enter
Step-Inv (arrive s) v = record {
  all_inflight = omega (arith, v.all_inflight);
  all_counted = omega (arith, v.all_counted);
  few_admitted = λ pos. omega (arith, v.few_admitted pos);
}
Step-Inv {max} (counts s before after h e p) v = count-Inv max s before after h e p v
Step-Inv {max} (checks s before after h total e p) v = check-Inv max s before after h total e p v
Step-Inv {max} (returns s before after h e p) v = leave-Inv max s before after h e p v

pub Reach-Inv : {max : ℕ} {s : Server} → Reach max s → Inv max s
Reach-Inv here = record { all_inflight = refl; all_counted = refl; few_admitted = λ _. omega arith }
Reach-Inv (next r st) = Step-Inv st (Reach-Inv r)

-- Whatever the order of the atomic operations of the handlers: where a maximum is set, no more
-- connections than that run at once, and `nbConn` is the number of handlers that have counted
-- themselves and not returned; `inflight` is the number of all that have not returned.
pub Reach-limit :
    {max : ℕ} {s : Server}
    → Reach max s
    → 0 < max
    → (tally runs s.handlers ≤ max)
      × (s.nb_conn ≡ tally (in_counter max) s.handlers)
      × (s.inflight ≡ length s.handlers)
Reach-limit {max} {s} r p =
    let v = Reach-Inv r in
    (omega (arith, v.few_admitted p, runs-le max s.handlers), v.all_counted, v.all_inflight)

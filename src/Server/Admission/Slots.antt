-- ===== src/Server/Admission/Slots.antt =====
-- What the counters of `handleConnection` promise, less the order and the identity of the handlers.
use mcptp.Base.{
  ℕ, ◌+◌, ◌-◌, ◌≤◌, ◌<◌, ◌≡◌, ◌⊎◌, inl, inr, refl, ap, subst, List, [], ◌∷◌, ◌++◌, arith, ltb, leb,
  if◌then◌else◌, Bool-cases,
}
use mcptp.Server.Admission.{
  Phase, entered, counted, refused, proxying, Handler, Server, enter, count, check, Step, arrive,
  counts, checks, returns, Reach,
}
use mcptp.Server.Admission.Limit.{tally, tally-append, runs, in_counter, Reach-Inv}

-- Requests that are not decided on, that are turned away and not yet gone, that are let in and do
-- not yet run, and that run.
pub record Slots : Type 0 where
  pub undecided : ℕ
  pub turned_away : ℕ
  pub granted : ℕ
  pub running : ℕ

-- A request that comes, and the decision on it: it gets one of the `max` places if fewer than that
-- are taken, by those turned away as well until they are gone.
pub data Turn (max : ℕ) : Slots → Slots → Type 0 where
  comes : (a : Slots) → Turn max a (record a { undecided = a.undecided + 1 })
  grants :
      (a : Slots)
      → 0 < a.undecided
      → a.turned_away + a.granted + a.running < max
      → Turn max a (record a { undecided = a.undecided - 1; granted = a.granted + 1 })
  turns_away :
      (a : Slots)
      → 0 < a.undecided
      → max ≤ a.turned_away + a.granted + a.running
      → Turn max a (record a { undecided = a.undecided - 1; turned_away = a.turned_away + 1 })
  goes : (a : Slots) → 0 < a.turned_away → Turn max a (record a { turned_away = a.turned_away - 1 })
  runs_now :
      (a : Slots)
      → 0 < a.granted
      → Turn max a (record a { granted = a.granted - 1; running = a.running + 1 })
  ends : (a : Slots) → 0 < a.running → Turn max a (record a { running = a.running - 1 })

abbrev pub is_undecided : Phase → ℕ
is_undecided entered = 1
is_undecided _ = 0

-- Its number decides on a handler, before it reads it.
abbrev pub is_turned_away : ℕ → Phase → ℕ
is_turned_away max refused = 1
is_turned_away max (counted n) = if leb n max then 0 else 1
is_turned_away max _ = 0

abbrev pub is_granted : ℕ → Phase → ℕ
is_granted max (counted n) = if leb n max then 1 else 0
is_granted max _ = 0

abbrev pub view : ℕ → List Handler → Slots
view max hs = record {
  undecided = tally is_undecided hs;
  turned_away = tally (is_turned_away max) hs;
  granted = tally (is_granted max) hs;
  running = tally runs hs;
}

pub slots-eq :
    {a b c d a' b' c' d' : ℕ}
    → a ≡ a'
    → b ≡ b'
    → c ≡ c'
    → d ≡ d'
    → ◌≡◌ {A = Slots}
        (record { undecided = a; turned_away = b; granted = c; running = d })
        (record { undecided = a'; turned_away = b'; granted = c'; running = d' })
slots-eq e f g h = rw (e, f, g, h) refl

-- One handler more, in that phase.
abbrev pub plus : ℕ → Phase → Slots → Slots
plus max p a = record {
  undecided = is_undecided p + a.undecided;
  turned_away = is_turned_away max p + a.turned_away;
  granted = is_granted max p + a.granted;
  running = runs p + a.running;
}

pub view-plus :
    (max : ℕ) (before : List Handler) (h : Handler) (after : List Handler)
    → view max (before ++ h ∷ after) ≡ plus max h.phase (view max (before ++ after))
view-plus max before h after =
    slots-eq (tally-append is_undecided before h after)
      (tally-append (is_turned_away max) before h after)
      (tally-append (is_granted max) before h after) (tally-append runs before h after)

-- With a maximum, `nbConn` is the number of those decided on.
in_counter-sum :
    (max : ℕ) (hs : List Handler)
    → 0 < max
    → tally (in_counter max) hs
      ≡ (view max hs).turned_away + (view max hs).granted + (view max hs).running
in_counter-sum max [] l = omega arith
in_counter-sum max (h ∷ hs) l = ground (arith, in_counter-sum max hs l)

-- A turn, or none that is seen.
abbrev pub Seen : ℕ → Slots → Slots → Type 0
Seen max a b = Turn max a b ⊎ (a ≡ b)

turn_to : {max : ℕ} {a b c : Slots} → Turn max a b → b ≡ c → Seen max a c
turn_to {max} {a} t e = inl (subst (Turn max a) e t)

entered-Seen :
    (max n : ℕ) (a : Slots)
    → n ≡ a.turned_away + a.granted + a.running
    → Seen max (plus max entered a) (plus max (counted (n + 1)) a)
entered-Seen max n a e = elim (Bool-cases (leb (n + 1) max)) [
  | inl h ↦
      turn_to (grants (plus max entered a) (omega arith) (ground arith))
        (slots-eq (omega arith) (ground arith) (ground arith) (omega arith))
  | inr h ↦
      turn_to (turns_away (plus max entered a) (omega arith) (ground arith))
        (slots-eq (omega arith) (ground arith) (ground arith) (omega arith))
]

check-Seen :
    (max total : ℕ) (h : Handler) (a : Slots)
    → Seen max (plus max (counted total) a) (plus max (check max total h).phase a)
unfolding check
check-Seen max total h a = elim (Bool-cases (ltb max total)) [
  | inl k ↦ inr (slots-eq (ground arith) (ground arith) (ground arith) (ground arith))
  | inr k ↦
      turn_to (runs_now (plus max (counted total) a) (ground arith))
        (slots-eq (ground arith) (ground arith) (ground arith) (ground arith))
]

return-Seen :
    (max : ℕ) (p : Phase) (a : Slots) → (p ≡ refused) ⊎ (p ≡ proxying) → Seen max (plus max p a) a
return-Seen max p a (inl e) = rw e (
    turn_to (goes (plus max refused a) (omega arith))
      (slots-eq (omega arith) (omega arith) (omega arith) (omega arith)))
return-Seen max p a (inr e) = rw e (
    turn_to (ends (plus max proxying a) (omega arith))
      (slots-eq (omega arith) (omega arith) (omega arith) (omega arith)))

pub count_phase :
    (max : ℕ) (s : Server) (h : Handler)
    → 0 < max
    → (count max s h).1.phase ≡ counted (s.nb_conn + 1)
unfolding count
count_phase max s h l = ground arith

-- The others, when the counter is read.
pub counted_others :
    (max : ℕ) (s : Server) (before after : List Handler) (h : Handler)
    → Reach max s
    → 0 < max
    → s.handlers ≡ before ++ h ∷ after
    → h.phase ≡ entered
    → (let a = view max (before ++ after) in s.nb_conn ≡ a.turned_away + a.granted + a.running)
counted_others max s before after h r l e p = omega (
  arith,
  (Reach-Inv r).all_counted,
  ap (tally (in_counter max)) e,
  tally-append (in_counter max) before h after,
  ap (in_counter max) p,
  in_counter-sum max (before ++ after) l,
)

-- With a maximum, each atomic operation of a handler, from any state that they reach in any order,
-- is one turn of the places, or is not seen.
pub Step-Turn :
    {max : ℕ} {s t : Server}
    → Reach max s
    → 0 < max
    → Step max s t
    → Seen max (view max s.handlers) (view max t.handlers)
unfolding enter check
Step-Turn r l (arrive s) =
    turn_to (comes _) (slots-eq (omega arith) (omega arith) (omega arith) (omega arith))
Step-Turn {max} r l (counts s before after h e p) =
    rw
      (
        ap (view max) e,
        view-plus max before h after,
        view-plus max before (count max s h).1 after,
        count_phase max s h l,
        p,
      )
      (entered-Seen max s.nb_conn _ (counted_others max s before after h r l e p))
Step-Turn {max} r l (checks s before after h total e p) =
    rw
      (
        ap (view max) e,
        view-plus max before h after,
        view-plus max before (check max total h) after,
        p,
      )
      (check-Seen max total h _)
Step-Turn {max} r l (returns s before after h e p) =
    rw (ap (view max) e, view-plus max before h after) (return-Seen max h.phase _ p)

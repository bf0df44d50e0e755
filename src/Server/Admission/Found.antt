-- ===== src/Server/Admission/Found.antt =====
-- A handler in a given phase, and what it is in the view of the handlers.
use mcptp.Base.{
  ℕ, ◌+◌, ◌-◌, ◌≤◌, ◌<◌, ◌≡◌, ◌⊎◌, inl, inr, refl, ap, ◌∙◌, List, [], ◌∷◌, ◌++◌, arith, ltb,
  Bool-cases, ltb→lt,
}
use mcptp.Server.Admission.{Phase, entered, counted, refused, proxying, Handler, Server, check}
use mcptp.Server.Admission.Limit.{tally, runs}
use mcptp.Server.Admission.Slots.{
  Slots, is_undecided, is_turned_away, is_granted, view, plus, view-plus, slots-eq,
}

-- A handler that counts in a sum.
abbrev pub Found : (Phase → ℕ) → List Handler → Type 0
Found f hs =
    (before : List Handler) × (h : Handler) × (after : List Handler) × (hs ≡ before ++ h ∷ after)
    × (0 < f h.phase)

pub find-Found : (f : Phase → ℕ) (hs : List Handler) → 0 < tally f hs → Found f hs
find-Found f [] l = absurd (omega (arith, l))
find-Found f (h ∷ hs) l = elim (Bool-cases (ltb 0 (f h.phase))) [
  | inl k ↦ ([], h, hs, refl, ltb→lt 0 (f h.phase) k)
  | inr k ↦
      let (before, g, after, e, p) = find-Found f hs (ground (arith, l)) in
      (h ∷ before, g, after, ap (λ x. h ∷ x) e, p)
]

pub undecided_phase : (p : Phase) → 0 < is_undecided p → p ≡ entered
undecided_phase p l = ground arith

pub running_phase : (p : Phase) → 0 < runs p → p ≡ proxying
running_phase p l = ground arith

pub granted_phase :
    (max : ℕ) (p : Phase) → 0 < is_granted max p → (n : ℕ) × (p ≡ counted n) × (n ≤ max)
granted_phase max (counted n) l = (n, refl, ground arith)
granted_phase max entered l = absurd (ground arith)
granted_phase max refused l = absurd (ground arith)
granted_phase max proxying l = absurd (ground arith)

pub turned_away_phase :
    (max : ℕ) (p : Phase)
    → 0 < is_turned_away max p
    → (p ≡ refused) ⊎ ((n : ℕ) × (p ≡ counted n) × (max < n))
turned_away_phase max (counted n) l = inr (n, refl, ground arith)
turned_away_phase max entered l = absurd (ground arith)
turned_away_phase max refused l = inl refl
turned_away_phase max proxying l = absurd (ground arith)

-- The number of places that are taken.
abbrev pub taken : Slots → ℕ
taken a = a.turned_away + a.granted + a.running

-- The view when one handler is taken out.
pub split_view :
    (max : ℕ) (s : Server) (before : List Handler) (h : Handler) (after : List Handler) {p : Phase}
    → s.handlers ≡ before ++ h ∷ after
    → h.phase ≡ p
    → view max s.handlers ≡ plus max p (view max (before ++ after))
split_view max s before h after e p =
    ap (view max) e
    ∙ view-plus max before h after
    ∙ ap (λ q. plus max q (view max (before ++ after))) p

pub granted_view :
    (max n : ℕ) (a : Slots)
    → n ≡ taken a
    → taken (plus max entered a) < max
    → (let v = plus max entered a in
        plus max (counted (n + 1)) a
        ≡ record v { undecided = v.undecided - 1; granted = v.granted + 1 })
granted_view max n a e l = slots-eq (omega arith) (ground arith) (ground arith) (omega arith)

pub refused_view :
    (max n : ℕ) (a : Slots)
    → n ≡ taken a
    → max ≤ taken (plus max entered a)
    → (let v = plus max entered a in
        plus max (counted (n + 1)) a
        ≡ record v { undecided = v.undecided - 1; turned_away = v.turned_away + 1 })
refused_view max n a e l = slots-eq (omega arith) (ground arith) (ground arith) (omega arith)

pub check_view :
    (max n : ℕ) (h : Handler) (a : Slots)
    → n ≤ max
    → (let v = plus max (counted n) a in
        plus max (check max n h).phase a
        ≡ record v { granted = v.granted - 1; running = v.running + 1 })
unfolding check
check_view max n h a l = slots-eq (ground arith) (ground arith) (ground arith) (ground arith)

pub away_view :
    (max : ℕ) (a : Slots)
    → (let v = plus max refused a in a ≡ record v { turned_away = v.turned_away - 1 })
away_view max a = slots-eq (omega arith) (omega arith) (omega arith) (omega arith)

pub counted_view : (max n : ℕ) (a : Slots) → max < n → plus max (counted n) a ≡ plus max refused a
counted_view max n a l = slots-eq (omega arith) (ground arith) (ground arith) (omega arith)

pub check-refused : (max n : ℕ) (h : Handler) → max < n → (check max n h).phase ≡ refused
unfolding check
check-refused max n h l = ground arith

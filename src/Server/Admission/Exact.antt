-- ===== src/Server/Admission/Exact.antt =====
-- The machine that counts places does no more than the handlers can.
use mcptp.Base.{
  ℕ, ◌+◌, ◌-◌, ◌≤◌, ◌<◌, ◌≡◌, ◌⊎◌, inl, inr, refl, sym, ap, subst, ◌∙◌, List, ◌∷◌, ◌++◌, arith,
}
use mcptp.Server.Admission.{
  Phase, entered, counted, refused, proxying, Handler, Server, enter, count, check, Step, arrive,
  counts, checks, returns, Reach,
}
use mcptp.Server.Admission.Found.{
  find-Found, undecided_phase, running_phase, granted_phase, turned_away_phase, taken, split_view,
  granted_view, refused_view, check_view, away_view, counted_view, check-refused,
}
use mcptp.Server.Admission.Limit.{runs}
use mcptp.Server.Admission.Slots.{
  Slots, Turn, comes, grants, turns_away, goes, runs_now, ends, is_undecided, is_turned_away,
  is_granted, Seen, view, plus, view-plus, slots-eq, count_phase, counted_others, Step-Turn,
}

-- Some steps of the handlers.
pub data Steps (max : ℕ) : Server → Server → Type 0 where
  stop : (s : Server) → Steps max s s
  more : {s t u : Server} → Step max s t → Steps max t u → Steps max s u

-- Where the handlers can get to.
abbrev pub Reaches : ℕ → Server → Slots → Type 0
Reaches max s b = (t : Server) × Steps max s t × (view max t.handlers ≡ b)

one :
    {max : ℕ} {s t : Server} {b : Slots} → Step max s t → view max t.handlers ≡ b → Reaches max s b
one st e = (_, more st (stop _), e)

-- The decision on a request that has come.
counts-Reaches :
    {max : ℕ} {s : Server} (f : Slots → Slots)
    → Reach max s
    → 0 < max
    → 0 < (view max s.handlers).undecided
    → ((n : ℕ) (a : Slots)
        → n ≡ taken a
        → view max s.handlers ≡ plus max entered a
        → plus max (counted (n + 1)) a ≡ f (plus max entered a))
    → Reaches max s (f (view max s.handlers))
counts-Reaches {max} {s} f r l u k =
    let (before, h, after, e, q) = find-Found is_undecided s.handlers u in
    let p = undecided_phase h.phase q in
    let a = view max (before ++ after) in
    let v = split_view max s before h after e p in
    one (counts s before after h e p) (
      view-plus max before (count max s h).1 after
      ∙ ap (λ x. plus max x a) (count_phase max s h l)
      ∙ k s.nb_conn a (counted_others max s before after h r l e p) v
      ∙ sym (ap f v))

comes-Reaches :
    {max : ℕ} (s : Server)
    → (let v = view max s.handlers in Reaches max s (record v { undecided = v.undecided + 1 }))
unfolding enter
comes-Reaches s = one (arrive s) (slots-eq (omega arith) (omega arith) (omega arith) (omega arith))

grants-Reaches :
    {max : ℕ} {s : Server}
    → Reach max s
    → 0 < max
    → (let v = view max s.handlers in
        0 < v.undecided
        → taken v < max
        → Reaches max s (record v { undecided = v.undecided - 1; granted = v.granted + 1 }))
grants-Reaches {max} r l u t =
    counts-Reaches (λ v. record v { undecided = v.undecided - 1; granted = v.granted + 1 }) r l u
      (λ n a e v. granted_view max n a e (omega (arith, t, ap taken v)))

turns_away-Reaches :
    {max : ℕ} {s : Server}
    → Reach max s
    → 0 < max
    → (let v = view max s.handlers in
        0 < v.undecided
        → max ≤ taken v
        → Reaches max s (record v { undecided = v.undecided - 1; turned_away = v.turned_away + 1 }))
turns_away-Reaches {max} r l u t =
    counts-Reaches (λ v. record v { undecided = v.undecided - 1; turned_away = v.turned_away + 1 })
      r l u (λ n a e v. refused_view max n a e (omega (arith, t, ap taken v)))

runs_now-Reaches :
    {max : ℕ} (s : Server)
    → (let v = view max s.handlers in
        0 < v.granted
        → Reaches max s (record v { granted = v.granted - 1; running = v.running + 1 }))
runs_now-Reaches {max} s u =
    let (before, h, after, e, q) = find-Found (is_granted max) s.handlers u in
    let (n, p, le) = granted_phase max h.phase q in
    let a = view max (before ++ after) in
    one (checks s before after h n e p) (
      view-plus max before (check max n h) after
      ∙ check_view max n h a le
      ∙ sym (
          ap (λ (v : Slots). record v { granted = v.granted - 1; running = v.running + 1 })
            (split_view max s before h after e p)))

-- A handler that returns leaves the others in the view.
returns-Reaches :
    {max : ℕ} (s : Server) (before : List Handler) (h : Handler) (after : List Handler) (p : Phase)
    (f : Slots → Slots)
    → s.handlers ≡ before ++ h ∷ after
    → h.phase ≡ p
    → (p ≡ refused) ⊎ (p ≡ proxying)
    → (let a = view max (before ++ after) in a ≡ f (plus max p a))
    → Reaches max s (f (view max s.handlers))
returns-Reaches {max} s before h after p f e q o k =
    one (returns s before after h e (subst (λ x. (x ≡ refused) ⊎ (x ≡ proxying)) (sym q) o))
      (k ∙ sym (ap f (split_view max s before h after e q)))

ends-Reaches :
    {max : ℕ} (s : Server)
    → (let v = view max s.handlers in
        0 < v.running → Reaches max s (record v { running = v.running - 1 }))
ends-Reaches {max} s u =
    let (before, h, after, e, q) = find-Found runs s.handlers u in
    returns-Reaches s before h after proxying (λ v. record v { running = v.running - 1 }) e
      (running_phase h.phase q) (inr refl)
      (slots-eq (omega arith) (omega arith) (omega arith) (omega arith))

-- One that is turned away reads its number first, if it has not yet.
goes-Reaches :
    {max : ℕ} (s : Server)
    → (let v = view max s.handlers in
        0 < v.turned_away → Reaches max s (record v { turned_away = v.turned_away - 1 }))
goes-Reaches {max} s u =
    let (before, h, after, e, q) = find-Found (is_turned_away max) s.handlers u in
    let f : Slots → Slots = λ v. record v { turned_away = v.turned_away - 1 } in
    elim (turned_away_phase max h.phase q) [
      | inl p ↦ returns-Reaches s before h after refused f e p (inl refl) (away_view max _)
      | inr (n, p, gt) ↦
          let t = record s { handlers = before ++ check max n h ∷ after } in
          let b = check-refused max n h gt in
          let (t', run, w) =
            returns-Reaches t before (check max n h) after refused f refl b (inl refl)
              (away_view max (view max (before ++ after))) in
          (
            t',
            more (checks s before after h n e p) run,
            w
                ∙ ap f (
                    split_view max t before (check max n h) after refl b
                    ∙ sym (counted_view max n (view max (before ++ after)) gt)
                    ∙ sym (split_view max s before h after e p)),
          )
    ]

Turn-Reaches :
    {max : ℕ} {s : Server} {a b : Slots}
    → Reach max s
    → 0 < max
    → view max s.handlers ≡ a
    → Turn max a b
    → Reaches max s b
Turn-Reaches {max} {s} r l e (comes a) =
    subst (λ v. Reaches max s (record v { undecided = v.undecided + 1 })) e (comes-Reaches s)
Turn-Reaches {max} {s} r l e (grants a u t) =
    subst (λ v. Reaches max s (record v { undecided = v.undecided - 1; granted = v.granted + 1 })) e
      (grants-Reaches r l (omega (arith, u, ap (λ v. v.undecided) e))
        (omega (arith, t, ap taken e)))
Turn-Reaches {max} {s} r l e (turns_away a u t) =
    subst
      (λ v.
        Reaches max s (record v { undecided = v.undecided - 1; turned_away = v.turned_away + 1 }))
      e
      (turns_away-Reaches r l (omega (arith, u, ap (λ v. v.undecided) e))
        (omega (arith, t, ap taken e)))
Turn-Reaches {max} {s} r l e (goes a u) =
    subst (λ v. Reaches max s (record v { turned_away = v.turned_away - 1 })) e
      (goes-Reaches s (omega (arith, u, ap (λ v. v.turned_away) e)))
Turn-Reaches {max} {s} r l e (runs_now a u) =
    subst (λ v. Reaches max s (record v { granted = v.granted - 1; running = v.running + 1 })) e
      (runs_now-Reaches s (omega (arith, u, ap (λ v. v.granted) e)))
Turn-Reaches {max} {s} r l e (ends a u) =
    subst (λ v. Reaches max s (record v { running = v.running - 1 })) e
      (ends-Reaches s (omega (arith, u, ap (λ v. v.running) e)))

-- With a maximum, from any state that the handlers reach in any order, they do just what the machine
-- does that only counts places: each atomic operation is one of its turns or is not seen, and each
-- of its turns is made by some steps of the handlers. So a request gets a place exactly if fewer
-- than the maximum are taken when it is counted, by those turned away as well until they are gone.
pub Turn-exact :
    {max : ℕ} {s : Server}
    → Reach max s
    → 0 < max
    → ((t : Server) → Step max s t → Seen max (view max s.handlers) (view max t.handlers))
      × ((b : Slots) → Turn max (view max s.handlers) b → Reaches max s b)
Turn-exact r l = (λ t st. Step-Turn r l st, λ b t. Turn-Reaches r l refl t)

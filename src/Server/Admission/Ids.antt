-- ===== src/Server/Admission/Ids.antt =====
-- The numbers of the connections.
use mathlib.Core.List.{Memᴰ}
use mcptp.Base.{ℕ, ◌-◌, ◌≤◌, ◌≡◌, ◌≢◌, refl, subst, ap, List, [], ◌∷◌, ◌++◌, arith}
use mcptp.Server.Admission.{
  Server, Handler, enter, count, check, leave, Step, arrive, counts, checks, returns, Reach, here,
  next,
}

pub count_id : (max : ℕ) (s : Server) (h : Handler) → (count max s h).1.id ≡ h.id
unfolding count
count_id max s h = ground arith

pub check_id : (max total : ℕ) (h : Handler) → (check max total h).id ≡ h.id
unfolding check
check_id max total h = ground arith

pub count_conn_ids : (max : ℕ) (s : Server) (h : Handler) → (count max s h).0.conn_ids ≡ s.conn_ids
unfolding count
count_conn_ids max s h = ground arith

-- The numbers are from 1 to n, and each is less than those before it.
abbrev Descends : ℕ → List Handler → Type 0
Descends n [] = Unit
Descends n (h ∷ hs) = (1 ≤ h.id) × (h.id ≤ n) × Descends (h.id - 1) hs

Descends-more : (n m : ℕ) (hs : List Handler) → n ≤ m → Descends n hs → Descends m hs
Descends-more n m [] l d = tt
Descends-more n m (h ∷ hs) l (p, q, d) = (p, omega (arith, l, q), d)

-- A handler keeps its number.
replace-Descends :
    (n : ℕ) (before : List Handler) (h k : Handler) (after : List Handler)
    → k.id ≡ h.id
    → Descends n (before ++ h ∷ after)
    → Descends n (before ++ k ∷ after)
replace-Descends n [] h k after e (p, q, d) = rw e (p, q, d)
replace-Descends n (b ∷ before) h k after e (p, q, d) =
    (p, q, replace-Descends (b.id - 1) before h k after e d)

remove-Descends :
    (n : ℕ) (before : List Handler) (h : Handler) (after : List Handler)
    → Descends n (before ++ h ∷ after)
    → Descends n (before ++ after)
remove-Descends n [] h after (p, q, d) = Descends-more _ _ after (omega (arith, q)) d
remove-Descends n (b ∷ before) h after (p, q, d) =
    (p, q, remove-Descends (b.id - 1) before h after d)

Step-Descends :
    {max : ℕ} {s t : Server}
    → Step max s t
    → Descends s.conn_ids s.handlers
    → Descends t.conn_ids t.handlers
unfolding enter leave
Step-Descends (arrive s) d =
    (omega arith, omega arith, Descends-more _ _ s.handlers (omega arith) d)
Step-Descends {max} (counts s before after h p q) d = rw (count_conn_ids max s h) (
    replace-Descends s.conn_ids before h (count max s h).1 after (count_id max s h)
      (subst (Descends s.conn_ids) p d))
Step-Descends {max} (checks s before after h total p q) d =
    replace-Descends s.conn_ids before h (check max total h) after (check_id max total h)
      (subst (Descends s.conn_ids) p d)
Step-Descends (returns s before after h p q) d =
    remove-Descends s.conn_ids before h after (subst (Descends s.conn_ids) p d)

Reach-Descends : {max : ℕ} {s : Server} → Reach max s → Descends s.conn_ids s.handlers
Reach-Descends here = tt
Reach-Descends (next r st) = Step-Descends st (Reach-Descends r)

Descends-within :
    {k : Handler} (n : ℕ) {hs : List Handler} → Memᴰ k hs → Descends n hs → (1 ≤ k.id) × (k.id ≤ n)
Descends-within n (Memᴰ.head e) (p, q, d) =
    (omega (arith, p, ap (λ h. h.id) e), omega (arith, q, ap (λ h. h.id) e))
Descends-within n {hs = h ∷ hs} (Memᴰ.tail m) (p, q, d) =
    let (l, u) = Descends-within (h.id - 1) m d in (l, omega (arith, q, u))

Memᴰ-middle : {h : Handler} (before after : List Handler) → Memᴰ h (before ++ h ∷ after)
Memᴰ-middle [] after = Memᴰ.head refl
Memᴰ-middle (b ∷ before) after = Memᴰ.tail (Memᴰ-middle before after)

Descends-other :
    (n : ℕ) (before : List Handler) (h k : Handler) (after : List Handler)
    → Descends n (before ++ h ∷ after)
    → Memᴰ k (before ++ after)
    → k.id ≢ h.id
Descends-other n [] h k after (p, q, d) m =
    let (l, u) = Descends-within _ m d in λ e. omega (arith, p, u, e)
Descends-other n (b ∷ before) h k after (p, q, d) (Memᴰ.head i) =
    let (l, u) = Descends-within _ (Memᴰ-middle before after) d in
    λ e. omega (arith, p, u, e, ap (λ x. x.id) i)
Descends-other n (b ∷ before) h k after (p, q, d) (Memᴰ.tail m) =
    Descends-other (b.id - 1) before h k after d m

-- Whatever the order of their steps: the number of each handler is one of those that `connIDs` has
-- given, and no other handler that has not returned has it.
pub Reach-ids :
    {max : ℕ} {s : Server} (before : List Handler) (h : Handler) (after : List Handler)
    → Reach max s
    → s.handlers ≡ before ++ h ∷ after
    → (1 ≤ h.id) × (h.id ≤ s.conn_ids) × ((k : Handler) → Memᴰ k (before ++ after) → k.id ≢ h.id)
Reach-ids {s = s} before h after r e =
    let d = subst (Descends s.conn_ids) e (Reach-Descends r) in
    let (l, u) = Descends-within _ (Memᴰ-middle before after) d in
    (l, u, λ k m. Descends-other s.conn_ids before h k after d m)

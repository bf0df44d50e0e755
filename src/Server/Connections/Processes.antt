-- ===== src/Server/Connections/Processes.antt =====
-- How many processes the server runs at once.
use mathlib.Core.List.{Memᴰ}
use mcptp.Base.{
  ℕ, ◌≤◌, ◌<◌, ◌≡◌, ◌≢◌, inl, inr, sym, ap, subst, ◌∙◌, Bool, true, some, List, [], ◌∷◌, ◌++◌, All,
  length, arith,
}
use mcptp.Server.Admission.{Handler}
use mcptp.Server.Admission.Limit.{tally, tally-append, runs, Reach-limit}
use mcptp.Server.Connections.{Whole, Connections, Reach}
use mcptp.Server.Connections.Shutdown.{Held, Reach-service, Reach-AllGood}
use mcptp.Server.Pipes
use mcptp.Server.Pipes.{Connection}
use mcptp.Server.Pipes.Notice.{Reach-left, is_over_cases}
use mcptp.Server.Service.Late.{Reach-server}

-- The process of the connection with that number has not ended, and its `proxy` has not panicked.
abbrev pub Alive : Connections → ℕ → Type 0
Alive connections id =
    (c : Connection) × (connections id ≡ some c) × (c.alive ≡ true) × (c.stage ≢ Pipes.panicked)

-- No number stands twice.
abbrev pub Distinct : List ℕ → Type 0
Distinct [] = Unit
Distinct (n ∷ ns) = All (λ m. m ≢ n) ns × Distinct ns

split :
    {h : Handler} {hs : List Handler}
    → Memᴰ h hs
    → (before : List Handler) × (after : List Handler) × (hs ≡ before ++ h ∷ after)
split {hs = []} m = elim m [ ]
split {hs = k ∷ hs} (Memᴰ.head e) = ([], hs, ap (λ x. x ∷ hs) (sym e))
split {hs = k ∷ hs} (Memᴰ.tail m) =
    let (before, after, e) = split m in (k ∷ before, after, ap (λ x. k ∷ x) e)

-- A handler with another number stays when one is taken out.
others :
    {k : Handler} (before : List Handler) (h : Handler) (after : List Handler)
    → Memᴰ k (before ++ h ∷ after)
    → k.id ≢ h.id
    → Memᴰ k (before ++ after)
others [] h after (Memᴰ.head e) n = absurd (n (ap (λ x. x.id) e))
others [] h after (Memᴰ.tail m) n = m
others (b ∷ before) h after (Memᴰ.head e) n = Memᴰ.head e
others (b ∷ before) h after (Memᴰ.tail m) n = Memᴰ.tail (others before h after m n)

others-Held :
    (id : ℕ) (before : List Handler) (h : Handler) (after : List Handler)
    → h.id ≡ id
    → (ids : List ℕ) → All (λ m. m ≢ id) ids
    → All (λ n. Held n (before ++ h ∷ after)) ids
    → All (λ n. Held n (before ++ after)) ids
others-Held id before h after i [] d a = tt
others-Held id before h after i (n ∷ ids) (d, ds) ((k, m, j, p), a) = (
  (k, others before h after m (λ e. d (sym j ∙ e ∙ i)), j, p),
  others-Held id before h after i ids ds a,
)

Held-le :
    (ids : List ℕ) (hs : List Handler)
    → Distinct ids
    → All (λ n. Held n hs) ids
    → length ids ≤ tally runs hs
Held-le [] hs d a = omega arith
Held-le (id ∷ ids) hs (d, ds) ((h, m, i, p), a) =
    let (before, after, e) = split m in
    let rest = others-Held id before h after i ids d (subst (λ x. All (λ n. Held n x) ids) e a) in
    let less = Held-le ids (before ++ after) ds rest in
    omega (arith, less, ap (tally runs) e, tally-append runs before h after, ap runs p)

Alive-Held :
    {tls : Bool} {max : ℕ} {w : Whole} (ids : List ℕ)
    → Reach tls max w
    → All (Alive w.connections) ids
    → All (λ n. Held n w.service.server.handlers) ids
Alive-Held [] r a = tt
Alive-Held (id ∷ ids) r ((c, e, l, u), a) =
    let (reach, held) = Reach-AllGood r id c e in
    elim held [
      | inl h ↦ (h, Alive-Held ids r a)
      | inr g ↦ elim (is_over_cases c.stage g) [
        | inl k ↦ absurd (let (dead, stopped, finished) = Reach-left reach k in cc)
        | inr k ↦ absurd (u k)
      ]
    ]

-- With a maximum, no more processes than that are alive at once in connections whose workers have
-- started and whose `proxy` has not panicked, whatever the clients, the processes and the signal do
-- and in whatever order the steps come.
pub Alive-le :
    {tls : Bool} {max : ℕ} {w : Whole} (ids : List ℕ)
    → Reach tls max w
    → 0 < max
    → Distinct ids
    → All (Alive w.connections) ids
    → length ids ≤ max
Alive-le ids r l d a = omega (
  arith,
  Held-le ids _ d (Alive-Held ids r a),
  (Reach-limit (Reach-server (Reach-service r)) l).0,
)

-- ===== src/Server/Admission.antt =====
-- server/proxy.go, `handleConnection`, with many connections at once: the atomic counters of the
-- package, and each handler between its atomic operations.
pub mod Exact
pub mod Found
pub mod Ids
pub mod Limit
pub mod Slots
use mcptp.Base.{
  ℕ, ◌+◌, ◌-◌, ◌≡◌, ◌⊎◌, Bool, true, false, Option, none, some, List, [], ◌∷◌, ◌++◌, ltb, leb,
  if◌then◌else◌,
}

-- Where a handler stands. `counted n` has added itself to `nbConn` and got n.
pub data Phase : Type 0 where
  entered : Phase
  counted : ℕ → Phase
  refused : Phase  -- the answer 429 is given
  proxying : Phase  -- from `websocket.Accept` on

pub record Handler : Type 0 where
  pub id : ℕ
  pub phase : Phase

-- `connIDs`, `nbConn`, the count of the `inflight` group, and the handlers that have not returned.
-- The counters do not reach 2 ^ 63 or fall below 0, so they are numbers.
pub record Server : Type 0 where
  pub conn_ids : ℕ
  pub nb_conn : ℕ
  pub inflight : ℕ
  pub handlers : List Handler

abbrev pub start : Server
start = record { conn_ids = 0; nb_conn = 0; inflight = 0; handlers = [] }

-- `inflight.Add(1)` and `connIDs.Add(1)`, on a new request.
unfoldable pub enter : Server → Server
enter s = record {
  conn_ids = s.conn_ids + 1;
  nb_conn = s.nb_conn;
  inflight = s.inflight + 1;
  handlers = record { id = s.conn_ids + 1; phase = entered } ∷ s.handlers;
}

-- `totalConnections := nbConn.Add(1)`, if a maximum is set; else the handler goes on to accept.
unfoldable pub count : ℕ → Server → Handler → Server × Handler
count max s h =
    if ltb 0 max
    then (record s { nb_conn = s.nb_conn + 1 }, record h { phase = counted (s.nb_conn + 1) })
    else (s, record h { phase = proxying })

-- `totalConnections > maxConnections`
unfoldable pub check : ℕ → ℕ → Handler → Handler
check max total h =
    if ltb max total then record h { phase = refused } else record h { phase = proxying }

-- The deferred `nbConn.Add(-1)` and `inflight.Done()`.
unfoldable pub leave : ℕ → Server → Server
leave max s = record s {
  nb_conn = if ltb 0 max then s.nb_conn - 1 else s.nb_conn;
  inflight = s.inflight - 1;
}

-- One atomic operation of some handler, or a new request.
pub data Step (max : ℕ) : Server → Server → Type 0 where
  arrive : (s : Server) → Step max s (enter s)
  counts :
      (s : Server) (before after : List Handler) (h : Handler)
      → s.handlers ≡ before ++ h ∷ after
      → h.phase ≡ entered
      → Step max s (record (count max s h).0 { handlers = before ++ (count max s h).1 ∷ after })
  checks :
      (s : Server) (before after : List Handler) (h : Handler) (total : ℕ)
      → s.handlers ≡ before ++ h ∷ after
      → h.phase ≡ counted total
      → Step max s (record s { handlers = before ++ check max total h ∷ after })
  returns :
      (s : Server) (before after : List Handler) (h : Handler)
      → s.handlers ≡ before ++ h ∷ after
      → (h.phase ≡ refused) ⊎ (h.phase ≡ proxying)
      → Step max s (record (leave max s) { handlers = before ++ after })

pub data Reach (max : ℕ) : Server → Type 0 where
  here : Reach max start
  next : {s t : Server} → Reach max s → Step max s t → Reach max t

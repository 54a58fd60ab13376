-- ===== src/Router.antt =====
-- internal/service/router/router.go and internal/domain/entity/router.go: the order router. Orders are
-- shared by pointer between the caller and the in-flight map, so they stand in a heap. `W` is the
-- world outside, which the exchange and the paper simulator change; `D` is the type of decimals.
pub mod Tracking
pub mod InFlight
pub mod Cleanup
mod Tests
pub mod Submit
pub mod Gated
use kairos_agent.Base.{
  ℕ, ◌+◌, ◌/◌, String, ◌⊎◌, inl, inr, Bool, true, Option, none, some, [], str_eq, append, ◌==◌,
  if◌then◌else◌,
}
use kairos_agent.Base.Int.{ℤ, pos, pos_part, neg_part, sub_ℕ, leb_ℤ}
use kairos_agent.Base.Lists.{length}
use kairos_agent.Base.Dict.{Dict, lookup, insert, erase}
use kairos_agent.Base.Show.{show_ℤ}
use kairos_agent.Entity.Order.{Order}

abbrev pub RoutingMode : Type 0
RoutingMode = String

abbrev pub routing_live : RoutingMode
routing_live = "live"

abbrev pub routing_paper : RoutingMode
routing_paper = "paper"

pub record RouterConfig : Type 0 where
  pub mode : RoutingMode
  pub enable_idempotency : Bool
  pub timeout_seconds : ℤ
  pub max_in_flight_orders : ℤ
  pub enable_status_fallback : Bool

unfoldable pub default_router_config : RouterConfig
default_router_config = record {
  mode = routing_paper;
  enable_idempotency = true;
  timeout_seconds = pos 30;
  max_in_flight_orders = pos 100;
  enable_status_fallback = true;
}

-- `ExchangeConnector` and `PaperSimulator`: other parts of the program, and exchanges behind them.
-- They read the order that they get and do not write to it.
pub record Exchange (W D : Type 0) : Type 0 where
  pub submit : Order D → W → (String ⊎ String) × W
  pub cancel : String → W → Option String × W
  pub query : String → W → (Order D ⊎ String) × W

-- `order` is a pointer.
pub record InFlightOrder : Type 0 where
  pub order : ℕ
  pub submitted_at : ℤ
  pub last_query_at : Option ℤ
  pub query_attempts : ℤ

pub record OrderTimeoutEvent : Type 0 where
  pub order_id : String
  pub timed_out_client_id : String
  pub timeout_at : ℤ

-- `none` is a nil pointer or interface; `publisher` says that there is one.
pub record OrderRouter (W D : Type 0) : Type 0 where
  pub config : RouterConfig
  pub connector : Option (Exchange W D)
  pub simulator : Option (Exchange W D)
  pub publisher : Bool
  pub gate : Option (W → Option String)
  pub in_flight : Dict InFlightOrder
  pub heap : ℕ → Order D

pub data RouterError : Type 0 where
  gate_blocked : String → RouterError
  max_in_flight : ℤ → RouterError
  unknown_mode : RoutingMode → RouterError
  connector_missing : RouterError
  simulator_missing : RouterError
  exchange_error : String → RouterError

-- The result of a call on an interface that may be nil, which panics.
pub data Reply (A : Type 0) : Type 0 where
  replied : A → Reply A
  nil_panic : Reply A

-- How the first critical section of `SubmitOrder` ends.
pub data Admission : Type 0 where
  refused : RouterError → Admission
  duplicate : String → Admission
  admitted : Admission

-- `CreatedAtUTC.Truncate(time.Second).Unix()`
abbrev pub timestamp_bucket : ℤ → ℤ
timestamp_bucket t =
    sub_ℕ (pos_part t / 1_000_000_000) ((neg_part t + 999_999_999) / 1_000_000_000 + 62_135_596_800)

module _ {D : Type 0} where
  -- The input of the hash in `generateClientOrderID`.
  unfoldable pub id_input : Order D → String
  id_input o = append o.strategy_id (
      append ":" (
        append o.symbol (
          append ":" (
            append o.side (
              append ":"
                (append (show_ℤ (timestamp_bucket o.created_at_utc)) (append ":" o.id)))))))

  -- `*p = o`
  abbrev pub write : ℕ → Order D → (ℕ → Order D) → ℕ → Order D
  write p o heap q = if q == p then o else heap q

  abbrev pub or_generated : (String → String) → Order D → Order D
  or_generated digest o =
      if str_eq o.client_order_id "" then record o { client_order_id = digest (id_input o) } else o

module _ {W D : Type 0} where
  unfoldable pub new_order_router :
      Option RouterConfig
      → Option (Exchange W D)
      → Option (Exchange W D)
      → Bool
      → (ℕ → Order D)
      → OrderRouter W D
  new_order_router none connector simulator publisher heap = record {
    config = default_router_config;
    connector = connector;
    simulator = simulator;
    publisher = publisher;
    gate = none;
    in_flight = [];
    heap = heap;
  }
  new_order_router (some config) connector simulator publisher heap = record {
    config = config;
    connector = connector;
    simulator = simulator;
    publisher = publisher;
    gate = none;
    in_flight = [];
    heap = heap;
  }

  unfoldable pub check_entry : OrderRouter W D → W → Option RouterError
  check_entry r w = elim r.gate [
    | none ↦ none
    | some g ↦ elim (g w) [ none ↦ none | some e ↦ some (gate_blocked e) ]
  ]

  unfoldable pub admit_named :
      ℤ → ℕ → String → Option InFlightOrder → OrderRouter W D → Admission × OrderRouter W D
  admit_named now p id (some existing) r = (duplicate (r.heap existing.order).exchange_order_id, r)
  admit_named now p id none r = (
    admitted,
    record r {
      in_flight =
          insert id
            (record { order = p; submitted_at = now; last_query_at = none; query_attempts = pos 0 })
            r.in_flight;
    },
  )

  -- The first critical section of `SubmitOrder`. `digest` is SHA-256, printed in hexadecimal.
  unfoldable pub admit : (String → String) → ℤ → ℕ → OrderRouter W D → Admission × OrderRouter W D
  unfolding admit_named
  admit digest now p r =
      if leb_ℤ r.config.max_in_flight_orders (pos (length r.in_flight))
      then (refused (max_in_flight r.config.max_in_flight_orders), r)
      else let order = or_generated digest (r.heap p) in
        admit_named now p order.client_order_id
          (if r.config.enable_idempotency then lookup order.client_order_id r.in_flight else none)
          (record r { heap = write p order r.heap })

  unfoldable pub submit_live : Order D → OrderRouter W D → W → (String ⊎ RouterError) × W
  submit_live o r w = elim r.connector [
    | none ↦ (inr connector_missing, w)
    | some x ↦
        let (answer, w') = x.submit o w in
        (elim answer [ inl id ↦ inl id | inr e ↦ inr (exchange_error e) ], w')
  ]

  unfoldable pub submit_paper : Order D → OrderRouter W D → W → (String ⊎ RouterError) × W
  submit_paper o r w = elim r.simulator [
    | none ↦ (inr simulator_missing, w)
    | some x ↦
        let (answer, w') = x.submit o w in
        (elim answer [ inl id ↦ inl id | inr e ↦ inr (exchange_error e) ], w')
  ]

  -- `SubmitOrder` between its critical sections.
  unfoldable pub route : ℕ → OrderRouter W D → W → (String ⊎ RouterError) × W
  unfolding submit_live submit_paper
  route p r w =
      if str_eq r.config.mode routing_live
      then submit_live (r.heap p) r w
      else if str_eq r.config.mode routing_paper
      then submit_paper (r.heap p) r w
      else (inr (unknown_mode r.config.mode), w)

  named_exchange : String → Option InFlightOrder → OrderRouter W D → OrderRouter W D
  named_exchange x none r = r
  named_exchange x (some f) r = record r {
    heap = write f.order (record (r.heap f.order) { exchange_order_id = x }) r.heap;
  }

  -- The last critical section of `SubmitOrder`.
  unfoldable pub settle : ℕ → String ⊎ RouterError → OrderRouter W D → OrderRouter W D
  unfolding named_exchange
  settle p (inr e) r = record r { in_flight = erase (r.heap p).client_order_id r.in_flight }
  settle p (inl x) r = named_exchange x (lookup (r.heap p).client_order_id r.in_flight) r

  unfoldable pub after_admission :
      ℕ → Admission × OrderRouter W D → W → (String ⊎ RouterError) × OrderRouter W D × W
  unfolding route settle
  after_admission p (refused e, r) w = (inr e, r, w)
  after_admission p (duplicate x, r) w = (inl x, r, w)
  after_admission p (admitted, r) w =
      let (answer, w') = route p r w in (answer, settle p answer r, w')

  submit_checked :
      (String → String)
      → ℤ
      → ℕ
      → Option RouterError
      → OrderRouter W D
      → W
      → (String ⊎ RouterError) × OrderRouter W D × W
  unfolding after_admission admit
  submit_checked digest now p (some e) r w = (inr e, r, w)
  submit_checked digest now p none r w = after_admission p (admit digest now p r) w

  -- `SubmitOrder`, alone.
  unfoldable pub submit_order :
      (String → String) → ℤ → ℕ → OrderRouter W D → W → (String ⊎ RouterError) × OrderRouter W D × W
  unfolding submit_checked check_entry
  submit_order digest now p r w = submit_checked digest now p (check_entry r w) r w

-- ===== src/Router/Tracking.antt =====
-- The operations of the router on the orders in flight, and its settings.
use kairos_agent.Base.{
  ℕ, String, ◌⊎◌, inl, inr, Bool, Option, none, some, List, [], ◌∷◌, map, str_eq, if◌then◌else◌,
}
use kairos_agent.Base.Int.{ℤ, pos, ◌-ℤ◌, ◌*ℤ◌, ltb_ℤ}
use kairos_agent.Base.Lists.{length}
use kairos_agent.Base.Dict.{Dict, erase}
use kairos_agent.Entity.Order.{Order}
use kairos_agent.Router.{
  RoutingMode, routing_live, routing_paper, Exchange, InFlightOrder, OrderTimeoutEvent, OrderRouter,
  RouterError, unknown_mode, exchange_error, Reply, replied, nil_panic,
}

module _ {D : Type 0} where
  -- The loop over the in-flight cache in `QueryOrderStatus`. (Go visits a map in any order; the
  -- list is one such order.)
  unfoldable pub cached : String → (ℕ → Order D) → Dict InFlightOrder → Option (Order D)
  cached x heap [] = none
  cached x heap ((_, f) ∷ m) =
      let later = cached x heap m in
      if str_eq (heap f.order).exchange_order_id x then some (heap f.order) else later

  abbrev pub timeout_event : ℤ → Order D → OrderTimeoutEvent
  timeout_event now o = record {
    order_id = o.id;
    timed_out_client_id = o.client_order_id;
    timeout_at = now;
  }

module _ {W D : Type 0} where
  -- `CancelOrder`
  unfoldable pub cancel_order : String → OrderRouter W D → W → Reply (Option RouterError × W)
  cancel_order x r w =
      let sent : Exchange W D → Reply (Option RouterError × W) = λ e. replied (
        elim (e.cancel x w).0 [ none ↦ none | some t ↦ some (exchange_error t) ],
        (e.cancel x w).1,
      ) in
      if str_eq r.config.mode routing_live
      then elim r.connector [ none ↦ nil_panic | some e ↦ sent e ]
      else if str_eq r.config.mode routing_paper
      then elim r.simulator [ none ↦ nil_panic | some e ↦ sent e ]
      else replied (some (unknown_mode r.config.mode), w)

  -- The answer of the exchange, and the fallback.
  unfoldable pub or_cached : String → OrderRouter W D → Order D ⊎ String → Order D ⊎ RouterError
  or_cached x r (inl o) = inl o
  or_cached x r (inr e) =
      if r.config.enable_status_fallback
      then elim (cached x r.heap r.in_flight) [ none ↦ inr (exchange_error e) | some o ↦ inl o ]
      else inr (exchange_error e)

  unfoldable pub query_order_status :
      String → OrderRouter W D → W → Reply ((Order D ⊎ RouterError) × W)
  unfolding or_cached
  query_order_status x r w =
      let asked : Exchange W D → Reply ((Order D ⊎ RouterError) × W) =
        λ e. replied (or_cached x r (e.query x w).0, (e.query x w).1) in
      if str_eq r.config.mode routing_live
      then elim r.connector [ none ↦ nil_panic | some e ↦ asked e ]
      else if str_eq r.config.mode routing_paper
      then elim r.simulator [ none ↦ nil_panic | some e ↦ asked e ]
      else replied (inr (unknown_mode r.config.mode), w)

  unfoldable pub confirm_order : String → OrderRouter W D → OrderRouter W D
  confirm_order id r = record r { in_flight = erase id r.in_flight }

  abbrev pub timeout_of : OrderRouter W D → ℤ
  timeout_of r = r.config.timeout_seconds *ℤ pos 1_000_000_000

  abbrev pub get_in_flight_count : OrderRouter W D → ℕ
  get_in_flight_count r = length r.in_flight

  abbrev pub get_mode : OrderRouter W D → RoutingMode
  get_mode r = r.config.mode

  abbrev pub set_mode : RoutingMode → OrderRouter W D → OrderRouter W D
  set_mode mode r = record r { config = record (r.config) { mode = mode } }

  abbrev pub set_trading_gate : Option (W → Option String) → OrderRouter W D → OrderRouter W D
  set_trading_gate g r = record r { gate = g }

abbrev pub is_expired : ℤ → ℤ → InFlightOrder → Bool
is_expired timeout now f = ltb_ℤ timeout (now -ℤ f.submitted_at)

-- What the loop of `CleanupTimedOutOrders` leaves, and what it removes.
unfoldable pub unexpired : ℤ → ℤ → Dict InFlightOrder → Dict InFlightOrder
unexpired timeout now [] = []
unexpired timeout now ((id, f) ∷ m) =
    let rest = unexpired timeout now m in if is_expired timeout now f then rest else (id, f) ∷ rest

unfoldable pub expired : ℤ → ℤ → Dict InFlightOrder → List InFlightOrder
expired timeout now [] = []
expired timeout now ((_, f) ∷ m) =
    let rest = expired timeout now m in if is_expired timeout now f then f ∷ rest else rest

module _ {W D : Type 0} where
  unfoldable pub cleanup_timed_out_orders :
      ℤ → OrderRouter W D → ℕ × List OrderTimeoutEvent × OrderRouter W D
  unfolding unexpired expired
  cleanup_timed_out_orders now r =
      let gone = expired (timeout_of r) now r.in_flight in
      (
        length gone,
        if r.publisher then map (λ f. timeout_event now (r.heap f.order)) gone else [],
        record r { in_flight = unexpired (timeout_of r) now r.in_flight },
      )

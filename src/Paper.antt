-- ===== src/Paper.antt =====
-- internal/service/paper/simulator.go: the paper exchange. Its mutex makes each operation atomic;
-- the goroutine that fills an order is the step `simulate_fill`, which runs at any later time. Orders
-- go in and out as copies, so the simulator's own records are values. `D` is the type of decimals.
mod Tests
pub mod Terminal
pub mod Closing
use kairos_agent.Base.{
  zero, String, Bool, not, ◌&&◌, ◌||◌, Option, none, some, List, [], ◌∷◌, ◌++◌, str_eq, append,
  if◌then◌else◌,
}
use kairos_agent.Base.Int.{ℤ, pos, negsuc}
use kairos_agent.Base.Dict.{Dict, lookup, insert}
use kairos_agent.Entity.Decimal.{DecimalOps, greater_eq}
use kairos_agent.Entity.Order.{
  side_buy, side_sell, OrderStatus, order_submitted, order_filled, order_canceled, order_rejected,
  Order, is_terminal,
}
use kairos_agent.Entity.Position.{position_long, position_short, Position, is_flat}

-- `filling` holds the orders whose goroutine was started.
pub record Simulator (D : Type 0) : Type 0 where
  pub orders : Dict (Order D)
  pub positions : Dict (Position D)
  pub balance : D
  pub last_prices : Dict D
  pub slippage_bps : D
  pub commission_rate : D
  pub filling : List String

pub data CancelError : Type 0 where
  order_not_found : String → CancelError
  order_terminal : OrderStatus → CancelError

module _ {D : Type 0} (d : DecimalOps D) where
  unfoldable pub new_simulator : D → Simulator D
  new_simulator initial = record {
    orders = [];
    positions = [];
    balance = initial;
    last_prices = [];
    slippage_bps = d.of_int (pos 5);
    commission_rate = d.shift (d.of_int (pos 6)) (negsuc 3);
    filling = [];
  }

  -- `nanos` is the printed time in the new id.
  unfoldable pub submit_order : String → ℤ → Order D → Simulator D → String × Simulator D
  submit_order nanos now order s =
      let id = append "paper_" nanos in
      let copy = record order {
        exchange_order_id = id;
        order_status = order_submitted;
        submitted_at_utc = some now;
      } in
      (id, record s { orders = insert id copy s.orders; filling = s.filling ++ id ∷ [] })

  -- The order that is found, in `CancelOrder`.
  cancel_found : String → ℤ → Option (Order D) → Simulator D → Option CancelError × Simulator D
  unfolding is_terminal
  cancel_found id now none s = (some (order_not_found id), s)
  cancel_found id now (some o) s =
      if is_terminal o then (some (order_terminal o.order_status), s) else (
        none,
        record s {
          orders =
              insert id (record o { order_status = order_canceled; updated_at_utc = now }) s.orders;
        },
      )

  unfoldable pub cancel_order : String → ℤ → Simulator D → Option CancelError × Simulator D
  unfolding cancel_found
  cancel_order id now s = cancel_found id now (lookup id s.orders) s

  -- `none` is the error "order not found".
  abbrev pub get_order_status : String → Simulator D → Option (Order D)
  get_order_status id s = lookup id s.orders

  abbrev pub get_position : String → Simulator D → Option (Position D)
  get_position symbol s = lookup symbol s.positions

  unfoldable pub calculate_realized_pnl : Position D → D → D → D
  calculate_realized_pnl p exit quantity =
      if str_eq p.position_side position_long
      then d.mul (d.sub exit p.entry_price) quantity
      else d.mul (d.sub p.entry_price exit) quantity

  unfoldable pub calculate_unrealized_pnl : Position D → D → D
  calculate_unrealized_pnl p current =
      if str_eq p.position_side position_long
      then d.mul (d.sub current p.entry_price) p.position_quantity
      else d.mul (d.sub p.entry_price current) p.position_quantity

  revalued : String → D → ℤ → Option (Position D) → Dict (Position D) → Dict (Position D)
  unfolding calculate_unrealized_pnl
  revalued symbol price now none m = m
  revalued symbol price now (some p) m =
      if not (is_flat d p)
      then insert symbol
          (record p {
            current_price = price;
            unrealized_pnl = calculate_unrealized_pnl (record p { current_price = price }) price;
            position_updated_at_utc = now;
          })
          m
      else m

  unfoldable pub update_market_price : String → D → ℤ → Simulator D → Simulator D
  unfolding revalued
  update_market_price symbol price now s = record s {
    last_prices = insert symbol price s.last_prices;
    positions = revalued symbol price now (lookup symbol s.positions) s.positions;
  }

  -- `Reset` does not stop the goroutines.
  unfoldable pub reset : D → Simulator D → Simulator D
  reset initial s = record s { orders = []; positions = []; balance = initial; last_prices = [] }

  unfoldable pub apply_slippage : Order D → D → Simulator D → D
  apply_slippage order price s =
      let m = d.div s.slippage_bps (d.of_int (pos 10_000)) in
      if str_eq order.side side_buy
      then d.mul price (d.add (d.of_int (pos 1)) m)
      else d.mul price (d.sub (d.of_int (pos 1)) m)

  -- The new position in `updatePosition`; `id` is the text of its id.
  opened : Order D → D → D → String → ℤ → Position D
  opened order price commission id now = record {
    position_id = id;
    position_strategy_id = order.strategy_id;
    position_symbol = order.symbol;
    position_side = if str_eq order.side side_sell then position_short else position_long;
    position_quantity = order.quantity;
    entry_price = price;
    current_price = price;
    unrealized_pnl = d.zero;
    realized_pnl = d.neg commission;
    opened_at_utc = now;
    position_updated_at_utc = now;
    closed_at_utc = none;
  }

  -- The old position in `updatePosition`.
  unfoldable pub updated : Order D → D → D → ℤ → Position D → Position D
  unfolding calculate_realized_pnl
  updated order price commission now p =
      let pnl = calculate_realized_pnl p price order.quantity in
      let cost = d.add (d.mul p.position_quantity p.entry_price) (d.mul order.quantity price) in
      let total = d.add p.position_quantity order.quantity in
      let next =
        if (str_eq order.side side_buy && str_eq p.position_side position_long)
          || (str_eq order.side side_sell && str_eq p.position_side position_short)
        then record p {
          entry_price = d.div cost total;
          position_quantity = total;
          realized_pnl = d.sub p.realized_pnl commission;
        }
        else if greater_eq d order.quantity p.position_quantity
        then record p {
          realized_pnl = d.sub (d.add p.realized_pnl pnl) commission;
          position_quantity = d.zero;
          unrealized_pnl = d.zero;
        }
        else record p {
          realized_pnl = d.sub (d.add p.realized_pnl pnl) commission;
          position_quantity = d.sub p.position_quantity order.quantity;
        } in
      record next { current_price = price; position_updated_at_utc = now }

  unfoldable pub position_after : Order D → D → D → String → ℤ → Option (Position D) → Position D
  unfolding opened updated
  position_after order price commission id now none = opened order price commission id now
  position_after order price commission id now (some p) = updated order price commission now p

  -- `updatePosition`
  unfoldable pub update_position : Order D → D → D → String → ℤ → Simulator D → Simulator D
  unfolding position_after
  update_position order price commission id now s = record s {
    positions =
        insert order.symbol
          (position_after order price commission id now (lookup order.symbol s.positions))
          s.positions;
  }

  abbrev or_price : Order D → Option D → D
  or_price order none = order.price
  or_price order (some p) = p

  -- `simulateFill` for a submitted order, after its delay.
  unfoldable pub fill : String → String → ℤ → Order D → Simulator D → Simulator D
  unfolding apply_slippage update_position
  fill id position now order s =
      let price = apply_slippage order (or_price order (lookup order.symbol s.last_prices)) s in
      let notional = d.mul order.quantity price in
      let commission = d.mul notional s.commission_rate in
      let required = d.add notional commission in
      if str_eq order.side side_buy && d.less s.balance required
      then record s {
        orders =
            insert id (record order { order_status = order_rejected; updated_at_utc = now })
              s.orders;
      }
      else let filled = record order {
        order_status = order_filled;
        filled_qty = order.quantity;
        remaining_qty = d.zero;
        avg_fill_price = price;
        filled_at_utc = some now;
        updated_at_utc = now;
      } in
        update_position filled price commission position now (record s {
          orders = insert id filled s.orders;
          balance =
              if str_eq order.side side_buy
              then d.sub s.balance required
              else d.add s.balance (d.sub notional commission);
        })

  fill_found : String → String → ℤ → Option (Order D) → Simulator D → Simulator D
  unfolding fill
  fill_found id position now none s = s
  fill_found id position now (some order) s =
      if not (str_eq order.order_status order_submitted) then s else fill id position now order s

  -- `simulateFill`; the flag says that the context was done before the delay.
  unfoldable pub simulate_fill : Bool → String → String → ℤ → Simulator D → Simulator D
  unfolding fill_found
  simulate_fill context_done id position now s =
      if context_done then s else fill_found id position now (lookup id s.orders) s

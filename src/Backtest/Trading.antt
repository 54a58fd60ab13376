-- ===== src/Backtest/Trading.antt =====
-- Positions that a signal opens and closes: internal/service/backtest/engine.go.
use kairos_agent.Base.{
  String, Bool, true, false, Option, none, some, str_eq, if◌then◌else◌, is_some,
}
use kairos_agent.Base.Int.{pos}
use kairos_agent.Base.Dict.{lookup, insert, erase}
use kairos_agent.Entity.Decimal.{DecimalOps}
use kairos_agent.Entity.Order.{side_buy}
use kairos_agent.Backtest.{
  action_buy, action_sell, Signal, Position, Engine, BacktestError, already_open, short_of_balance,
  not_open, push,
}

module _ {D : Type 0} (d : DecimalOps D) where
  unfoldable pub apply_slippage : Engine D → D → Bool → D
  apply_slippage e price is_buy =
      let multiplier = d.div e.slippage_bps (d.of_int (pos 10000)) in
      if is_buy
      then d.mul price (d.add (d.of_int (pos 1)) multiplier)
      else d.mul price (d.sub (d.of_int (pos 1)) multiplier)

  -- The amount and the commission of a position that is opened at `price`.
  abbrev pub cost_at : D → D → D → D
  cost_at rate quantity price = d.add (d.mul quantity price) (d.mul (d.mul quantity price) rate)

  unfoldable pub buy : String → D → D → Engine D → Option (BacktestError D) × Engine D
  buy symbol quantity fill_price e =
      let total_cost = cost_at e.commission_rate quantity fill_price in
      if d.less e.balance total_cost then (some (short_of_balance e.balance total_cost), e) else (
        none,
        record e {
          balance = d.sub e.balance total_cost;
          positions =
              insert symbol
                (record {
                  position_symbol = symbol;
                  quantity = quantity;
                  entry_price = fill_price;
                  entry_time = e.current_time;
                })
                e.positions;
        },
      )

  unfoldable pub open_position : String → D → D → Engine D → Option (BacktestError D) × Engine D
  open_position symbol quantity price e =
      if is_some (lookup symbol e.positions)
      then (some (already_open symbol), e)
      else buy symbol quantity (apply_slippage e price true) e

  unfoldable pub sell : String → Position D → D → Engine D → Engine D
  sell symbol position fill_price e =
      let notional = d.mul position.quantity fill_price in
      let fee = d.mul notional e.commission_rate in
      let proceeds = d.sub notional fee in
      let gained = d.sub (d.mul (d.sub fill_price position.entry_price) position.quantity) fee in
      record e {
        balance = d.add e.balance proceeds;
        trades =
            push
              (record {
                trade_symbol = symbol;
                side = side_buy;
                trade_quantity = position.quantity;
                trade_entry_price = position.entry_price;
                exit_price = fill_price;
                trade_entry_time = position.entry_time;
                exit_time = e.current_time;
                pnl = gained;
                commission = fee;
              })
              e.trades;
        positions = erase symbol e.positions;
      }

  unfoldable pub close_found :
      String → Option (Position D) → D → Engine D → Option (BacktestError D) × Engine D
  close_found symbol none price e = (some (not_open symbol), e)
  close_found symbol (some position) price e =
      (none, sell symbol position (apply_slippage e price false) e)

  unfoldable pub close_position : String → D → Engine D → Option (BacktestError D) × Engine D
  close_position symbol price e = close_found symbol (lookup symbol e.positions) price e

  unfoldable pub execute_signal : Signal D → D → Engine D → Option (BacktestError D) × Engine D
  execute_signal signal price e =
      if str_eq signal.action action_buy
      then open_position signal.signal_symbol signal.signal_quantity price e
      else if str_eq signal.action action_sell
      then close_position signal.signal_symbol price e
      else (none, e)

-- ===== src/Backtest/Run.antt =====
-- The run and its result: `Run`, `recordEquity` and `calculateResult` of
-- internal/service/backtest/engine.go.
use kairos_agent.Base.{
  ℕ, suc, ◌+◌, ◌%◌, String, ◌⊎◌, inl, inr, Option, none, some, List, [], ◌∷◌, str_eq, ltb, ◌==◌,
  if◌then◌else◌,
}
use kairos_agent.Base.Int.{ℤ, pos}
use kairos_agent.Base.Lists.{length}
use kairos_agent.Base.Dict.{keys_of, Dict}
use kairos_agent.Entity.Decimal.{DecimalOps, greater}
use kairos_agent.Backtest.{
  Candle, action_hold, Signal, Position, Trade, Engine, Result, BacktestError, RunEnd, completed,
  interrupted, panicked, Tally, push, last_candle,
}
use kairos_agent.Backtest.Trading.{close_position, execute_signal}

module _ {D : Type 0} (d : DecimalOps D) where
  -- The open positions at their entry prices.
  unfoldable pub add_values : D → Dict (Position D) → D
  add_values total [] = total
  add_values total (entry ∷ rest) =
      add_values (d.add total (d.mul entry.1.quantity entry.1.entry_price)) rest

  unfoldable pub record_equity : Engine D → Engine D
  record_equity e = record e {
    equity =
        push
          (record {
            point_timestamp = e.current_time;
            point_equity = add_values e.balance e.positions;
          })
          e.equity;
  }

  -- The end of an iteration: the equity is recorded if the signal was executed.
  abbrev pub after_signal : ℕ → Option (BacktestError D) × Engine D → Engine D
  after_signal i (some _, e) = e
  after_signal i (none, e) = if i % 100 == 0 then record_equity e else e

  unfoldable pub on_answer : ℕ → D → Option (Signal D) ⊎ String → Engine D → Engine D
  on_answer i price (inr _) e = e
  on_answer i price (inl none) e = e
  on_answer i price (inl (some signal)) e =
      if str_eq signal.action action_hold
      then e
      else after_signal i (execute_signal d signal price e)

  -- `closeAllPositions`: the symbols in the order in which Go visits the map.
  unfoldable pub close_all : List String → D → Engine D → Engine D
  close_all [] price e = e
  close_all (symbol ∷ rest) price e = close_all rest price (close_position d symbol price e).1

  unfoldable pub tally : List (Trade D) → Tally D → Tally D
  tally [] t = t
  tally (trade ∷ rest) t =
      if greater d trade.pnl d.zero
      then tally rest (record t { wins = t.wins + 1; profit = d.add t.profit trade.pnl })
      else tally rest (record t { losses = t.losses + 1; loss = d.add t.loss (d.abs trade.pnl) })

  abbrev pub no_trades : Tally D
  no_trades = record { wins = 0; losses = 0; profit = d.zero; loss = d.zero }

  unfoldable pub calculate_result : ℤ → Engine D → Result D
  calculate_result elapsed e =
      let final = add_values e.balance e.positions in
      let t = tally e.trades no_trades in
      let count = length e.trades in
      record {
        result_initial_balance = e.initial_balance;
        final_equity = final;
        total_return =
            d.mul (d.div (d.sub final e.initial_balance) e.initial_balance) (d.of_int (pos 100));
        total_trades = count;
        winning_trades = t.wins;
        losing_trades = t.losses;
        win_rate =
            if ltb 0 count
            then d.mul (d.div (d.of_int (pos t.wins)) (d.of_int (pos count))) (d.of_int (pos 100))
            else d.zero;
        total_profit = t.profit;
        total_loss = t.loss;
        profit_factor = if d.is_zero t.loss then d.zero else d.div t.profit t.loss;
        result_equity = e.equity;
        result_trades = e.trades;
        duration = elapsed;
        result_seed = e.seed;
      }

  -- `visit` is the order in which Go visits the keys of a map, `elapsed` the measured duration.
  unfoldable pub finish_run :
      (List String → List String) → ℤ → Candle D → Engine D → RunEnd D × Engine D
  finish_run visit elapsed final e =
      let closed = record_equity (close_all (visit (keys_of e.positions)) final.close_price e) in
      (completed (calculate_result elapsed closed), closed)

  module _ {S : Type 0} where
    -- The end of the context stops the loop before an iteration.
    abbrev pub stop_or :
        Option String
        → S × Engine D
        → Option String × (S × Engine D)
        → Option String × (S × Engine D)
    stop_or (some error) now later = (some error, now)
    stop_or none now later = later

    unfoldable pub end_run :
        (List String → List String)
        → ℤ
        → List (Candle D)
        → Option String × (S × Engine D)
        → RunEnd D × (S × Engine D)
    end_run visit elapsed candles (some error, (s, e)) = (interrupted error, (s, e))
    end_run visit elapsed [] (none, (s, e)) = (panicked, (s, e))
    end_run visit elapsed (candle ∷ rest) (none, (s, e)) =
        let finished = finish_run visit elapsed (last_candle candle rest) e in
        (finished.0, (s, finished.1))

  -- `strategy` is `OnCandle`; `done` is the error of the context at each iteration, if it has one.
  module _ {S : Type 0} (strategy : S → Candle D → (Option (Signal D) ⊎ String) × S)
      (done : ℕ → Option String) where
    unfoldable pub run_loop : ℕ → List (Candle D) → S → Engine D → Option String × (S × Engine D)
    run_loop i [] s e = (none, (s, e))
    run_loop i (candle ∷ rest) s e =
        let asked = strategy s candle in
        let timed = record e { current_time = candle.timestamp } in
        let later = run_loop (suc i) rest asked.1 (on_answer i candle.close_price asked.0 timed) in
        stop_or (done i) (s, e) later

    -- `Run`
    unfoldable pub run :
        (List String → List String) → ℤ → List (Candle D) → S → Engine D → RunEnd D × (S × Engine D)
    run visit elapsed candles s e = end_run visit elapsed candles (run_loop 0 candles s e)

-- ===== src/Backtest/Accounting.antt =====
-- The accounts of the backtest engine: cash, the cost of what is open, and the profits of trades.
use kairos_agent.Base.{
  ℕ, suc, String, ◌≡◌, refl, ◌⊎◌, inl, inr, true, false, Option, none, some, List, [], ◌∷◌, arith,
  Option-cases,
}
use kairos_agent.Base.Int.{ℤ}
use kairos_agent.Base.Dict.{lookup, erase, IsMap, insert-IsMap, erase-IsMap}
use kairos_agent.Entity.Decimal.{DecimalOps, DecimalSums}
use kairos_agent.Entity.Order.{side_buy}
use kairos_agent.Backtest.Run.{stop_or, after_signal, record_equity, on_answer, close_all, run_loop}
use kairos_agent.Backtest.{
  Candle, Signal, Position, Trade, Config, Engine, BacktestError, new_engine,
}
use kairos_agent.Backtest.Trading.{
  apply_slippage, cost_at, buy, open_position, sell, close_found, close_position, execute_signal,
}
use kairos_agent.Backtest.Sums.{
  sum_by, sum_values, sum_by-push, sum_values-insert, sum_values-erase, buy_balances, sell_balances,
}

module _ {D : Type 0} (d : DecimalOps D) where
  abbrev pub cost_of : D → Position D → D
  cost_of rate p = cost_at d rate p.quantity p.entry_price

  -- The commission that was paid when the position of a trade was opened.
  abbrev pub entry_fee : D → Trade D → D
  entry_fee rate t = d.mul (d.mul t.trade_quantity t.trade_entry_price) rate

  abbrev pub entry_fees : Engine D → D
  entry_fees e = sum_by d (entry_fee e.commission_rate) e.trades

  abbrev pub total_pnl : Engine D → D
  total_pnl e = sum_by d (λ t. t.pnl) e.trades

  abbrev pub open_cost : Engine D → D
  open_cost e = sum_values d (cost_of e.commission_rate) e.positions

  -- The cash, what the open positions cost, and the entry commissions of the closed ones are the
  -- initial balance and the profits of the trades. No symbol is open twice.
  abbrev pub IsBalanced : Engine D → Type 0
  IsBalanced e =
      (d.add (d.add e.balance (open_cost e)) (entry_fees e) ≡ d.add e.initial_balance (total_pnl e))
      × IsMap e.positions

  module _ (laws : DecimalSums d) where
    pub new_engine-IsBalanced :
        (now : ℤ) (config : Option (Config D)) → IsBalanced (new_engine d now config)
    unfolding new_engine sum_by sum_values
    new_engine-IsBalanced now none = (laws.add_zero _, tt)
    new_engine-IsBalanced now (some c) = (laws.add_zero _, tt)

    buy-IsBalanced :
        (symbol : String) (quantity price : D) (e : Engine D)
        → lookup symbol e.positions ≡ none
        → IsBalanced e
        → IsBalanced (buy d symbol quantity price e).1
    unfolding buy
    buy-IsBalanced symbol quantity price e absent ok =
        let position : Position D = record {
          position_symbol = symbol;
          quantity = quantity;
          entry_price = price;
          entry_time = e.current_time;
        } in
        let total = d.add e.initial_balance (total_pnl e) in
        ground (
          arith,
          insert-IsMap symbol position e.positions,
          sum_values-insert d laws (cost_of e.commission_rate) symbol position e.positions absent,
          buy_balances d laws e.balance (open_cost e) (entry_fees e)
              (cost_at d e.commission_rate quantity price) total,
        )

    open_position-IsBalanced :
        (symbol : String) (quantity price : D) (e : Engine D)
        → IsBalanced e
        → IsBalanced (open_position d symbol quantity price e).1
    unfolding open_position
    open_position-IsBalanced symbol quantity price e ok = ground (
      arith,
      Option-cases (lookup symbol e.positions),
      buy-IsBalanced symbol quantity (apply_slippage d e price true) e,
    )

    sell-IsBalanced :
        (symbol : String) (p : Position D) (price : D) (e : Engine D)
        → lookup symbol e.positions ≡ some p
        → IsBalanced e
        → IsBalanced (sell d symbol p price e)
    unfolding sell
    sell-IsBalanced symbol p price e found ok =
        let n = d.mul p.quantity price in
        let m = d.mul p.quantity p.entry_price in
        let k = d.mul n e.commission_rate in
        let g = d.mul m e.commission_rate in
        let trade : Trade D = record {
          trade_symbol = symbol;
          side = side_buy;
          trade_quantity = p.quantity;
          trade_entry_price = p.entry_price;
          exit_price = price;
          trade_entry_time = p.entry_time;
          exit_time = e.current_time;
          pnl = d.sub (d.mul (d.sub price p.entry_price) p.quantity) k;
          commission = k;
        } in
        let rest = sum_values d (cost_of e.commission_rate) (erase symbol e.positions) in
        let erased =
          sum_values-erase d laws (cost_of e.commission_rate) symbol p e.positions found in
        let booked = sum_by-push d laws (entry_fee e.commission_rate) trade e.trades in
        let gained = sum_by-push d laws (λ t. t.pnl) trade e.trades in
        let profit : d.mul (d.sub price p.entry_price) p.quantity ≡ d.sub n m = cc (
          laws.mul_sub price p.entry_price p.quantity,
          laws.mul_comm price p.quantity,
          laws.mul_comm p.entry_price p.quantity,
        ) in
        let before : d.add (d.add e.balance (d.add rest (d.add m g))) (entry_fees e)
            ≡ d.add e.initial_balance (total_pnl e) =
          cc (erased, ok.0) in
        (
          cc (
            booked,
            gained,
            profit,
            sell_balances d laws e.balance rest (entry_fees e) e.initial_balance (total_pnl e) n k m
                g before,
          ),
          erase-IsMap symbol e.positions ok.1,
        )

    close_found-IsBalanced :
        (symbol : String) (found : Option (Position D)) (price : D) (e : Engine D)
        → lookup symbol e.positions ≡ found
        → IsBalanced e
        → IsBalanced (close_found d symbol found price e).1
    unfolding close_found
    close_found-IsBalanced symbol none price e h ok = ok
    close_found-IsBalanced symbol (some p) price e h ok =
        sell-IsBalanced symbol p (apply_slippage d e price false) e h ok

    pub close_position-IsBalanced :
        (symbol : String) (price : D) (e : Engine D)
        → IsBalanced e
        → IsBalanced (close_position d symbol price e).1
    unfolding close_position
    close_position-IsBalanced symbol price e ok =
        close_found-IsBalanced symbol (lookup symbol e.positions) price e refl ok

    pub close_all-IsBalanced :
        (symbols : List String) (price : D) (e : Engine D)
        → IsBalanced e
        → IsBalanced (close_all d symbols price e)
    unfolding close_all
    close_all-IsBalanced [] price e ok = ok
    close_all-IsBalanced (symbol ∷ rest) price e ok =
        close_all-IsBalanced rest price (close_position d symbol price e).1
          (close_position-IsBalanced symbol price e ok)

    execute_signal-IsBalanced :
        (signal : Signal D) (price : D) (e : Engine D)
        → IsBalanced e
        → IsBalanced (execute_signal d signal price e).1
    unfolding execute_signal
    execute_signal-IsBalanced signal price e ok = ground (
      arith,
      open_position-IsBalanced signal.signal_symbol signal.signal_quantity price e ok,
      close_position-IsBalanced signal.signal_symbol price e ok,
    )

    after_signal-IsBalanced :
        (i : ℕ) (executed : Option (BacktestError D) × Engine D)
        → IsBalanced executed.1
        → IsBalanced (after_signal d i executed)
    unfolding record_equity
    after_signal-IsBalanced i (some error, e) ok = ok
    after_signal-IsBalanced i (none, e) ok = ground arith

    pub on_answer-IsBalanced :
        (i : ℕ) (price : D) (answer : Option (Signal D) ⊎ String) (e : Engine D)
        → IsBalanced e
        → IsBalanced (on_answer d i price answer e)
    unfolding on_answer
    on_answer-IsBalanced i price (inr error) e ok = ok
    on_answer-IsBalanced i price (inl none) e ok = ok
    on_answer-IsBalanced i price (inl (some signal)) e ok = ground (
      arith,
      after_signal-IsBalanced i (execute_signal d signal price e)
          (execute_signal-IsBalanced signal price e ok),
    )

    module _ {S : Type 0} (strategy : S → Candle D → (Option (Signal D) ⊎ String) × S)
        (done : ℕ → Option String) where
      stop_or-IsBalanced :
          (stop : Option String) (now : S × Engine D) (later : Option String × (S × Engine D))
          → IsBalanced now.1
          → IsBalanced later.1.1
          → IsBalanced (stop_or d stop now later).1.1
      stop_or-IsBalanced none now later here there = there
      stop_or-IsBalanced (some error) now later here there = here

      pub run_loop-IsBalanced :
          (i : ℕ) (candles : List (Candle D)) (s : S) (e : Engine D)
          → IsBalanced e
          → IsBalanced (run_loop d strategy done i candles s e).1.1
      unfolding run_loop
      run_loop-IsBalanced i [] s e ok = ok
      run_loop-IsBalanced i (candle ∷ rest) s e ok =
          let asked = strategy s candle in
          let timed = record e { current_time = candle.timestamp } in
          stop_or-IsBalanced (done i) (s, e)
            (run_loop d strategy done (suc i) rest asked.1
              (on_answer d i candle.close_price asked.0 timed))
            ok
            (run_loop-IsBalanced (suc i) rest asked.1
              (on_answer d i candle.close_price asked.0 timed)
              (on_answer-IsBalanced i candle.close_price asked.0 timed ok))

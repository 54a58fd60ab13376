-- ===== src/Backtest/Settings.antt =====
-- What a run of the backtest engine leaves as it was, and `Reset`.
use kairos_agent.Base.{
  ℕ, suc, String, ◌≡◌, refl, ◌⊎◌, inl, inr, Option, none, some, List, [], ◌∷◌, arith, Option-cases,
}
use kairos_agent.Base.Int.{ℤ}
use kairos_agent.Base.Dict.{lookup, keys_of}
use kairos_agent.Entity.Decimal.{DecimalOps}
use kairos_agent.Backtest.{
  Candle, Signal, Config, Engine, BacktestError, last_candle, reset, new_engine,
}
use kairos_agent.Backtest.Trading.{
  buy, open_position, sell, close_found, close_position, execute_signal,
}
use kairos_agent.Backtest.Run.{
  record_equity, after_signal, on_answer, close_all, finish_run, stop_or, end_run, run_loop, run,
}

module _ {D : Type 0} (d : DecimalOps D) where
  -- The settings of an engine: no operation changes them.
  abbrev pub SameSettings : Engine D → Engine D → Type 0
  SameSettings e f =
      (f.initial_balance ≡ e.initial_balance)
      × (f.commission_rate ≡ e.commission_rate)
      × (f.slippage_bps ≡ e.slippage_bps)
      × (f.seed ≡ e.seed)

  opened-SameSettings :
      (symbol : String) (quantity price : D) (e : Engine D)
      → SameSettings e (open_position d symbol quantity price e).1
  unfolding open_position buy
  opened-SameSettings symbol quantity price e = ground arith

  closed-SameSettings :
      (symbol : String) (price : D) (e : Engine D)
      → SameSettings e (close_position d symbol price e).1
  unfolding close_position close_found sell
  closed-SameSettings symbol price e = ground (arith, Option-cases (lookup symbol e.positions))

  executed-SameSettings :
      (signal : Signal D) (price : D) (e : Engine D)
      → SameSettings e (execute_signal d signal price e).1
  unfolding execute_signal
  executed-SameSettings signal price e = ground (
    arith,
    opened-SameSettings signal.signal_symbol signal.signal_quantity price e,
    closed-SameSettings signal.signal_symbol price e,
  )

  recorded-SameSettings :
      (i : ℕ) (e : Engine D) (executed : Option (BacktestError D) × Engine D)
      → SameSettings e executed.1
      → SameSettings e (after_signal d i executed)
  unfolding record_equity
  recorded-SameSettings i e (some error, f) ok = ok
  recorded-SameSettings i e (none, f) ok = ground arith

  answered-SameSettings :
      (i : ℕ) (price : D) (answer : Option (Signal D) ⊎ String) (e : Engine D)
      → SameSettings e (on_answer d i price answer e)
  unfolding on_answer
  answered-SameSettings i price (inr error) e = (refl, refl, refl, refl)
  answered-SameSettings i price (inl none) e = (refl, refl, refl, refl)
  answered-SameSettings i price (inl (some signal)) e = ground (
    arith,
    recorded-SameSettings i e (execute_signal d signal price e)
        (executed-SameSettings signal price e),
  )

  close_all-SameSettings :
      (symbols : List String) (price : D) (e : Engine D)
      → SameSettings e (close_all d symbols price e)
  unfolding close_all
  close_all-SameSettings [] price e = (refl, refl, refl, refl)
  close_all-SameSettings (symbol ∷ rest) price e = ground (
    arith,
    closed-SameSettings symbol price e,
    close_all-SameSettings rest price (close_position d symbol price e).1,
  )

  reset_new :
      (now : ℤ) (config : Option (Config D)) (e : Engine D)
      → SameSettings (new_engine d now config) e
      → reset e ≡ new_engine d now config
  unfolding new_engine reset
  reset_new now config e same = cc (same.0, same.1, same.2, same.3)

  module _ {S : Type 0} (visit : List String → List String) (elapsed : ℤ) where
    pub ended-SameSettings :
        (candles : List (Candle D)) (e : Engine D) (looped : Option String × (S × Engine D))
        → SameSettings e looped.1.1
        → SameSettings e (end_run d visit elapsed candles looped).1.1
    unfolding end_run finish_run record_equity
    ended-SameSettings candles e (some error, (s, f)) ok = ok
    ended-SameSettings [] e (none, (s, f)) ok = ok
    ended-SameSettings (candle ∷ rest) e (none, (s, f)) ok = ground (
      arith,
      close_all-SameSettings (visit (keys_of f.positions)) (last_candle candle rest).close_price f,
    )

  module _ {S : Type 0} (strategy : S → Candle D → (Option (Signal D) ⊎ String) × S)
      (done : ℕ → Option String) where
    stopped-SameSettings :
        (stop : Option String) (s : S) (e : Engine D) (later : Option String × (S × Engine D))
        → SameSettings e later.1.1
        → SameSettings e (stop_or d stop (s, e) later).1.1
    stopped-SameSettings none s e later ok = ok
    stopped-SameSettings (some error) s e later ok = (refl, refl, refl, refl)

    pub run_loop-SameSettings :
        (i : ℕ) (candles : List (Candle D)) (s : S) (e : Engine D)
        → SameSettings e (run_loop d strategy done i candles s e).1.1
    unfolding run_loop
    run_loop-SameSettings i [] s e = (refl, refl, refl, refl)
    run_loop-SameSettings i (candle ∷ rest) s e =
        let asked = strategy s candle in
        let timed = record e { current_time = candle.timestamp } in
        let next = on_answer d i candle.close_price asked.0 timed in
        let later = run_loop d strategy done (suc i) rest asked.1 next in
        stopped-SameSettings (done i) s e later (
          ground (
            arith,
            answered-SameSettings i candle.close_price asked.0 timed,
            run_loop-SameSettings (suc i) rest asked.1 next,
          ))

    -- `Reset` after a run of a new engine, however the run ended, gives the new engine back, for
    -- every strategy and all candles.
    pub reset-run :
        (visit : List String → List String) (elapsed : ℤ) (now : ℤ) (config : Option (Config D))
        (candles : List (Candle D)) (s : S)
        → reset (run d strategy done visit elapsed candles s (new_engine d now config)).1.1
          ≡ new_engine d now config
    unfolding run
    reset-run visit elapsed now config candles s =
        let e = new_engine d now config in
        reset_new now config (run d strategy done visit elapsed candles s e).1.1 (
          ended-SameSettings visit elapsed candles e (run_loop d strategy done 0 candles s e)
            (run_loop-SameSettings 0 candles s e))

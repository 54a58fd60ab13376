-- ===== src/Backtest/Tests.antt =====
-- The backtest engine on whole numbers, with a strategy that follows a script.
use kairos_agent.Base.{
  ℕ, String, ◌≡◌, refl, ◌⊎◌, inl, inr, Option, none, some, List, [], ◌∷◌, ◌==◌, if◌then◌else◌,
}
use kairos_agent.Base.Int.{ℤ, pos, ◌+ℤ◌, ◌-ℤ◌, ◌*ℤ◌}
use kairos_agent.Base.Dict.{lookup, insert, erase, keys_of}
use kairos_agent.Entity.Decimal.{DecimalOps}
use kairos_agent.Entity.IntDecimals.{int_decimals}
use kairos_agent.Backtest.{
  SignalAction, Candle, action_buy, action_sell, Signal, Config, Engine, RunEnd, interrupted,
  panicked, push, last_candle, reset, new_engine,
}
use kairos_agent.Backtest.Trading.{
  apply_slippage, buy, open_position, sell, close_found, close_position, execute_signal,
}
use kairos_agent.Backtest.Run.{
  record_equity, on_answer, close_all, finish_run, end_run, run_loop, run,
}
use kairos_agent.Backtest.Settings.{reset-run}

abbrev d : DecimalOps ℤ
d = int_decimals

abbrev config : Config ℤ
config = record {
  config_initial_balance = pos 1000;
  config_commission_rate = pos 1;
  config_slippage_bps = pos 0;
  config_seed = pos 7;
}

abbrev candle : ℕ → ℕ → Candle ℤ
candle time price = record {
  candle_symbol = "BTCUSDT";
  timestamp = pos time;
  open_price = pos price;
  high = pos price;
  low = pos price;
  close_price = pos price;
  volume = pos 1;
}

abbrev signal : SignalAction → String → ℕ → Option (Signal ℤ)
signal action symbol quantity = some (record {
  action = action;
  signal_symbol = symbol;
  signal_quantity = pos quantity;
  signal_price = pos 0;
})

abbrev Script : Type 0
Script = List (Option (Signal ℤ) ⊎ String)

abbrev follow : Script → Candle ℤ → (Option (Signal ℤ) ⊎ String) × Script
follow [] _ = (inl none, [])
follow (answer ∷ rest) _ = (answer, rest)

abbrev script : Script
script =
    inl (signal action_buy "BTCUSDT" 2)
    ∷ inl (signal action_buy "BTCUSDT" 3)
    ∷ inr "no data"
    ∷ inl (signal action_sell "BTCUSDT" 0)
    ∷ inl (signal action_buy "ETHUSDT" 1)
    ∷ []

abbrev candles : List (Candle ℤ)
candles = candle 2 20 ∷ candle 3 30 ∷ candle 4 70 ∷ candle 5 40 ∷ []

abbrev running : ℕ → Option String
running _ = none

abbrev same_order : List String → List String
same_order l = l

-- Two units are bought at 10 for 20 and a commission of 20, and sold at 70: 140 less 140. A unit is
-- bought at 40 for 80 in all and sold at the end for nothing.
abbrev outcome : RunEnd ℤ × (Script × Engine ℤ)
outcome =
    run d follow running same_order (pos 1) (candle 1 10 ∷ candles) script
      (new_engine d (pos 0) (some config))

outcome_balance : outcome.1.1.balance ≡ pos 880
unfolding run end_run finish_run run_loop on_answer execute_signal open_position buy close_position
    close_found sell close_all record_equity apply_slippage new_engine last_candle keys_of insert
    lookup erase push ◌+ℤ◌ ◌-ℤ◌ ◌*ℤ◌
outcome_balance = refl

no_candles :
    (run d follow running same_order (pos 1) [] script (new_engine d (pos 0) none)).0 ≡ panicked
unfolding run end_run run_loop
no_candles = refl

interrupts :
    (run d follow
      (λ i. if i == 2 then some "context canceled" else none)
      same_order
      (pos 1)
      (candle 1 10 ∷ candles)
      script
      (new_engine d (pos 0) (some config))).0
    ≡ interrupted "context canceled"
unfolding run end_run run_loop
interrupts = refl

reset-run_example : reset outcome.1.1 ≡ new_engine d (pos 0) (some config)
reset-run_example =
    reset-run d follow running same_order (pos 1) (pos 0) (some config) (candle 1 10 ∷ candles)
      script

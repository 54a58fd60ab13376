-- ===== src/Backtest/Report.antt =====
-- The result of a run: `calculateResult` over the accounts of the engine, and `Reset`.
use kairos_agent.Base.{◌+◌, ◌≡◌}
use kairos_agent.Entity.Decimal.{DecimalOps}
use kairos_agent.Backtest.Run.{no_trades, no_trades}
use kairos_agent.Backtest.{Result, RunEnd, completed}
use kairos_agent.Backtest.Sums.{sum_by}
use kairos_agent.Backtest.Accounting.{entry_fee}

module _ {D : Type 0} (d : DecimalOps D) where
  -- What a result says of itself: its counts and its amounts add up.
  abbrev pub Adds : D → Result D → Type 0
  Adds rate r =
      (r.winning_trades + r.losing_trades ≡ r.total_trades)
      × (d.add (d.add r.final_equity (sum_by d (entry_fee d rate) r.result_trades)) r.total_loss
          ≡ d.add r.result_initial_balance r.total_profit)

  abbrev Finished : D → RunEnd D → Type 0
  Finished rate end = (r : Result D) × (end ≡ completed r) × Adds rate r

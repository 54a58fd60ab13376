-- ===== src/Entity/Strategy.antt =====
-- internal/domain/entity/strategy.go.
use kairos_agent.Base.{String, Bool, false, Option, str_eq, if◌then◌else◌}
use kairos_agent.Base.Int.{ℤ, pos, ◌+ℤ◌, eqb_ℤ}
use kairos_agent.Entity.Decimal.{DecimalOps, greater, less_eq}

abbrev pub StrategyStatus : Type 0
StrategyStatus = String

abbrev pub strategy_active : StrategyStatus
strategy_active = "active"

pub record Strategy (D : Type 0) : Type 0 where
  pub strategy_key : String
  pub strategy_name : String
  pub strategy_type : String
  pub strategy_status : StrategyStatus
  pub strategy_symbol : String
  pub max_position_size : D
  pub max_daily_loss : D
  pub current_pnl : D
  pub daily_pnl : D
  pub total_trades : ℤ
  pub winning_trades : ℤ
  pub losing_trades : ℤ
  pub strategy_created_at_utc : ℤ
  pub strategy_updated_at_utc : ℤ
  pub started_at_utc : Option ℤ
  pub stopped_at_utc : Option ℤ

module _ {D : Type 0} where
  abbrev pub can_trade : Strategy D → Bool
  can_trade s = str_eq s.strategy_status strategy_active

module _ {D : Type 0} (d : DecimalOps D) where
  unfoldable pub has_reached_daily_loss_limit : Strategy D → Bool
  has_reached_daily_loss_limit s =
      if d.is_zero s.max_daily_loss then false else less_eq d s.daily_pnl (d.neg s.max_daily_loss)

  unfoldable pub win_rate : Strategy D → D
  win_rate s =
      if eqb_ℤ s.total_trades (pos 0)
      then d.zero
      else d.mul (d.div (d.of_int s.winning_trades) (d.of_int s.total_trades)) (d.of_int (pos 100))

  -- `UpdatePnL`
  unfoldable pub update_pnl : D → ℤ → Strategy D → Strategy D
  update_pnl pnl now s =
      let counted = record s {
        current_pnl = d.add s.current_pnl pnl;
        daily_pnl = d.add s.daily_pnl pnl;
        total_trades = s.total_trades +ℤ pos 1;
        strategy_updated_at_utc = now;
      } in
      if greater d pnl d.zero
      then record counted { winning_trades = counted.winning_trades +ℤ pos 1 }
      else if d.less pnl d.zero
      then record counted { losing_trades = counted.losing_trades +ℤ pos 1 }
      else counted

  unfoldable pub reset_daily_pnl : ℤ → Strategy D → Strategy D
  reset_daily_pnl now s = record s { daily_pnl = d.zero; strategy_updated_at_utc = now }

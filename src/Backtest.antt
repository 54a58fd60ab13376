-- ===== src/Backtest.antt =====
-- internal/service/backtest/engine.go: a run of a strategy over historical candles. `D` is the type
-- of decimals, `S` the state of the strategy, which is the caller's code.
pub mod Trading
pub mod Run
pub mod Sums
mod Tests
pub mod Settings
pub mod Report
pub mod Accounting
use kairos_agent.Base.{ℕ, String, Option, none, some, List, [], ◌∷◌}
use kairos_agent.Base.Int.{ℤ, pos, negsuc}
use kairos_agent.Base.Dict.{Dict}
use kairos_agent.Entity.Decimal.{DecimalOps}
use kairos_agent.Entity.Order.{OrderSide}

pub record Candle (D : Type 0) : Type 0 where
  pub candle_symbol : String
  pub timestamp : ℤ
  pub open_price : D
  pub high : D
  pub low : D
  pub close_price : D
  pub volume : D

abbrev SignalAction : Type 0
SignalAction = String

abbrev pub action_buy : SignalAction
action_buy = "buy"

abbrev pub action_sell : SignalAction
action_sell = "sell"

abbrev pub action_hold : SignalAction
action_hold = "hold"

pub record Signal (D : Type 0) : Type 0 where
  pub action : SignalAction
  pub signal_symbol : String
  pub signal_quantity : D
  pub signal_price : D

pub record Position (D : Type 0) : Type 0 where
  pub position_symbol : String
  pub quantity : D
  pub entry_price : D
  pub entry_time : ℤ

pub record Trade (D : Type 0) : Type 0 where
  pub trade_symbol : String
  pub side : OrderSide
  pub trade_quantity : D
  pub trade_entry_price : D
  pub exit_price : D
  pub trade_entry_time : ℤ
  pub exit_time : ℤ
  pub pnl : D
  pub commission : D

pub record EquityPoint (D : Type 0) : Type 0 where
  pub point_timestamp : ℤ
  pub point_equity : D

pub record Config (D : Type 0) : Type 0 where
  pub config_initial_balance : D
  pub config_commission_rate : D
  pub config_slippage_bps : D
  pub config_seed : ℤ

pub record Engine (D : Type 0) : Type 0 where
  pub current_time : ℤ
  pub initial_balance : D
  pub balance : D
  pub positions : Dict (Position D)
  pub trades : List (Trade D)
  pub equity : List (EquityPoint D)
  pub commission_rate : D
  pub slippage_bps : D
  pub seed : ℤ

pub record Result (D : Type 0) : Type 0 where
  pub result_initial_balance : D
  pub final_equity : D
  pub total_return : D
  pub total_trades : ℕ
  pub winning_trades : ℕ
  pub losing_trades : ℕ
  pub win_rate : D
  pub total_profit : D
  pub total_loss : D
  pub profit_factor : D
  pub result_equity : List (EquityPoint D)
  pub result_trades : List (Trade D)
  pub duration : ℤ
  pub result_seed : ℤ

pub data BacktestError (D : Type 0) : Type 0 where
  already_open : String → BacktestError D
  short_of_balance : D → D → BacktestError D
  not_open : String → BacktestError D

-- How `Run` ends: `candles[len(candles)-1]` panics without a candle.
pub data RunEnd (D : Type 0) : Type 0 where
  completed : Result D → RunEnd D
  interrupted : String → RunEnd D
  panicked : RunEnd D

-- The zero `time.Time`, and the wins and losses that the report counts.
abbrev zero_time : ℤ
zero_time = pos 0

pub record Tally (D : Type 0) : Type 0 where
  pub wins : ℕ
  pub losses : ℕ
  pub profit : D
  pub loss : D

module _ {V : Type 0} where
  -- `trades` and `equity` grow at their ends.
  unfoldable pub push : V → List V → List V
  push x [] = x ∷ []
  push x (y ∷ l) = y ∷ push x l

module _ {D : Type 0} where
  unfoldable pub last_candle : Candle D → List (Candle D) → Candle D
  last_candle c [] = c
  last_candle c (next ∷ rest) = last_candle next rest

  -- `Reset`
  unfoldable pub reset : Engine D → Engine D
  reset e = record e {
    current_time = zero_time;
    balance = e.initial_balance;
    positions = [];
    trades = [];
    equity = [];
  }

module _ {D : Type 0} (d : DecimalOps D) where
  -- `now` is the time of the call, which seeds the engine.
  unfoldable pub default_config : ℤ → Config D
  default_config now = record {
    config_initial_balance = d.of_int (pos 10000);
    config_commission_rate = d.shift (d.of_int (pos 6)) (negsuc 3);
    config_slippage_bps = d.of_int (pos 5);
    config_seed = now;
  }

  abbrev config_or : Config D → Option (Config D) → Config D
  config_or c none = c
  config_or _ (some c) = c

  unfoldable pub new_engine : ℤ → Option (Config D) → Engine D
  new_engine now given =
      let config = config_or (default_config now) given in
      record {
        current_time = zero_time;
        initial_balance = config.config_initial_balance;
        balance = config.config_initial_balance;
        positions = [];
        trades = [];
        equity = [];
        commission_rate = config.config_commission_rate;
        slippage_bps = config.config_slippage_bps;
        seed = config.config_seed;
      }

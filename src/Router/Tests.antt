-- ===== src/Router/Tests.antt =====
-- The router on concrete inputs. The world is the list of the client ids sent to the exchange.
use kairos_agent.Base.{
  ℕ, zero, suc, String, ◌≡◌, refl, inl, inr, true, none, some, List, [], ◌∷◌, ◌++◌, arith, str_eq,
  if◌then◌else◌,
}
use kairos_agent.Base.Int.{pos}
use kairos_agent.Base.Dict.{lookup, insert}
use kairos_agent.Entity.Order.{side_buy, order_limit, order_pending, Order}
use kairos_agent.Entity.Agent.{run_mode_halted}
use kairos_agent.Base.Show.{show_ℤ}
use kairos_agent.Router.{
  routing_live, RouterConfig, Exchange, OrderRouter, id_input, new_order_router, check_entry, admit,
  submit_order,
}
use kairos_agent.Router.Tracking.{set_trading_gate}
use kairos_agent.Router.InFlight.{admits, settles, run, IsBounded, run-IsBounded}
use kairos_agent.Runtime.Manager.{Manager, new_manager, manager_transition}

abbrev exchange : Exchange (List String) ℕ
exchange = record {
  submit = λ o w. (
    if str_eq o.symbol "BTC" then inl "x1" else inr "unknown symbol",
    w ++ o.client_order_id ∷ [],
  );
  cancel = λ x w. (none, w);
  query = λ x w. (inr "down", w);
}

abbrev order_of : String → String → Order ℕ
order_of id symbol = record {
  id = id;
  client_order_id = "";
  exchange_order_id = "";
  strategy_id = "s";
  symbol = symbol;
  side = side_buy;
  order_type = order_limit;
  order_status = order_pending;
  time_in_force = "GTC";
  quantity = 1;
  price = 1;
  filled_qty = 0;
  remaining_qty = 1;
  avg_fill_price = 0;
  created_at_utc = pos 62_135_596_807_500_000_000;
  updated_at_utc = pos 1;
  submitted_at_utc = none;
  filled_at_utc = none;
}

-- Pointer 0 and pointer 1 hold the same order, pointer 2 another.
abbrev heap : ℕ → Order ℕ
heap zero = order_of "o" "BTC"
heap (suc zero) = order_of "o" "BTC"
heap (suc (suc _)) = order_of "q" "XYZ"

abbrev live_config : RouterConfig
live_config = record {
  mode = routing_live;
  enable_idempotency = true;
  timeout_seconds = pos 30;
  max_in_flight_orders = pos 2;
  enable_status_fallback = true;
}

abbrev plain : String → String
plain s = s

abbrev router : OrderRouter (List String) ℕ
router = new_order_router (some live_config) (some exchange) none true heap

id_is : id_input (order_of "o" "BTC") ≡ "s:BTC:buy:7:o"
unfolding id_input show_ℤ
id_is = refl

-- The first submission waits for the exchange.
abbrev waiting : OrderRouter (List String) ℕ
waiting = (admit plain (pos 5) 0 router).1

-- The caller of the duplicate gets an empty id, and no error.
duplicate_gets_nothing : (submit_order plain (pos 6) 1 waiting []).0 ≡ inl ""
unfolding submit_order admit new_order_router check_entry id_input show_ℤ lookup insert
duplicate_gets_nothing = refl

run-IsBounded_example : IsBounded 2 (
    run plain
      (admits (pos 5) 0 ∷ admits (pos 6) 2 ∷ settles 0 (inl "x1") ∷ admits (pos 7) 1 ∷ [])
      router)
unfolding new_order_router
run-IsBounded_example =
    run-IsBounded plain 2
      (admits (pos 5) 0 ∷ admits (pos 6) 2 ∷ settles 0 (inl "x1") ∷ admits (pos 7) 1 ∷ []) router
      (record { limit = refl; count = omega arith; unique = tt })

abbrev halted : Manager
halted =
    (manager_transition run_mode_halted "operator" (pos 20) (pos 21)
      (new_manager "1.0.0" (pos 10) (pos 11))).0

abbrev gated : OrderRouter (List String) ℕ
gated = set_trading_gate (some (λ w. some "closed")) router

-- ===== src/Lib.antt =====
-- Verification library of kairos-agent, a trading agent that runs on the user's machine. It models
-- the parts that decide whether an order may be sent, send it, and keep the account of it.
--
-- The parts and how they interact:
-- The runtime (internal/runtime) holds the run mode in a state machine and the status that the rest
-- of the agent reads. It is stored in a snapshot and restored after a restart
-- (internal/providers/runtime). The trading gate (internal/service/tradinggate) reads the status
-- and refuses new entries. The order service (internal/service/agent) creates and sends the orders
-- of strategies, and asks the gate and the risk engine first. The order router
-- (internal/service/router) asks the gate, keeps the orders in flight, and sends an order to the
-- exchange or to the paper exchange (internal/service/paper). The risk engine
-- (internal/domain/risk) checks an order against the symbol, the strategy, the balance and the
-- position (internal/domain/entity). The circuit breaker (internal/circuitbreaker) stands around
-- calls that may fail. Events are delivered by the publisher (internal/domain/events) and the bus
-- (internal/domain/events/qos). The job manager (internal/service/jobs) runs work in the
-- background, with a queue for each priority. The agent service (internal/service/agent) has the
-- operator's commands and drives the runtime. The license (internal/license) is evaluated from its
-- claims and the clock, and entitles to features and limits (internal/entitlement). The older
-- engine (internal/engine) has a state machine of its own and workers that halt it: it watches the
-- clock through a circuit breaker and the stream of the exchange, and asks the reconciliation
-- (internal/service/reconciliation) to bring orders and positions in line with the exchange. The
-- backtest (internal/service/backtest) runs a strategy over historical candles. The journal
-- (internal/journal) keeps the intents of orders in files and replays them after a crash.
--
-- Which file models which part:
-- - Base: shared helpers. Int has the integers over the native numbers, Dict the maps, Words the
--   fixed-width counters, Show the verb %d, Texts and Tests the Boolean tests.
-- - CircuitBreaker: circuitbreaker.go. State, counts and expiry are a record; before_request,
--   after_request, current_state and execute are its methods. Attempt and Event describe what
--   callers do, in any order.
-- - Entity: internal/domain/entity. Agent has agent.go; Order, Symbol, Position (with balance.go)
--   and Strategy have the files of their names; Decimal has the operations of the decimal library,
--   and IntDecimals whole numbers as decimals, for the tests.
-- - Runtime: StateMachine (statemachine.go), Manager (runtime.go, models.go), Restore (restore.go),
--   Convert (internal/providers/conv/agent.go), Store (snapshot_store.go, repository.go). Trace has
--   the runs of calls; the other modules are named for what they prove.
-- - TradingGate: gate.go, with check_new_entry for CheckNewEntry.
-- - Events: Outcome (safeHandle), Publisher (publisher.go), Bus (qos/bus.go).
-- - Risk: engine.go, with validate_order and validate_position_close.
-- - Paper: simulator.go. The goroutine of an order is the step simulate_fill.
-- - Jobs: internal/service/jobs/manager.go. A worker's step is worker_takes or worker_finishes.
-- - Orders: internal/service/agent/order_service.go: SubmitOrder and CancelOrder; Create has
--   CreateOrder and ReconcileOrders.
-- - Router: router.go up to SubmitOrder, whose critical sections are admit and settle; Tracking has
--   the other operations.
-- - AgentService: internal/service/agent/service.go over internal/providers/runtime/repository.go:
--   start_live, emergency_stop and the other commands. Live and Consent are named for what they
--   prove.
-- - Journal: journal.go of internal/journal: Append, with its rotation; Replay has Replay and
--   TruncateAfterReconciliation. A file is the list of its lines and what stands after the last
--   one.
-- - License: license.go, with evaluate_state and verify_jwt. Entitlement has internal/entitlement.
-- - Reconciliation: reconciliation.go. order_loop and position_loop are the loops over the local
--   objects, which the code changes in place: a pass returns them, with those that were stored.
-- - Backtest: engine.go of internal/service/backtest: the types, Trading (positions and signals),
--   Run (the loop and the result). Sums has the sums of decimals, Accounting the accounts, Report
--   the result, Settings what stays.
-- - Engine: StateMachine (state.go), Ntp (ntp.go), Workers (engine.go), Shutdown (shutdown.go),
--   EventBus (eventbus.go), whose publishers, goroutines and callers are steps in any order. A
--   round of a worker's loop is a function on the engine.
-- Each part has a module Tests with runs on concrete inputs.
--
-- How code becomes definitions: a method takes the state and returns the new one; the time that it
-- reads is an argument, two arguments when it reads the clock twice. A mutex makes a method, or
-- each critical section of one, a single step. Goroutines and callers are steps that come in any
-- order. Times and durations are whole numbers of nanoseconds without a bound; the int64 counters
-- of the bus and the uint32 counters of the breaker wrap around. Named string types of Go are
-- strings. Orders that the router shares with its caller stand in a heap and are reached by
-- pointers.
--
-- Loops and fuel: every loop is a recursion on a list, but for two. The retries of the bus run for
-- MaxRetries + 1 rounds, which is the bound of the loop itself. The digits of a number are at most
-- 20, which is enough for 64-bit integers.
--
-- Parameters: the decimal library (operations, with the laws of their order and of exact sums and
-- products), SHA-256, Base64, Ed25519, the JSON of claims and of journal entries, the answers of
-- the file system to the journal, the texts of times and of JSON snapshots (with the law that
-- reading gives back what was written), the exchange, the time servers, the repositories, the
-- strategy of a backtest, the order in which Go visits a map, and the handlers of events. The tests
-- instantiate them with concrete functions.
--
-- Not modelled: the command line and the terminal interface, storage and files, HTTP and websocket
-- clients, encryption, and WASM strategies, which are I/O or calls of libraries; the strategy
-- builder, the vault and the validation of the configuration. Of the modelled packages: the memory
-- limit, the tickers of the workers, metrics, the subscription to stream events, and the equity of
-- an account.
pub mod AgentService
pub mod Backtest
pub mod Base
pub mod CircuitBreaker
pub mod Engine
pub mod Entity
pub mod Events
pub mod Jobs
pub mod Journal
pub mod License
pub mod Orders
pub mod Paper
pub mod Reconciliation
pub mod Risk
pub mod Router
pub mod Runtime
pub mod TradingGate

-- ===== src/Lib.antt =====
-- A model of the Alula liquidation keeper, a bot that watches the lending markets of a contract on
-- Stellar, liquidates the obligations that fall under their rules, and takes its own deposits out of
-- pools. The repository has two crates: `engine` holds the protocol's arithmetic with no input or
-- output, and `keeper` holds the strategies, which read a market's snapshot and an obligation through
-- ports, ask the engine for verdicts, reserve capital, and emit transactions for an executor.
--
-- Which file models which part (the children of a file are the proofs about it):
-- - Prelude: shared names. Prelude/Outcome is the result of a Rust call: a value, `LendingModelError`
--   (engine/src/lending_model/error.rs), or a panic; every Cargo profile keeps `overflow-checks`, so a
--   plain operator that leaves its type panics. Prelude/Int is `i128` with the checked, saturating and
--   plain operators, as sign and magnitude over the native numbers, and its range.
-- - Amount: engine/src/lending_model/amount.rs. `JTokens`, `DTokens` and `Underlying` are the `i128`
--   that they wrap. Amount/Ratio gives the roundings as floor and ceiling of a ratio.
-- - Pool: engine/src/lending_model/pool.rs, `PoolData` and its methods by the same names.
-- - Profitability: engine/src/lending_model/profitability.rs.
-- - Market: engine/src/lending_model/market.rs and obligation.rs; the lookup `pool_of` is the `find` by
--   address that the callers of a snapshot share.
-- - Liquidation: engine/src/lending_model/liquidation.rs, one child per part. Health has the verdicts
--   on an obligation, Unpriced the pools that a snapshot does not price, Seize the seizure of a sweep
--   market, Pair the record `LiquidationPair` with `quote` and what it uses, Search the two loops that
--   bisect, Fit the offers (`clearing`, `largest_partial_repay`, `fit_repay`, `direct_repay`), Scan
--   `has_acceptable_liquidation` and `seizable_collateral_covers_debt`.
-- - Capital: keeper/src/liquidator_capital.rs. The mutex makes each call one step on the record
--   `CapitalInner`; the hash maps are association lists, the clock is a number.
-- - Execute: the action and the submission record of keeper/src/execute. Execute/Submit is the executor
--   of stellar_tx.rs: its attempts, the confirmation poll and the release of the reservation; the
--   loop's fuel is one more than the configured retries, which are at least the attempts.
-- - Gateway: the operation builder and the batch simulator of engine/src/ports/operation_builder.rs, as
--   a record of functions. Maps: the hash maps with text keys, as association lists.
-- - Withdrawer: keeper/src/strategy/withdrawer.rs, with the events of
--   engine/src/ports/operation_event.rs.
-- - BadDebt: keeper/src/strategy/bad_debt_request_initiator.rs; `request_on_new_ledger` and
--   `request_on_event` are its `handle_new_ledger` and `handle_soroban_event`, and `Sweep` carries the
--   actions together with the cached rows that are deleted.
-- - World: what an asynchronous step of a strategy runs in. A computation takes the shared capital and
--   the number of questions asked so far to a value, to nothing (an early `return None`) or to a panic.
--   Each answer of the clock, the random numbers and the ledger depends on the question's number, and
--   the other tasks may change the shared capital during every awaited one (`meanwhile`).
-- - Liquidator: keeper/src/strategy/liquidator.rs, one child per part. Quotes asks the swap providers,
--   Plans has the plans of the three kinds, Build the sizing of a pair and the choice
--   (`build_liquidation_plan_for_asset_pool_pair`), Dispatch the batch requests, the simulation, the
--   reservation and the action, Evaluate the scan of a market's obligations, Cache the market views,
--   the cached obligations, the events (`handle_soroban_event` as `liquidator_on_event`) and the step
--   on a new ledger (`handle_new_ledger` as `liquidate_on_new_ledger`). The calls of the two
--   repositories are recorded in the state; one of the obligations' database may fail. A pool's address stands for its token's in the batch and
--   in the reservation, as the code's comments say that it relies on.
-- - Balancer: keeper/src/strategy/balancer.rs. Impact compares a quote with the oracle's price, Value
--   is the worth of an amount, the file itself has the probes, the swap and the handlers
--   (`handle_new_ledger` as `rebalance_on_new_ledger`, `handle_soroban_event` as
--   `rebalance_on_event`).
-- - Reactor: engine/src/reactor/mod.rs. `run` starts the tasks, and `Step` is what one task does next: a
--   collector's event, a strategy's or an executor's next message, a notice that messages were dropped,
--   or the next action sent. The tasks carry the history of what they handled, sent and executed.
--   Reactor/Channels states what is relied on of a broadcast channel, and Reactor/Alone is a strategy on
--   its own with a sequence of events.
-- - Tests: concrete pools, an obligation, a strategy, and the theorems applied to them.
--
-- Loops over lists are structural recursion. The two bisecting loops of `liquidation.rs` take 128
-- rounds of fuel, and running out of it is a panic: a range within `i128` has less than 2^127 numbers
-- and each round halves it. `for` loops that return early are functions whose next call is bound
-- first. Where a `?` or an early return stands in the middle of a function, what follows it is a `let`
-- or a function of its own.
--
-- Not modelled: log lines and metrics; the ports, whose methods are parameters; the remote client,
-- the encodings, the database and the configuration, which are calls of libraries; and the end of the
-- reactor's tasks when a channel is closed.
pub mod Prelude
pub mod Amount
pub mod Pool
pub mod Profitability
pub mod Market
pub mod Liquidation
pub mod Capital
pub mod World
pub mod Execute
pub mod Withdrawer
pub mod Liquidator
pub mod BadDebt
pub mod Tests
pub mod Gateway
pub mod Maps
pub mod Balancer
pub mod Reactor

-- ===== src/Reactor.antt =====
-- The reactor (engine/src/reactor/mod.rs and traits.rs): collectors send events to every strategy, and
-- strategies send actions to every executor, over two broadcast channels. Each component is a task, and
-- a step is what one task does between two points where another may run. The channels are a parameter;
-- a receiver that lags behind loses messages, which `lagged` stands for.
pub mod Channels
pub mod Tracks
pub mod Alone
pub mod History
pub mod Started
use alula_liquidator.Prelude.{
  ℕ, zero, suc, ◌≡◌, Bool, true, false, Option, some, none, List, [], ◌∷◌, ◌++◌,
}

-- What `recv` gives: a message, or the notice that some were dropped.
pub data Received (X : Type 0) (Q : Type 0) : Type 0 where
  got : X → Q → Received X Q
  lagged : Q → Received X Q

-- One receiver's view of a broadcast channel.
pub record Channel (X : Type 0) (Q : Type 0) : Type 0 where
  pub subscribed : Q
  pub send : X → Q → Q
  pub recv : Q → Option (Received X Q)

-- A task of a strategy: its state, its receiver, and the actions that it is still to send; and, as its
-- history, the state after `sync_state`, the events that it handled and the actions that it sent, the
-- first of them first, and whether it was ever told that it missed some.
pub record StrategyTask (S Q E A : Type 0) : Type 0 where
  pub state : S
  pub queue : Q
  pub outbox : List A
  pub synced : S
  pub handled : List E
  pub sent : List A
  pub missed : Bool

-- A task of an executor: its receiver, and the history of what it executed.
pub record ExecutorTask (Q A : Type 0) : Type 0 where
  pub queue : Q
  pub performed : List A
  pub missed : Bool

-- The tasks, and the history of the two channels, the first message first.
pub record Reactor (E A S QE QA : Type 0) : Type 0 where
  pub strategies : List (StrategyTask S QE E A)
  pub executors : List (ExecutorTask QA A)
  pub collected : List E
  pub sent : List A

-- One element of a list became another.
pub data Replaced {T : Type 0} (x y : T) : List T → List T → Type 0 where
  here : (l : List T) → Replaced x y (x ∷ l) (y ∷ l)
  there : {l m : List T} (z : T) → Replaced x y l m → Replaced x y (z ∷ l) (z ∷ m)

-- `subscribe()`, once for each executor.
unfoldable pub subscribers : {A Q : Type 0} → Channel A Q → ℕ → List (ExecutorTask Q A)
subscribers channel zero = []
subscribers channel (suc n) =
    record { queue = channel.subscribed; performed = []; missed = false } ∷ subscribers channel n

-- `Sender::send`: every receiver gets the message.
unfoldable pub broadcast :
    {A Q : Type 0} → Channel A Q → A → List (ExecutorTask Q A) → List (ExecutorTask Q A)
broadcast actions a [] = []
broadcast actions a (x ∷ rest) =
    record x { queue = actions.send a x.queue } ∷ broadcast actions a rest

unfoldable pub deliver :
    {E A S Q : Type 0} → Channel E Q → E → List (StrategyTask S Q E A) → List (StrategyTask S Q E A)
deliver events e [] = []
deliver events e (t ∷ rest) = record t { queue = events.send e t.queue } ∷ deliver events e rest

module _ {E A S QE QA : Type 0} (events : Channel E QE) (actions : Channel A QA) where
  -- `sync_state()?` on each strategy.
  unfoldable pub start_strategies : List (Option S) → Option (List (StrategyTask S QE E A))
  start_strategies [] = some []
  start_strategies (none ∷ rest) = none
  start_strategies (some state ∷ rest) = elim (start_strategies rest) [
    | none ↦ none
    | some tasks ↦ some (
        record {
          state = state;
          queue = events.subscribed;
          outbox = [];
          synced = state;
          handled = [];
          sent = [];
          missed = false;
        }
        ∷ tasks)
  ]

  -- `Engine::run`, with what each strategy's `sync_state` made of its state and the number of executors.
  unfoldable pub run : List (Option S) → ℕ → Option (Reactor E A S QE QA)
  run synced executors = elim (start_strategies synced) [
    | none ↦ none
    | some tasks ↦ some (record {
      strategies = tasks;
      executors = subscribers actions executors;
      collected = [];
      sent = [];
    })
  ]

  module _ (process_event : S → E → List A × S) where
    -- The task after an event was received.
    abbrev processed : StrategyTask S QE E A → E → QE → StrategyTask S QE E A
    processed t e queue = record t {
      state = (process_event t.state e).1;
      queue = queue;
      outbox = (process_event t.state e).0;
      handled = t.handled ++ e ∷ [];
    }

    pub data Step (r : Reactor E A S QE QA) : Reactor E A S QE QA → Type 0 where
      collect :
          (e : E)
          → Step r (record r {
            strategies = deliver events e r.strategies;
            collected = r.collected ++ e ∷ [];
          })
      process :
          {t : StrategyTask S QE E A} {e : E} {queue : QE} {tasks : List (StrategyTask S QE E A)}
          → t.outbox ≡ []
          → events.recv t.queue ≡ some (got e queue)
          → Replaced t (processed t e queue) r.strategies tasks
          → Step r (record r { strategies = tasks })
      miss :
          {t : StrategyTask S QE E A} {queue : QE} {tasks : List (StrategyTask S QE E A)}
          → events.recv t.queue ≡ some (lagged queue)
          → Replaced t (record t { queue = queue; missed = true }) r.strategies tasks
          → Step r (record r { strategies = tasks })
      emit :
          {t : StrategyTask S QE E A} {a : A} {rest : List A} {tasks : List (StrategyTask S QE E A)}
          → t.outbox ≡ a ∷ rest
          → Replaced t (record t { outbox = rest; sent = t.sent ++ a ∷ [] }) r.strategies tasks
          → Step r (record r {
            strategies = tasks;
            executors = broadcast actions a r.executors;
            sent = r.sent ++ a ∷ [];
          })
      perform :
          {x : ExecutorTask QA A} {queue : QA} {a : A} {tasks : List (ExecutorTask QA A)}
          → actions.recv x.queue ≡ some (got a queue)
          → Replaced x
              (record x { queue = queue; performed = x.performed ++ a ∷ [] })
              r.executors
              tasks
          → Step r (record r { executors = tasks })
      skip :
          {x : ExecutorTask QA A} {queue : QA} {tasks : List (ExecutorTask QA A)}
          → actions.recv x.queue ≡ some (lagged queue)
          → Replaced x (record x { queue = queue; missed = true }) r.executors tasks
          → Step r (record r { executors = tasks })

    -- The states that a run reaches.
    pub data Reach (start : Reactor E A S QE QA) : Reactor E A S QE QA → Type 0 where
      begin : Reach start start
      next : {r s : Reactor E A S QE QA} → Reach start r → Step r s → Reach start s

-- ===== src/Reactor/Started.antt =====
-- The reactor from its start on (`Engine::run` of engine/src/reactor/mod.rs).
use alula_liquidator.Prelude.{◌≡◌, false, Option, some, List, [], In, map}
use alula_liquidator.Reactor.{Channel, StrategyTask, Reactor}
use alula_liquidator.Reactor.Channels.{IsChannel}

module _ {E A S QE QA : Type 0} (events : Channel E QE) (actions : Channel A QA)
    (process_event : S → E → List A × S) (event_laws : IsChannel events)
    (action_laws : IsChannel actions) where
  abbrev fresh_task : S → StrategyTask S QE E A
  fresh_task state = record {
    state = state;
    queue = events.subscribed;
    outbox = [];
    synced = state;
    handled = [];
    sent = [];
    missed = false;
  }

  -- The tasks are those of the synced states, each freshly started.
  AllFresh : List (Option S) → List (StrategyTask S QE E A) → Type 0
  AllFresh synced tasks =
      (map (λ t. some t.synced) tasks ≡ synced)
      × ((t : StrategyTask S QE E A) → In t tasks → t ≡ fresh_task t.synced)

-- ===== src/Tests/Reactions.antt =====
-- The theorem on the reactor, on a run of one strategy and one executor over plain queues.
use alula_liquidator.Prelude.{ℕ, suc, ◌+◌, false, Option, some, none, List, [], ◌∷◌, ◌++◌}
use alula_liquidator.Reactor.{Received, got, Channel, Reactor}

abbrev received : List ℕ → Option (Received ℕ (List ℕ))
received [] = none
received (x ∷ xs) = some (got x xs)

abbrev fifo : Channel ℕ (List ℕ)
fifo = record { subscribed = []; send = λ x q. q ++ x ∷ []; recv = received }

-- The state counts the events, and is added to each of them.
abbrev process_event : ℕ → ℕ → List ℕ × ℕ
process_event s e = ((s + e) ∷ [], suc s)

abbrev state_of :
    (state : ℕ)
    → (queue outbox handled emitted incoming performed collected sent : List ℕ)
    → Reactor ℕ ℕ ℕ (List ℕ) (List ℕ)
state_of state queue outbox handled emitted incoming performed collected sent = record {
  strategies =
      record {
        state = state;
        queue = queue;
        outbox = outbox;
        synced = 2;
        handled = handled;
        sent = emitted;
        missed = false;
      }
      ∷ [];
  executors = record { queue = incoming; performed = performed; missed = false } ∷ [];
  collected = collected;
  sent = sent;
}

abbrev ended : Reactor ℕ ℕ ℕ (List ℕ) (List ℕ)
ended = state_of 3 [] [] (5 ∷ []) (7 ∷ []) [] (7 ∷ []) (5 ∷ []) (7 ∷ [])

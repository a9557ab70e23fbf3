-- ===== src/Reactor/History.antt =====
-- What every reachable state of the reactor keeps, step by step (engine/src/reactor/mod.rs).
use mathlib.Core.List.{append_assoc, append-nil}
use alula_liquidator.Prelude.{
  ℕ, ◌≡◌, refl, sym, subst, ap, ◌∙◌, inl, inr, Option, some, List, [], ◌∷◌, ◌++◌, In, length, map,
}
use alula_liquidator.Reactor.{
  Channel, StrategyTask, ExecutorTask, Reactor, processed, Step, collect, process, miss, emit,
  perform, skip, Reach, begin, next,
}
use alula_liquidator.Reactor.Alone.{state_after, outputs, state_after-snoc, outputs-snoc}
use alula_liquidator.Reactor.Tracks.{
  Within, Within-more, Within-both, Tracks, Tracks-send, Tracks-take, Tracks-miss,
}
use alula_liquidator.Reactor.Channels.{
  IsChannel, Replaced-In, Replaced-from, Replaced-map, Replaced-length, broadcast-from,
  length-broadcast, deliver-from, synced-deliver,
}

module _ {E A S QE QA : Type 0} (events : Channel E QE) (actions : Channel A QA)
    (process_event : S → E → List A × S) (event_laws : IsChannel events)
    (action_laws : IsChannel actions) where
  -- A strategy's task has handled what was collected, in order, less what it missed; its state, and what
  -- it sent and is still to send, are those of the strategy alone on the events that it handled.
  pub record IsFaithful (collected : List E) (sent : List A) (t : StrategyTask S QE E A)
      : Type 0 where
    pub state_is : t.state ≡ state_after process_event t.synced t.handled
    pub outbox_is : t.sent ++ t.outbox ≡ outputs process_event t.synced t.handled
    pub tracks : Tracks t.handled (event_laws.waiting t.queue) collected t.missed
    pub in_order : Within t.sent sent

  abbrev pub Performs : List A → ExecutorTask QA A → Type 0
  Performs sent x = Tracks x.performed (action_laws.waiting x.queue) sent x.missed

  pub record IsConsistent (synced : List (Option S)) (executors : ℕ) (r : Reactor E A S QE QA)
      : Type 0 where
    pub strategies_are : map (λ t. some t.synced) r.strategies ≡ synced
    pub executors_are : length r.executors ≡ executors
    pub faithful : (t : StrategyTask S QE E A) → In t r.strategies → IsFaithful r.collected r.sent t
    pub performs : (x : ExecutorTask QA A) → In x r.executors → Performs r.sent x

  IsFaithful-collect :
      (collected : List E) (sent : List A) (t : StrategyTask S QE E A) (e : E)
      → IsFaithful collected sent t
      → IsFaithful (collected ++ e ∷ []) sent (record t { queue = events.send e t.queue })
  IsFaithful-collect collected sent t e h = record {
    state_is = h.state_is;
    outbox_is = h.outbox_is;
    tracks =
        Tracks-send t.handled (event_laws.waiting t.queue)
          (event_laws.waiting (events.send e t.queue)) collected t.missed e
          (event_laws.send_waits e t.queue) h.tracks;
    in_order = h.in_order;
  }

  IsFaithful-process :
      (collected : List E) (sent : List A) (t : StrategyTask S QE E A) (e : E) (queue : QE)
      → t.outbox ≡ []
      → event_laws.waiting t.queue ≡ e ∷ event_laws.waiting queue
      → IsFaithful collected sent t
      → IsFaithful collected sent (processed events actions process_event t e queue)
  IsFaithful-process collected sent t e queue empty takes h =
      let before = state_after process_event t.synced t.handled in
      let all_sent : t.sent ≡ outputs process_event t.synced t.handled =
        sym (append-nil t.sent) ∙ ap (λ z. t.sent ++ z) (sym empty) ∙ h.outbox_is in
      record {
        state_is =
            ap (λ z. (process_event z e).1) h.state_is
            ∙ sym (state_after-snoc process_event t.synced t.handled e);
        outbox_is =
            ap (λ z. z ++ (process_event t.state e).0) all_sent
            ∙ ap (λ z. outputs process_event t.synced t.handled ++ (process_event z e).0) h.state_is
            ∙ sym (outputs-snoc process_event t.synced t.handled e);
        tracks =
            Tracks-take t.handled (event_laws.waiting t.queue) (event_laws.waiting queue) collected
              t.missed e takes h.tracks;
        in_order = h.in_order;
      }

  IsFaithful-emit :
      (collected : List E) (sent : List A) (t : StrategyTask S QE E A) (a : A) (rest : List A)
      → t.outbox ≡ a ∷ rest
      → IsFaithful collected sent t
      → IsFaithful collected (sent ++ a ∷ []) (record t { outbox = rest; sent = t.sent ++ a ∷ [] })
  IsFaithful-emit collected sent t a rest head h = record {
    state_is = h.state_is;
    outbox_is = append_assoc t.sent (a ∷ []) rest ∙ ap (λ z. t.sent ++ z) (sym head) ∙ h.outbox_is;
    tracks = h.tracks;
    in_order = Within-both t.sent sent a h.in_order;
  }

  IsFaithful-later :
      (collected : List E) (sent : List A) (t : StrategyTask S QE E A) (a : A)
      → IsFaithful collected sent t
      → IsFaithful collected (sent ++ a ∷ []) t
  IsFaithful-later collected sent t a h = record {
    state_is = h.state_is;
    outbox_is = h.outbox_is;
    tracks = h.tracks;
    in_order = Within-more t.sent sent a h.in_order;
  }

  Step-IsConsistent :
      {synced : List (Option S)} {executors : ℕ} {r s : Reactor E A S QE QA}
      → Step events actions process_event r s
      → IsConsistent synced executors r
      → IsConsistent synced executors s
  Step-IsConsistent {r = r} (collect e) h = record {
    strategies_are = synced-deliver events e r.strategies ∙ h.strategies_are;
    executors_are = h.executors_are;
    faithful = λ t i.
        let (p, j, same) = deliver-from events e r.strategies t i in
        subst (IsFaithful (r.collected ++ e ∷ []) r.sent) (sym same)
          (IsFaithful-collect r.collected r.sent p e (h.faithful p j));
    performs = h.performs;
  }
  Step-IsConsistent {r = r} (process {t} {e} {queue} {tasks} empty received replaced) h = record {
    strategies_are =
        Replaced-map (λ (u : StrategyTask S QE E A). some u.synced) refl replaced
        ∙ h.strategies_are;
    executors_are = h.executors_are;
    faithful = λ u i. elim (Replaced-from replaced u i) [
      | inl j ↦ h.faithful u j
      | inr same ↦ subst (IsFaithful r.collected r.sent) (sym same) (
          IsFaithful-process r.collected r.sent t e queue empty
            (event_laws.got_waits e t.queue queue received) (h.faithful t (Replaced-In replaced)))
    ];
    performs = h.performs;
  }
  Step-IsConsistent {r = r} (miss {t} {queue} {tasks} received replaced) h =
      let old = h.faithful t (Replaced-In replaced) in
      let lost = event_laws.lagged_waits t.queue queue received in
      record {
        strategies_are =
            Replaced-map (λ (u : StrategyTask S QE E A). some u.synced) refl replaced
            ∙ h.strategies_are;
        executors_are = h.executors_are;
        faithful = λ u i. elim (Replaced-from replaced u i) [
          | inl j ↦ h.faithful u j
          | inr same ↦ subst (IsFaithful r.collected r.sent) (sym same) (record {
            state_is = old.state_is;
            outbox_is = old.outbox_is;
            tracks =
                Tracks-miss t.handled (event_laws.waiting t.queue) lost.0 (event_laws.waiting queue)
                  r.collected t.missed lost.1 old.tracks;
            in_order = old.in_order;
          })
        ];
        performs = h.performs;
      }
  Step-IsConsistent {r = r} (emit {t} {a} {rest} {tasks} head replaced) h = record {
    strategies_are =
        Replaced-map (λ (u : StrategyTask S QE E A). some u.synced) refl replaced
        ∙ h.strategies_are;
    executors_are = length-broadcast actions a r.executors ∙ h.executors_are;
    faithful = λ u i. elim (Replaced-from replaced u i) [
      | inl j ↦ IsFaithful-later r.collected r.sent u a (h.faithful u j)
      | inr same ↦
          subst (IsFaithful r.collected (r.sent ++ a ∷ [])) (sym same)
            (IsFaithful-emit r.collected r.sent t a rest head (h.faithful t (Replaced-In replaced)))
    ];
    performs = λ x i.
        let (y, j, same) = broadcast-from actions a r.executors x i in
        subst (Performs (r.sent ++ a ∷ [])) (sym same) (
          Tracks-send y.performed (action_laws.waiting y.queue)
            (action_laws.waiting (actions.send a y.queue)) r.sent y.missed a
            (action_laws.send_waits a y.queue) (h.performs y j));
  }
  Step-IsConsistent {r = r} (perform {x} {queue} {a} {tasks} received replaced) h = record {
    strategies_are = h.strategies_are;
    executors_are = Replaced-length replaced ∙ h.executors_are;
    faithful = h.faithful;
    performs = λ y i. elim (Replaced-from replaced y i) [
      | inl j ↦ h.performs y j
      | inr same ↦ subst (Performs r.sent) (sym same) (
          Tracks-take x.performed (action_laws.waiting x.queue) (action_laws.waiting queue) r.sent
            x.missed a (action_laws.got_waits a x.queue queue received)
            (h.performs x (Replaced-In replaced)))
    ];
  }
  Step-IsConsistent {r = r} (skip {x} {queue} {tasks} received replaced) h =
      let lost = action_laws.lagged_waits x.queue queue received in
      record {
        strategies_are = h.strategies_are;
        executors_are = Replaced-length replaced ∙ h.executors_are;
        faithful = h.faithful;
        performs = λ y i. elim (Replaced-from replaced y i) [
          | inl j ↦ h.performs y j
          | inr same ↦ subst (Performs r.sent) (sym same) (
              Tracks-miss x.performed (action_laws.waiting x.queue) lost.0
                (action_laws.waiting queue) r.sent x.missed lost.1
                (h.performs x (Replaced-In replaced)))
        ];
      }

  pub Reach-IsConsistent :
      {synced : List (Option S)} {executors : ℕ} {r s : Reactor E A S QE QA}
      → IsConsistent synced executors r
      → Reach events actions process_event r s
      → IsConsistent synced executors s
  Reach-IsConsistent h begin = h
  Reach-IsConsistent h (next path step) = Step-IsConsistent step (Reach-IsConsistent h path)

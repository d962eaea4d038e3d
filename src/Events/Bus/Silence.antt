-- ===== src/Events/Bus/Silence.antt =====
-- What a closed bus still hands to NATS.
use net_graphy.Prelude.{
  ℕ, ◌≡◌, refl, Bool, true, false, not, ◌&&◌, ◌||◌, List, [], ◌∷◌, ◌++◌, arith, Bool-cases, inl,
  inr, false≢true, sym, append_assoc,
}
use net_graphy.Prelude.Dict.{Dict}
use net_graphy.Glob.{fnmatch}
use net_graphy.Events.Bus.{
  Event, Outside, Effect, closed, drain_error, published, EventBus, call_handlers, dispatch_local,
  send, publish, subscribe, close, on_disconnected, on_reconnected, on_closed, subscribe_jetstream,
  unsubscribe_all,
}
use net_graphy.Events.Bus.Lifecycle.{
  Op, op_connect, op_close, op_disconnected, op_reconnected, op_closed, op_publish, op_subscribe,
  op_subscribe_jetstream, perform, run,
}

module _ {H : Type 0} where
  abbrev pub is_connect : Op H → Bool
  is_connect (op_connect url) = true
  is_connect _ = false

  -- The events that effects hand to NATS.
  abbrev sent_event : Effect H → List Event
  sent_event (published subject headers e) = e ∷ []
  sent_event _ = []

  abbrev pub sent_events : List (Effect H) → List Event
  sent_events [] = []
  sent_events (e ∷ es) = sent_event e ++ sent_events es

  sent-append :
      (xs ys : List (Effect H)) → sent_events (xs ++ ys) ≡ sent_events xs ++ sent_events ys
  sent-append [] ys = refl
  sent-append (x ∷ xs) ys =
      rw (append_assoc (sent_event x) (sent_events xs) (sent_events ys), sent-append xs ys)

  sent-call_handlers :
      (o : Outside H) (e : Event) (hs : List H) → sent_events (call_handlers o e hs) ≡ []
  unfolding call_handlers
  sent-call_handlers o e [] = refl
  sent-call_handlers o e (h ∷ hs) = elim (Bool-cases (o.fails h e)) [
    | inl f ↦ rw (f, sent-call_handlers o e hs)
    | inr f ↦ rw (f, sent-call_handlers o e hs)
  ]

  sent-dispatch_local :
      (o : Outside H) (e : Event) (subs : Dict (List H))
      → sent_events (dispatch_local o e subs) ≡ []
  unfolding dispatch_local
  sent-dispatch_local o e [] = refl
  sent-dispatch_local o e ((p, hs) ∷ subs) = elim (Bool-cases (fnmatch e.event_type p)) [
    | inl f ↦ rw (
      f,
      sent-append (call_handlers o e hs) (dispatch_local o e subs),
      sent-call_handlers o e hs,
      sent-dispatch_local o e subs,
    )
    | inr f ↦ rw (f, sent-dispatch_local o e subs)
  ]

  sent-unsubscribe_all :
      (subs : List ℕ) (xs : List (Effect H))
      → sent_events (unsubscribe_all subs ++ xs) ≡ sent_events xs
  unfolding unsubscribe_all
  sent-unsubscribe_all [] xs = refl
  sent-unsubscribe_all (n ∷ ns) xs = sent-unsubscribe_all ns xs

  -- Without a JetStream context an operation hands nothing to NATS, and leaves the bus without one.
  abbrev IsSilent : EventBus H × List (Effect H) → Type 0
  IsSilent (after, effects) = (after.js ≡ false) × (sent_events effects ≡ [])

  send-IsSilent :
      (o : Outside H) (bus : EventBus H) (e : Event) → bus.js ≡ false → IsSilent (send o bus e)
  unfolding send
  send-IsSilent o bus e off = elim (Bool-cases (bus.is_connected && bus.js)) [
    | inl up ↦ ground arith
    | inr down ↦ elim (Bool-cases bus.warned_disconnected) [
      | inl warned ↦ rw (down, warned) (off, refl)
      | inr first ↦ rw (down, first) (off, refl)
    ]
  ]

  publish-IsSilent :
      (o : Outside H) (bus : EventBus H) (e : Event) → bus.js ≡ false → IsSilent (publish o bus e)
  unfolding publish
  publish-IsSilent o bus e off =
      let (after, sent) = send o bus e in
      let (still, nothing) = send-IsSilent o bus e off in
      (
        still,
        rw (
          sent-append sent (dispatch_local o e after.subscribers),
          nothing,
          sent-dispatch_local o e after.subscribers,
        ),
      )

  close-IsSilent : (o : Outside H) (bus : EventBus H) → bus.js ≡ false → IsSilent (close o bus)
  unfolding close
  close-IsSilent o bus off =
      let none_left = sent-unsubscribe_all bus.js_subscriptions in
      elim (Bool-cases (bus.nc && not o.is_closed)) [
        | inl live ↦ elim (Bool-cases o.drains) [
          | inl d ↦ rw (live, d) (refl, none_left (closed ∷ []))
          | inr d ↦ rw (live, d) (refl, none_left (drain_error ∷ closed ∷ []))
        ]
        | inr dead ↦ rw dead (off, none_left (closed ∷ []))
      ]

  perform-IsSilent :
      (o : Outside H) (op : Op H) (bus : EventBus H)
      → is_connect op ≡ false
      → bus.js ≡ false
      → IsSilent (perform o op bus)
  unfolding perform subscribe on_disconnected on_reconnected on_closed subscribe_jetstream
  perform-IsSilent o (op_connect url) bus n off = absurd (false≢true (sym n))
  perform-IsSilent o op_close bus n off = close-IsSilent o bus off
  perform-IsSilent o op_disconnected bus n off = (off, refl)
  perform-IsSilent o op_reconnected bus n off = (off, refl)
  perform-IsSilent o op_closed bus n off = (off, refl)
  perform-IsSilent o (op_publish e) bus n off = publish-IsSilent o bus e off
  perform-IsSilent o (op_subscribe p h) bus n off = (off, refl)
  perform-IsSilent o (op_subscribe_jetstream k) bus n off =
      elim (Bool-cases (bus.is_connected && bus.js)) [
        | inl up ↦ ground arith
        | inr down ↦ rw down (off, refl)
      ]

  abbrev pub connects_again : List (Outside H × Op H) → Bool
  connects_again [] = false
  connects_again ((o, op) ∷ ops) = is_connect op || connects_again ops

  run-IsSilent :
      (ops : List (Outside H × Op H)) (bus : EventBus H)
      → connects_again ops ≡ false
      → bus.js ≡ false
      → IsSilent (run ops bus)
  unfolding run
  run-IsSilent [] bus n off = (off, refl)
  run-IsSilent ((o, op) ∷ ops) bus n off =
      let (next, here) = perform o op bus in
      let (still, nothing) = perform-IsSilent o op bus (ground arith) off in
      let (last, rest) = run-IsSilent ops next (ground arith) still in
      (last, rw (sent-append here (run ops next).1, nothing, rest))

  -- Once the bus is closed on a client that is still open, it hands no event to NATS until `connect`
  -- is called again, whatever is published and whichever callbacks of the client come late.
  pub closed_is_silent :
      (o : Outside H) (bus : EventBus H) (ops : List (Outside H × Op H))
      → bus.nc ≡ true
      → o.is_closed ≡ false
      → connects_again ops ≡ false
      → sent_events (run ops (close o bus).0).1 ≡ []
  closed_is_silent o bus ops live still n =
      (run-IsSilent ops (close o bus).0 n (unfold close in rw (live, still) refl)).1

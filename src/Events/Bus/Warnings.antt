-- ===== src/Events/Bus/Warnings.antt =====
-- The warning of local dispatch over a run of the bus.
use net_graphy.Prelude.{
  ℕ, ◌+◌, String, ◌≡◌, refl, Bool, not, ◌&&◌, List, [], ◌∷◌, ◌++◌, arith, if◌then◌else◌, Bool-cases,
  inl, inr,
}
use net_graphy.Prelude.Dict.{Dict}
use net_graphy.Glob.{fnmatch}
use net_graphy.Events.Bus.{
  Event, Outside, Effect, closed, drain_error, local_only, EventBus, call_handlers, dispatch_local,
  send, publish, subscribe, connect, close, on_disconnected, on_reconnected, on_closed,
  subscribe_jetstream, ensure_each, ensure_streams, unsubscribe_all, stream_configs, StreamConfig,
  event_to_subject,
}
use net_graphy.Events.Bus.Lifecycle.{
  Op, op_connect, op_close, op_disconnected, op_reconnected, op_closed, op_publish, op_subscribe,
  op_subscribe_jetstream, or_same, perform, run,
}

abbrev pub flag : Bool → ℕ
flag b = if b then 1 else 0

module _ {H : Type 0} where
  -- How often effects warn that the bus dispatches locally only.
  abbrev pub warns : Effect H → ℕ
  warns local_only = 1
  warns _ = 0

  abbrev pub warnings : List (Effect H) → ℕ
  warnings [] = 0
  warnings (e ∷ es) = warns e + warnings es

  warnings-append : (xs ys : List (Effect H)) → warnings (xs ++ ys) ≡ warnings xs + warnings ys
  warnings-append [] ys = omega arith
  warnings-append (x ∷ xs) ys = omega (arith, warnings-append xs ys)

  warnings-call_handlers :
      (o : Outside H) (e : Event) (hs : List H) → warnings (call_handlers o e hs) ≡ 0
  unfolding call_handlers
  warnings-call_handlers o e [] = refl
  warnings-call_handlers o e (h ∷ hs) = elim (Bool-cases (o.fails h e)) [
    | inl f ↦ rw f (omega (arith, warnings-call_handlers o e hs))
    | inr f ↦ rw f (omega (arith, warnings-call_handlers o e hs))
  ]

  warnings-dispatch_local :
      (o : Outside H) (e : Event) (subs : Dict (List H)) → warnings (dispatch_local o e subs) ≡ 0
  unfolding dispatch_local
  warnings-dispatch_local o e [] = refl
  warnings-dispatch_local o e ((p, hs) ∷ subs) = elim (Bool-cases (fnmatch e.event_type p)) [
    | inl f ↦ rw f (
        omega (
          arith,
          warnings-append (call_handlers o e hs) (dispatch_local o e subs),
          warnings-call_handlers o e hs,
          warnings-dispatch_local o e subs,
        ))
    | inr f ↦ rw (f, warnings-dispatch_local o e subs)
  ]

  warnings-unsubscribe_all :
      (subs : List ℕ) (xs : List (Effect H)) → warnings (unsubscribe_all subs ++ xs) ≡ warnings xs
  unfolding unsubscribe_all
  warnings-unsubscribe_all [] xs = refl
  warnings-unsubscribe_all (n ∷ ns) xs = omega (arith, warnings-unsubscribe_all ns xs)

  warnings-ensure_each :
      (o : Outside H) (cfgs : List StreamConfig) → warnings (ensure_each o cfgs) ≡ 0
  unfolding ensure_each
  warnings-ensure_each o [] = refl
  warnings-ensure_each o (c ∷ cs) = elim (Bool-cases (o.updates_stream c.name)) [
    | inl u ↦ rw u (omega (arith, warnings-ensure_each o cs))
    | inr u ↦ elim (Bool-cases (o.adds_stream c.name)) [
      | inl a ↦ rw (u, a) (omega (arith, warnings-ensure_each o cs))
      | inr a ↦ rw (u, a) (omega (arith, warnings-ensure_each o cs))
    ]
  ]

  -- The warnings of an operation are accounted for by the flag.
  abbrev Accounted : EventBus H → EventBus H × List (Effect H) → Type 0
  Accounted bus (after, effects) =
      flag bus.warned_disconnected + warnings effects ≡ flag after.warned_disconnected

  send-Accounted : (o : Outside H) (bus : EventBus H) (e : Event) → Accounted bus (send o bus e)
  unfolding send
  send-Accounted o bus e = elim (Bool-cases (bus.is_connected && bus.js)) [
    | inl up ↦ elim (Bool-cases (o.publishes (event_to_subject e) e)) [
      | inl sent ↦ rw (up, sent) (omega arith)
      | inr failed ↦ rw (up, failed) (omega arith)
    ]
    | inr down ↦ elim (Bool-cases bus.warned_disconnected) [
      | inl warned ↦ rw (down, warned) (omega arith)
      | inr first ↦ rw (down, first) (omega arith)
    ]
  ]

  publish-Accounted :
      (o : Outside H) (bus : EventBus H) (e : Event) → Accounted bus (publish o bus e)
  unfolding publish
  publish-Accounted o bus e =
      let (after, sent) = send o bus e in
      omega (
        arith,
        send-Accounted o bus e,
        warnings-append sent (dispatch_local o e after.subscribers),
        warnings-dispatch_local o e after.subscribers,
      )

  connect-Accounted :
      (o : Outside H) (bus : EventBus H) (url : String) → Accounted bus (connect o bus url)
  unfolding connect ensure_streams
  connect-Accounted o bus url = elim (Bool-cases (o.connects url)) [
    | inl up ↦ rw up (omega (arith, warnings-ensure_each o stream_configs))
    | inr down ↦ rw down (omega arith)
  ]

  close-Accounted : (o : Outside H) (bus : EventBus H) → Accounted bus (close o bus)
  unfolding close
  close-Accounted o bus =
      let none_left = warnings-unsubscribe_all bus.js_subscriptions in
      elim (Bool-cases (bus.nc && not o.is_closed)) [
        | inl live ↦ elim (Bool-cases o.drains) [
          | inl d ↦ rw (live, d) (omega (arith, none_left (closed ∷ [])))
          | inr d ↦ rw (live, d) (omega (arith, none_left (drain_error ∷ closed ∷ [])))
        ]
        | inr dead ↦ rw dead (omega (arith, none_left (closed ∷ [])))
      ]

  jetstream-Accounted :
      (bus : EventBus H) (n : ℕ) → Accounted bus (or_same bus (subscribe_jetstream bus n), [])
  unfolding subscribe_jetstream
  jetstream-Accounted bus n = elim (Bool-cases (bus.is_connected && bus.js)) [
    | inl up ↦ rw up (omega arith)
    | inr down ↦ rw down (omega arith)
  ]

  perform-Accounted :
      (o : Outside H) (op : Op H) (bus : EventBus H) → Accounted bus (perform o op bus)
  unfolding perform subscribe on_disconnected on_reconnected on_closed
  perform-Accounted o (op_connect url) bus = connect-Accounted o bus url
  perform-Accounted o op_close bus = close-Accounted o bus
  perform-Accounted o op_disconnected bus = omega arith
  perform-Accounted o op_reconnected bus = omega arith
  perform-Accounted o op_closed bus = omega arith
  perform-Accounted o (op_publish e) bus = publish-Accounted o bus e
  perform-Accounted o (op_subscribe p h) bus = omega arith
  perform-Accounted o (op_subscribe_jetstream n) bus = jetstream-Accounted bus n

  -- Over any run, with whatever answers of NATS, the bus warns of local dispatch at most once, and
  -- its flag says whether it has: the flag afterwards is the flag before and the warnings between.
  pub run_warns_once :
      (ops : List (Outside H × Op H)) (bus : EventBus H)
      → flag bus.warned_disconnected + warnings (run ops bus).1
        ≡ flag (run ops bus).0.warned_disconnected
  unfolding run
  run_warns_once [] bus = omega arith
  run_warns_once ((o, op) ∷ ops) bus =
      let next = perform o op bus in
      omega (
        arith,
        perform-Accounted o op bus,
        run_warns_once ops next.0,
        warnings-append next.1 (run ops next.0).1,
      )

-- ===== src/Events/Bus/Delivery.antt =====
-- Which handlers an event reaches.
use net_graphy.Prelude.{
  ℕ, ◌+◌, String, ◌≡◌, refl, Bool, true, false, ◌&&◌, List, [], ◌∷◌, ◌++◌, arith, if◌then◌else◌,
  append_assoc, eq_iff, sym, ap, ◌∙◌, ◌==◌, Bool-cases, inl, inr,
}
use net_graphy.Prelude.Dict.{Dict, lookup, insert}
use net_graphy.Glob.{fnmatch}
use net_graphy.Events.Bus.{
  Event, Outside, Effect, called, EventBus, call_handlers, dispatch_local, event_to_subject, send,
  publish, handlers_of, subscribe,
}

module _ {H : Type 0} where
  -- The handlers that effects call, in their order.
  abbrev pub callee : Effect H → List H
  callee (called h e) = h ∷ []
  callee _ = []

  abbrev pub calls : List (Effect H) → List H
  calls [] = []
  calls (e ∷ es) = callee e ++ calls es

  calls-append : (xs ys : List (Effect H)) → calls (xs ++ ys) ≡ calls xs ++ calls ys
  calls-append [] ys = refl
  calls-append (x ∷ xs) ys = rw (append_assoc (callee x) (calls xs) (calls ys), calls-append xs ys)

  -- The handlers of the patterns that match an event type.
  abbrev pub matching : String → Dict (List H) → List H
  matching type [] = []
  matching type ((pattern, handlers) ∷ rest) =
      (if fnmatch type pattern then handlers else []) ++ matching type rest

  -- The entries that pass a test.
  abbrev pub count : (H → Bool) → List H → ℕ
  count test [] = 0
  count test (h ∷ hs) = (if test h then 1 else 0) + count test hs

  count-append :
      (test : H → Bool) (xs ys : List H) → count test (xs ++ ys) ≡ count test xs + count test ys
  count-append test [] ys = omega arith
  count-append test (x ∷ xs) ys = omega (arith, count-append test xs ys)

  calls-call_handlers :
      (o : Outside H) (e : Event) (hs : List H) → calls (call_handlers o e hs) ≡ hs
  unfolding call_handlers
  calls-call_handlers o e [] = refl
  calls-call_handlers o e (h ∷ hs) = elim (Bool-cases (o.fails h e)) [
    | inl f ↦ rw (f, calls-call_handlers o e hs)
    | inr f ↦ rw (f, calls-call_handlers o e hs)
  ]

  calls-dispatch_local :
      (o : Outside H) (e : Event) (subs : Dict (List H))
      → calls (dispatch_local o e subs) ≡ matching e.event_type subs
  unfolding dispatch_local
  calls-dispatch_local o e [] = refl
  calls-dispatch_local o e ((p, hs) ∷ subs) = elim (Bool-cases (fnmatch e.event_type p)) [
    | inl f ↦ rw (
      f,
      calls-append (call_handlers o e hs) (dispatch_local o e subs),
      calls-call_handlers o e hs,
      calls-dispatch_local o e subs,
    )
    | inr f ↦ rw (f, calls-dispatch_local o e subs)
  ]

  send-calls :
      (o : Outside H) (bus : EventBus H) (e : Event)
      → (calls (send o bus e).1 ≡ []) × ((send o bus e).0.subscribers ≡ bus.subscribers)
  unfolding send
  send-calls o bus e = elim (Bool-cases (bus.is_connected && bus.js)) [
    | inl up ↦ elim (Bool-cases (o.publishes (event_to_subject e) e)) [
      | inl sent ↦ rw (up, sent) (refl, refl)
      | inr failed ↦ rw (up, failed) (refl, refl)
    ]
    | inr down ↦ elim (Bool-cases bus.warned_disconnected) [
      | inl warned ↦ rw (down, warned) (refl, refl)
      | inr first ↦ rw (down, first) (refl, refl)
    ]
  ]

  -- Publishing an event calls exactly the handlers whose patterns match its type, in the
  -- order of the subscribers: by pattern, and those of one pattern as they are listed there, whatever NATS answers, whether the bus is connected and whichever handlers raise.
  pub publish_delivers :
      (o : Outside H) (bus : EventBus H) (e : Event)
      → calls (publish o bus e).1 ≡ matching e.event_type bus.subscribers
  unfolding publish
  publish_delivers o bus e =
      let (quiet, same) = send-calls o bus e in
      rw (
        calls-append (send o bus e).1 (dispatch_local o e (send o bus e).0.subscribers),
        quiet,
        same,
        calls-dispatch_local o e bus.subscribers,
      )

  -- What `setdefault(p, []).append(h)` does to an entry of its key, and to any other.
  append_here :
      (p q : String) (h : H) (hs : List H) (d : Dict (List H))
      → (q == p) ≡ true
      → insert p (handlers_of (lookup p ((q, hs) ∷ d)) ++ (h ∷ [])) ((q, hs) ∷ d)
        ≡ (q, hs ++ (h ∷ [])) ∷ d
  unfolding insert lookup
  append_here p q h hs d same = rw same refl

  lookup_below :
      (p q : String) (hs : List H) (d : Dict (List H))
      → (q == p) ≡ false
      → lookup p ((q, hs) ∷ d) ≡ lookup p d
  unfolding lookup
  lookup_below p q hs d other = rw other refl

  insert_below :
      (p q : String) (hs new : List H) (d : Dict (List H))
      → (q == p) ≡ false
      → insert p new ((q, hs) ∷ d) ≡ (q, hs) ∷ insert p new d
  unfolding insert
  insert_below p q hs new d other = rw other refl

  append_below :
      (p q : String) (h : H) (hs : List H) (d : Dict (List H))
      → (q == p) ≡ false
      → insert p (handlers_of (lookup p ((q, hs) ∷ d)) ++ (h ∷ [])) ((q, hs) ∷ d)
        ≡ (q, hs) ∷ insert p (handlers_of (lookup p d) ++ (h ∷ [])) d
  append_below p q h hs d other =
      insert_below p q hs _ d other
      ∙ ap (λ x. (q, hs) ∷ insert p (handlers_of x ++ (h ∷ [])) d) (lookup_below p q hs d other)

  append_first :
      (p : String) (h : H) → insert p (handlers_of (lookup p []) ++ (h ∷ [])) [] ≡ (p, h ∷ []) ∷ []
  unfolding insert lookup
  append_first p h = refl

  count-matching-insert :
      (test : H → Bool) (type p : String) (h : H) (d : Dict (List H))
      → count test (matching type (insert p (handlers_of (lookup p d) ++ (h ∷ [])) d))
        ≡ count test (matching type d) + (if fnmatch type p && test h then 1 else 0)
  count-matching-insert test type p h [] = elim (Bool-cases (fnmatch type p)) [
    | inl m ↦ rw (append_first p h, m) (omega arith)
    | inr m ↦ rw (append_first p h, m) (omega arith)
  ]
  count-matching-insert test type p h ((q, hs) ∷ d) = elim (Bool-cases (q == p)) [
    | inl same ↦ rw (append_here p q h hs d same) (at_this_key (sym ((eq_iff q p).0 same)))
    | inr other ↦
        rw (append_below p q h hs d other)
          (further (fnmatch type q) (count-matching-insert test type p h d))
  ]
    where
      at_this_key :
          p ≡ q
          → count test ((if fnmatch type q then hs ++ (h ∷ []) else []) ++ matching type d)
            ≡ count test ((if fnmatch type q then hs else []) ++ matching type d)
              + (if fnmatch type p && test h then 1 else 0)
      at_this_key e = rw e (elim (Bool-cases (fnmatch type q)) [
        | inl m ↦ rw m (
            omega (
              arith,
              count-append test (hs ++ (h ∷ [])) (matching type d),
              count-append test hs (h ∷ []),
              count-append test hs (matching type d),
            ))
        | inr m ↦ rw m (omega arith)
      ])

      further :
          (b : Bool)
          → count test (matching type (insert p (handlers_of (lookup p d) ++ (h ∷ [])) d))
            ≡ count test (matching type d) + (if fnmatch type p && test h then 1 else 0)
          → count test (
              (if b then hs else [])
              ++ matching type (insert p (handlers_of (lookup p d) ++ (h ∷ [])) d))
            ≡ count test ((if b then hs else []) ++ matching type d)
              + (if fnmatch type p && test h then 1 else 0)
      further b below =
          let shown = if b then hs else [] in
          omega (
            arith,
            count-append test shown
                (matching type (insert p (handlers_of (lookup p d) ++ (h ∷ [])) d)),
            count-append test shown (matching type d),
            below,
          )

  -- After `subscribe`, an event that matches the pattern calls the new handler once more than before,
  -- and every other handler as often as before.
  pub publish-subscribe :
      (test : H → Bool) (o : Outside H) (bus : EventBus H) (p : String) (h : H) (e : Event)
      → count test (calls (publish o (subscribe bus p h).0 e).1)
        ≡ count test (calls (publish o bus e).1)
          + (if fnmatch e.event_type p && test h then 1 else 0)
  publish-subscribe test o bus p h e =
      rw (publish_delivers o bus e, publish_delivers o (subscribe bus p h).0 e)
        (unfold subscribe in count-matching-insert test e.event_type p h bus.subscribers)

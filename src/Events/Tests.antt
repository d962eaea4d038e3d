-- ===== src/Events/Tests.antt =====
-- The bus at concrete events, handlers that are numbers, and answers of NATS.
use net_graphy.Prelude.{
  ℕ, ◌+◌, ◌≡◌, refl, true, false, ◌&&◌, List, [], ◌∷◌, nat_eq, if◌then◌else◌, starts_with, subst,
  any, ◌<>◌, ap, String, Bool,
}
use net_graphy.Glob.{fnmatch}
use net_graphy.Events.Bus.{
  Event, Outside, EventBus, fresh_bus, publish, subscribe, close, stream_configs, event_to_subject,
}
use net_graphy.Events.Bus.Delivery.{calls, matching, count, publish_delivers, publish-subscribe}
use net_graphy.Events.Bus.Lifecycle.{Op, op_reconnected, op_publish, run}
use net_graphy.Events.Bus.Warnings.{flag, warnings, run_warns_once}
use net_graphy.Events.Bus.Silence.{sent_events, closed_is_silent}
use text.Mathlib.TextLemmas.{cons-append}
use net_graphy.Events.Emitters.{edge_created, edge_deleted}
use net_graphy.Events.Emitters.Streams.{has_wildcard, edge_events_untaken}
use Prim.Native.Char.{Char}

abbrev world : Outside ℕ
world = record {
  now = "2024-01-01T00:00:00+00:00";
  uuid = "u-1";
  connects = λ url. true;
  publishes = λ subject e. true;
  fails = λ h e. nat_eq h 1;
  updates_stream = λ name. false;
  adds_stream = λ name. true;
  drains = true;
  is_closed = false;
}

abbrev device_created : Event
device_created = record {
  event_type = "data.created.Device";
  timestamp = "2024-01-01T00:00:00+00:00";
  actor = "admin";
  payload = [];
  correlation_id = "c-1";
  tenant = "default";
}

abbrev watched : EventBus ℕ
watched = record fresh_bus {
  nc = true;
  js = true;
  is_connected = true;
  subscribers = ("data.*", 1 ∷ 2 ∷ []) ∷ ("schema.*", 3 ∷ []) ∷ [];
}

publish_delivers_example :
    calls (publish world watched device_created).1
    ≡ matching "data.created.Device" watched.subscribers
publish_delivers_example = publish_delivers world watched device_created

publish-subscribe_example :
    count (nat_eq 4) (calls (publish world (subscribe watched "*.Device" 4).0 device_created).1)
    ≡ count (nat_eq 4) (calls (publish world watched device_created).1)
      + (if fnmatch "data.created.Device" "*.Device" && nat_eq 4 4 then 1 else 0)
publish-subscribe_example = publish-subscribe (nat_eq 4) world watched "*.Device" 4 device_created

abbrev two_publications : List (Outside ℕ × Op ℕ)
two_publications = (world, op_publish device_created) ∷ (world, op_publish device_created) ∷ []

run_warns_once_example :
    flag false + warnings (run two_publications fresh_bus).1
    ≡ flag (run two_publications fresh_bus).0.warned_disconnected
run_warns_once_example = run_warns_once two_publications fresh_bus

abbrev late_callbacks : List (Outside ℕ × Op ℕ)
late_callbacks = (world, op_reconnected) ∷ (world, op_publish device_created) ∷ []

closed_is_silent_example : sent_events (run late_callbacks (close world watched).0).1 ≡ []
closed_is_silent_example = closed_is_silent world watched late_callbacks refl refl refl

-- The text without its last character, given its first.
abbrev front_of : Char → String → String
front_of c String.[] = ""
front_of c (String.◌∷◌ d s) = String.◌∷◌ c (front_of d s)

abbrev front : String → String
front String.[] = ""
front (String.◌∷◌ c s) = front_of c s

front_of-append : (c : Char) (p : String) → front_of c (p <> ">") ≡ String.◌∷◌ c p
front_of-append c String.[] = refl
front_of-append c (String.◌∷◌ d p) = rw cons-append (ap (λ r. String.◌∷◌ c r) (front_of-append d p))

front-append : (p : String) → front (p <> ">") ≡ p
front-append String.[] = refl
front-append (String.◌∷◌ c p) = rw cons-append (front_of-append c p)

abbrev takes_prefix : String → String → Bool
takes_prefix filter subject = starts_with subject (front filter)

takes_rest :
    (prefix subject : String)
    → has_wildcard prefix ≡ false
    → takes_prefix (prefix <> ">") subject ≡ true
    → starts_with subject prefix ≡ true
takes_rest prefix subject plain h =
    subst (λ p. starts_with subject p ≡ true) (front-append prefix) h

edge_events_untaken_example :
    (any
        (λ cfg.
          takes_prefix cfg.subject
            (event_to_subject (edge_created world "LOCATED_AT" "e1" "d1" "l1" "admin")))
        stream_configs
      ≡ false)
    × (any
          (λ cfg.
            takes_prefix cfg.subject
              (event_to_subject (edge_deleted world "LOCATED_AT" "e1" "admin")))
          stream_configs
        ≡ false)
edge_events_untaken_example =
    edge_events_untaken takes_prefix takes_rest world "LOCATED_AT" "e1" "d1" "l1" "admin"

-- ===== src/Events/Bus.antt =====
-- `EventBus` of packages/events/bus.py. The NATS client, the clock, the UUIDs and the handlers are
-- parameters, the record `Outside`; what the bus does to them and logs is a list of effects.
-- Handlers are entries of a type H and do not change the bus while it dispatches.
pub mod Delivery
pub mod Lifecycle
pub mod Warnings
pub mod Silence
use net_graphy.Prelude.{
  ℕ, String, ◌<>◌, Bool, true, false, not, ◌&&◌, Option, none, some, List, [], ◌∷◌, ◌++◌, Result,
  ok, raised, if◌then◌else◌, is_blank,
}
use net_graphy.Prelude.Dict.{Dict, lookup, insert}
use net_graphy.Value.{Value}
use net_graphy.Glob.{fnmatch}

-- A timestamp is its ISO form.
pub record Event : Type 0 where
  pub event_type : String
  pub timestamp : String
  pub actor : String
  pub payload : Dict Value
  pub correlation_id : String
  pub tenant : String

-- What the bus asks of the world. `publishes` is whether serialising an event and publishing it
-- succeeds, `fails` whether a handler raises.
pub record Outside (H : Type 0) : Type 0 where
  pub now : String
  pub uuid : String
  pub connects : String → Bool
  pub publishes : String → Event → Bool
  pub fails : H → Event → Bool
  pub updates_stream : String → Bool
  pub adds_stream : String → Bool
  pub drains : Bool
  pub is_closed : Bool

pub data Effect (H : Type 0) : Type 0 where
  published : String → Dict String → Event → Effect H
  publish_failed : Event → Effect H
  local_only : Effect H
  called : H → Event → Effect H
  handler_error : H → Event → Effect H
  stream_updated stream_created stream_create_failed : String → Effect H
  connected_to connect_failed : String → Effect H
  subscribed : String → Effect H
  unsubscribed : ℕ → Effect H
  drain_error closed disconnected reconnected nats_closed acked naked : Effect H

-- `_nc` and `_js` are given by whether they are not None. A JetStream subscription is its number.
pub record EventBus (H : Type 0) : Type 0 where
  pub nc : Bool
  pub js : Bool
  pub subscribers : Dict (List H)
  pub js_subscriptions : List ℕ
  pub is_connected : Bool
  pub warned_disconnected : Bool

pub record StreamConfig : Type 0 where
  pub name : String
  pub subject : String
  pub max_age_days : ℕ

abbrev pub stream_configs : List StreamConfig
stream_configs =
    record { name = "AUDIT"; subject = "netgraphy.audit.>"; max_age_days = 90 }
    ∷ record { name = "DATA"; subject = "netgraphy.data.>"; max_age_days = 7 }
    ∷ record { name = "SCHEMA"; subject = "netgraphy.schema.>"; max_age_days = 30 }
    ∷ record { name = "JOBS"; subject = "netgraphy.jobs.>"; max_age_days = 30 }
    ∷ record { name = "SYNC"; subject = "netgraphy.sync.>"; max_age_days = 30 }
    ∷ []

unfoldable pub event_to_subject : Event → String
event_to_subject e = "netgraphy." <> e.event_type

unfoldable pub event_headers : Event → Dict String
event_headers e =
    ("Nats-Msg-Id", e.correlation_id)
    ∷ ("NetGraphy-Event-Type", e.event_type)
    ∷ ("NetGraphy-Actor", e.actor)
    ∷ ("NetGraphy-Tenant", e.tenant)
    ∷ ("NetGraphy-Timestamp", e.timestamp)
    ∷ []

-- `__post_init__`, with the UUID that it draws.
unfoldable pub post_init : String → Event → Event
post_init uuid e = if is_blank e.correlation_id then record e { correlation_id = uuid } else e

module _ {H : Type 0} where
  abbrev pub fresh_bus : EventBus H
  fresh_bus = record {
    nc = false;
    js = false;
    subscribers = [];
    js_subscriptions = [];
    is_connected = false;
    warned_disconnected = false;
  }

  -- The handlers of one pattern, in the order of their registration; an error is only logged.
  unfoldable pub call_handlers : Outside H → Event → List H → List (Effect H)
  call_handlers o e [] = []
  call_handlers o e (h ∷ hs) =
      let rest = call_handlers o e hs in
      called h e ∷ (if o.fails h e then handler_error h e ∷ rest else rest)

  unfoldable pub dispatch_local : Outside H → Event → Dict (List H) → List (Effect H)
  dispatch_local o e [] = []
  dispatch_local o e ((pattern, handlers) ∷ subscribers) =
      let rest = dispatch_local o e subscribers in
      if fnmatch e.event_type pattern then call_handlers o e handlers ++ rest else rest

  -- The part of `publish` before the dispatch.
  unfoldable pub send : Outside H → EventBus H → Event → EventBus H × List (Effect H)
  send o bus e =
      if bus.is_connected && bus.js
      then (
        bus,
        (if o.publishes (event_to_subject e) e
              then published (event_to_subject e) (event_headers e) e
              else publish_failed e)
            ∷ [],
      )
      else if not bus.warned_disconnected
      then (record bus { warned_disconnected = true }, local_only ∷ [])
      else (bus, [])

  unfoldable pub publish : Outside H → EventBus H → Event → EventBus H × List (Effect H)
  publish o bus e =
      let (after, sent) = send o bus e in (after, sent ++ dispatch_local o e after.subscribers)

  abbrev pub handlers_of : Option (List H) → List H
  handlers_of none = []
  handlers_of (some handlers) = handlers

  unfoldable pub subscribe : EventBus H → String → H → EventBus H × List (Effect H)
  subscribe bus pattern handler =
      let handlers = handlers_of (lookup pattern bus.subscribers) ++ (handler ∷ []) in
      (
        record bus { subscribers = insert pattern handlers bus.subscribers },
        subscribed pattern ∷ [],
      )

  unfoldable pub ensure_each : Outside H → List StreamConfig → List (Effect H)
  ensure_each o [] = []
  ensure_each o (cfg ∷ cfgs) =
      (if o.updates_stream cfg.name
        then stream_updated cfg.name
        else if o.adds_stream cfg.name
        then stream_created cfg.name
        else stream_create_failed cfg.name)
      ∷ ensure_each o cfgs

  unfoldable pub ensure_streams : Outside H → EventBus H → List (Effect H)
  ensure_streams o bus = if not bus.js then [] else ensure_each o stream_configs

  unfoldable pub connect : Outside H → EventBus H → String → EventBus H × List (Effect H)
  connect o bus url =
      let up = record bus { nc = true; js = true; is_connected = true } in
      if o.connects url
      then (up, connected_to url ∷ ensure_streams o up)
      else (record bus { nc = false; js = false; is_connected = false }, connect_failed url ∷ [])

  unfoldable pub unsubscribe_all : List ℕ → List (Effect H)
  unsubscribe_all [] = []
  unsubscribe_all (sub ∷ subs) = unsubscribed sub ∷ unsubscribe_all subs

  unfoldable pub close : Outside H → EventBus H → EventBus H × List (Effect H)
  close o bus =
      let cleared = record bus { js_subscriptions = [] } in
      let left = unsubscribe_all bus.js_subscriptions in
      if bus.nc && not o.is_closed
      then (
        record cleared { is_connected = false; nc = false; js = false },
        left ++ (if o.drains then closed ∷ [] else drain_error ∷ closed ∷ []),
      )
      else (cleared, left ++ (closed ∷ []))

  unfoldable pub on_disconnected : EventBus H → EventBus H × List (Effect H)
  on_disconnected bus = (record bus { is_connected = false }, disconnected ∷ [])

  unfoldable pub on_reconnected : EventBus H → EventBus H × List (Effect H)
  on_reconnected bus = (record bus { is_connected = true }, reconnected ∷ [])

  unfoldable pub on_closed : EventBus H → EventBus H × List (Effect H)
  on_closed bus = (record bus { is_connected = false }, nats_closed ∷ [])

  -- `RuntimeError`, where the bus is not connected; `sub` is the subscription that NATS returns.
  unfoldable pub subscribe_jetstream : EventBus H → ℕ → Result String (EventBus H)
  subscribe_jetstream bus sub =
      if not (bus.is_connected && bus.js)
      then raised "Cannot create JetStream subscription: NATS is not connected"
      else ok (record bus { js_subscriptions = bus.js_subscriptions ++ (sub ∷ []) })

  -- The callback of such a subscription: a message that is decoded, handled and acknowledged, or
  -- else one that NATS is asked to deliver again. `acks` is whether the acknowledgement succeeds.
  unfoldable pub handle_message : Outside H → Option Event → H → Bool → List (Effect H)
  handle_message o none handler acks = naked ∷ []
  handle_message o (some e) handler acks =
      called handler e
      ∷ (if o.fails handler e then naked ∷ [] else if acks then acked ∷ [] else naked ∷ [])

-- ===== src/Events/Bus/Lifecycle.antt =====
-- Runs of the bus: its operations and the callbacks of the NATS client in any order.
use net_graphy.Prelude.{ℕ, String, List, [], ◌∷◌, ◌++◌, Result, ok, raised}
use net_graphy.Events.Bus.{
  Event, Outside, Effect, EventBus, publish, subscribe, connect, close, on_disconnected,
  on_reconnected, on_closed, subscribe_jetstream,
}

-- What can happen to a bus.
pub data Op (H : Type 0) : Type 0 where
  op_connect : String → Op H
  op_close op_disconnected op_reconnected op_closed : Op H
  op_publish : Event → Op H
  op_subscribe : String → H → Op H
  op_subscribe_jetstream : ℕ → Op H

module _ {H : Type 0} where
  abbrev pub or_same : EventBus H → Result String (EventBus H) → EventBus H
  or_same bus (raised e) = bus
  or_same bus (ok after) = after

  unfoldable pub perform : Outside H → Op H → EventBus H → EventBus H × List (Effect H)
  perform o (op_connect url) bus = connect o bus url
  perform o op_close bus = close o bus
  perform o op_disconnected bus = on_disconnected bus
  perform o op_reconnected bus = on_reconnected bus
  perform o op_closed bus = on_closed bus
  perform o (op_publish e) bus = publish o bus e
  perform o (op_subscribe p h) bus = subscribe bus p h
  perform o (op_subscribe_jetstream n) bus = (or_same bus (subscribe_jetstream bus n), [])

  -- A run, where the world answers anew at every operation.
  unfoldable pub run : List (Outside H × Op H) → EventBus H → EventBus H × List (Effect H)
  run [] bus = (bus, [])
  run ((o, op) ∷ ops) bus =
      let (next, here) = perform o op bus in let (last, rest) = run ops next in (last, here ++ rest)

-- ===== src/Events/Emitters.antt =====
-- The emitters of `EventBus`: the event that each publishes.
pub mod Streams
use net_graphy.Prelude.{String, ◌<>◌, Option, none, some, [], ◌∷◌, ◌++◌}
use net_graphy.Prelude.Dict.{Dict}
use net_graphy.Value.{Value, Items, ℤ, str, int, list}
use net_graphy.Events.Bus.{Event, Outside, post_init}

module _ {H : Type 0} (o : Outside H) where
  -- Event(event_type=..., actor=..., payload=...) with its defaults.
  unfoldable pub new_event : String → String → Dict Value → Event
  new_event event_type actor payload = post_init o.uuid (record {
    event_type = event_type;
    timestamp = o.now;
    actor = actor;
    payload = payload;
    correlation_id = "";
    tenant = "default";
  })

  unfoldable pub schema_changed : Items → Event
  schema_changed changes = new_event "schema.changed" "system" (("changes", list changes) ∷ [])

  unfoldable pub node_created : String → String → String → Event
  node_created node_type node_id actor =
      new_event ("data.created." <> node_type) actor
        (("node_type", str node_type) ∷ ("node_id", str node_id) ∷ [])

  unfoldable pub node_updated : String → String → Value → String → Event
  node_updated node_type node_id changes actor =
      new_event ("data.updated." <> node_type) actor
        (("node_type", str node_type) ∷ ("node_id", str node_id) ∷ ("changes", changes) ∷ [])

  unfoldable pub node_deleted : String → String → String → Event
  node_deleted node_type node_id actor =
      new_event ("data.deleted." <> node_type) actor
        (("node_type", str node_type) ∷ ("node_id", str node_id) ∷ [])

  unfoldable pub edge_created : String → String → String → String → String → Event
  edge_created edge_type edge_id source_id target_id actor =
      new_event ("edge.created." <> edge_type) actor (
        ("edge_type", str edge_type)
        ∷ ("edge_id", str edge_id)
        ∷ ("source_id", str source_id)
        ∷ ("target_id", str target_id)
        ∷ [])

  unfoldable pub edge_deleted : String → String → String → Event
  edge_deleted edge_type edge_id actor =
      new_event ("edge.deleted." <> edge_type) actor
        (("edge_type", str edge_type) ∷ ("edge_id", str edge_id) ∷ [])

  unfoldable pub job_completed : String → String → String → Event
  job_completed job_name execution_id status =
      new_event ("jobs." <> (status <> ("." <> job_name))) "system" (
        ("job_name", str job_name)
        ∷ ("execution_id", str execution_id)
        ∷ ("status", str status)
        ∷ [])

  unfoldable pub sync_completed : String → String → ℤ → Event
  sync_completed source_name status changes_applied =
      new_event ("sync." <> (status <> ("." <> source_name))) "system" (
        ("source_name", str source_name)
        ∷ ("status", str status)
        ∷ ("changes_applied", int changes_applied)
        ∷ [])

  abbrev pub optional : String → Option Value → Dict Value
  optional key none = []
  optional key (some v) = (key, v) ∷ []

  unfoldable pub audit : String → String → String → String → Option Value → Option Value → Event
  audit action resource_type resource_id actor changes metadata =
      new_event ("audit." <> (action <> ("." <> resource_type))) actor (
        ("action", str action)
        ∷ ("resource_type", str resource_type)
        ∷ ("resource_id", str resource_id)
        ∷ (optional "changes" changes ++ optional "metadata" metadata))

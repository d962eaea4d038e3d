-- ===== src/Events/Emitters/Streams.antt =====
-- Which streams take the emitted events. Matching a subject against a stream's filter is NATS's.
use Prim.Native.Char.{code}
use text.Mathlib.TextLemmas.{append_assoc, cons-append}
use net_graphy.Prelude.{
  String, ◌<>◌, ◌≡◌, refl, Bool, true, false, ◌||◌, arith, any, starts_with, Bool-cases, inl, inr,
  false≢true, ap, sym, subst, ◌∙◌, nat_eq, not,
}
use net_graphy.Events.Bus.{Outside, stream_configs, event_to_subject, post_init}
use net_graphy.Events.Emitters.{new_event, edge_created, edge_deleted}

-- Whether a filter has one of the wildcards of NATS.
unfoldable pub has_wildcard : String → Bool
has_wildcard String.[] = false
has_wildcard (String.◌∷◌ c s) = nat_eq (code c) b'*' || (nat_eq (code c) b'>' || has_wildcard s)

-- The texts differ at a place that both have.
unfoldable diverges : String → String → Bool
diverges String.[] q = false
diverges (String.◌∷◌ c p) String.[] = false
diverges (String.◌∷◌ c p) (String.◌∷◌ d q) = not (nat_eq (code c) (code d)) || diverges p q

starts_with-diverges : (p q s : String) → diverges p q ≡ true → starts_with (p <> s) q ≡ false
unfolding diverges starts_with
starts_with-diverges String.[] q s h = absurd (false≢true h)
starts_with-diverges (String.◌∷◌ c p) String.[] s h = absurd (false≢true h)
starts_with-diverges (String.◌∷◌ c p) (String.◌∷◌ d q) s h =
    rw cons-append (ground (arith, starts_with-diverges p q s))

edge_subject :
    (kind type : String)
    → "netgraphy." <> (("edge." <> kind) <> type) ≡ "netgraphy.edge." <> (kind <> type)
edge_subject kind type =
    ap (λ x. "netgraphy." <> x) (append_assoc "edge." kind type)
    ∙ sym (append_assoc "netgraphy." "edge." (kind <> type))

module _ (takes : String → String → Bool)
    (rest_only : (prefix subject : String)
      → has_wildcard prefix ≡ false
      → takes (prefix <> ">") subject ≡ true
      → starts_with subject prefix ≡ true) where
  untaken :
      (prefix subject : String)
      → has_wildcard prefix ≡ false
      → starts_with subject prefix ≡ false
      → takes (prefix <> ">") subject ≡ false
  untaken prefix subject plain h = elim (Bool-cases (takes (prefix <> ">") subject)) [
    | inl t ↦ absurd (ground (arith, rest_only prefix subject plain t))
    | inr t ↦ t
  ]

  -- No stream takes a subject that goes on with "edge.".
  edge_untaken :
      (s : String) → any (λ cfg. takes cfg.subject ("netgraphy.edge." <> s)) stream_configs ≡ false
  unfolding diverges has_wildcard
  edge_untaken s =
      let subject = "netgraphy.edge." <> s in
      ground (
        arith,
        untaken "netgraphy.audit." subject refl
            (starts_with-diverges "netgraphy.edge." "netgraphy.audit." s refl),
        untaken "netgraphy.data." subject refl
            (starts_with-diverges "netgraphy.edge." "netgraphy.data." s refl),
        untaken "netgraphy.schema." subject refl
            (starts_with-diverges "netgraphy.edge." "netgraphy.schema." s refl),
        untaken "netgraphy.jobs." subject refl
            (starts_with-diverges "netgraphy.edge." "netgraphy.jobs." s refl),
        untaken "netgraphy.sync." subject refl
            (starts_with-diverges "netgraphy.edge." "netgraphy.sync." s refl),
      )

  -- Where a filter that ends in ">" has no other wildcard, what NATS takes for it begins with what
  -- stands before the ">". Then no stream
  -- of the table takes the events of edges, created or deleted, although the table describes the
  -- stream DATA as that of node and edge events.
  pub edge_events_untaken :
      {H : Type 0} (o : Outside H) (edge_type edge_id source_id target_id actor : String)
      → (any
            (λ cfg.
              takes cfg.subject
                (event_to_subject (edge_created o edge_type edge_id source_id target_id actor)))
            stream_configs
          ≡ false)
        × (any
              (λ cfg. takes cfg.subject (event_to_subject (edge_deleted o edge_type edge_id actor)))
              stream_configs
            ≡ false)
  unfolding event_to_subject edge_created edge_deleted new_event post_init
  edge_events_untaken o edge_type edge_id source_id target_id actor =
      let none_takes = λ (x : String). any (λ cfg. takes cfg.subject x) stream_configs ≡ false in
      (
        subst none_takes (sym (edge_subject "created." edge_type))
            (edge_untaken ("created." <> edge_type)),
        subst none_takes (sym (edge_subject "deleted." edge_type))
            (edge_untaken ("deleted." <> edge_type)),
      )

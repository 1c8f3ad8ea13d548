-- ===== src/Events/Connection/Rows.antt =====
-- The servers and members of a connection through a recalculation.
use company_backend.Prelude.{
  Ident, ◌≡◌, refl, ap, ◌∙◌, not, some, List, [], ◌∷◌, ◌++◌, map, contains, filter, Option-cases,
  inl, inr,
}
use company_backend.Prelude.HashMap.{get}
use company_backend.Prelude.HashSet
use company_backend.Models.{Channel}
use company_backend.Events.Subscriptions.{topic}
use company_backend.Events.Cache.{Cache, Outside, channel_id, can_view_channel}
use company_backend.Events.Connection.{
  Connection, Event, Delivery, subscribe, unsubscribe, cache_channel, forget_channel, sort_channels,
  subscribe_all, drop_all, admit_all, newly_seen, delivered, recalculate_server,
}
use company_backend.Events.Connection.Loops.{unsubscribed, subscribe_all-cache}
use company_backend.Events.Connection.Ends.{
  Ends, Ends-intro, Ends-elim, Ends-bind, always, Ends-map,
}

-- The two maps are the same.
abbrev pub SameRows : (s s' : Connection) → Type 0
SameRows s s' = (s'.cache.servers ≡ s.cache.servers) × (s'.cache.members ≡ s.cache.members)

same_rows : (s s' : Connection) → s'.cache ≡ s.cache → SameRows s s'
same_rows s s' e = (ap (λ (c : Cache). c.servers) e, ap (λ (c : Cache). c.members) e)

SameRows-trans : (s t u : Connection) → SameRows s t → SameRows t u → SameRows s u
SameRows-trans s t u h k = (k.0 ∙ h.0, k.1 ∙ h.1)

pub unsubscribe-SameRows : (t : Ident) (s : Connection) → Ends (SameRows s) (unsubscribe t s)
unsubscribe-SameRows t s =
    Ends-intro (SameRows s) (unsubscribe t s) (λ r e. same_rows s r (unsubscribed t 0 s r e).0)

pub drop_all-SameRows : (ids : List Ident) (s : Connection) → Ends (SameRows s) (drop_all ids s)
unfolding drop_all
drop_all-SameRows [] s = (refl, refl)
drop_all-SameRows (id ∷ ids) s =
    Ends-bind (SameRows s) (SameRows s) (unsubscribe (topic id) s)
      (λ r. drop_all ids (forget_channel id r)) (unsubscribe-SameRows (topic id) s)
      (λ r h. Ends-intro (SameRows s) (drop_all ids (forget_channel id r)) (λ t e.
        SameRows-trans s (forget_channel id r) t h (
          Ends-elim (SameRows (forget_channel id r)) _ t
            (drop_all-SameRows ids (forget_channel id r)) e)))

admit_all-SameRows : (cs : List Channel) (s : Connection) → SameRows s (admit_all cs s)
unfolding admit_all
admit_all-SameRows [] s = (refl, refl)
admit_all-SameRows (c ∷ cs) s =
    admit_all-SameRows cs (subscribe (topic (channel_id c)) (cache_channel (channel_id c) c s))

subscribe_all-SameRows : (ids : List Ident) (s : Connection) → SameRows s (subscribe_all ids s)
subscribe_all-SameRows ids s = same_rows s (subscribe_all ids s) (subscribe_all-cache ids s)

pub recalculate_server-SameRows :
    (outside : Outside) (id : Ident) (event : Event) (s : Connection)
    → Ends (λ (r : Connection × Delivery). SameRows s r.0) (recalculate_server outside id event s)
unfolding recalculate_server
recalculate_server-SameRows outside id event s = elim (Option-cases (get id s.cache.servers)) [
  | inl missing ↦ rw (recalculate_server, missing) (refl, refl)
  | inr (server, known) ↦
      rw (recalculate_server, known)
        (Ends-bind (λ _. Unit) _
          (sort_channels (can_view_channel outside s.cache) id s.cache.channels) _
          (always (λ _. Unit) _ (λ _. tt))
          (λ sorted _.
            Ends-bind (SameRows s) _ (drop_all sorted.removed (subscribe_all sorted.added s)) _
              (Ends-map (SameRows (subscribe_all sorted.added s)) (SameRows s) _
                (λ t.
                  SameRows-trans s (subscribe_all sorted.added s) t
                    (subscribe_all-SameRows sorted.added s))
                (drop_all-SameRows sorted.removed (subscribe_all sorted.added s)))
              (λ s1 same.
                Ends-bind (λ _. Unit) (λ (r : Connection × Delivery). SameRows s r.0)
                  (newly_seen outside s1.cache (
                    filter (λ x. not (contains sorted.known x))
                      (HashSet.insert_all server.channels [])))
                  (λ fresh. some (
                    admit_all fresh s1,
                    delivered
                        (map Event.channel_delete sorted.removed ++ map Event.channel_create fresh)
                        event,
                  ))
                  (always (λ _. Unit) _ (λ _. tt))
                  (λ fresh _.
                    SameRows-trans s s1 (admit_all fresh s1) same (admit_all-SameRows fresh s1)))))
]

-- ===== src/Realtime/Filter.antt =====
-- What a filter of telemetry events selects, by the levels of the topic:
-- crates/pipe-bolt-core/src/web/realtime/filter.rs.
use pipe_bolt.Prelude.{List, Option, [], none, some, ◌∷◌, ◌≡◌, ◌≢◌, ◌⊎◌}
use pipe_bolt.Text.{Str, codes, split}
use pipe_bolt.Domain.Config.Filter.{slash}
use pipe_bolt.Realtime.{TelemetryEvent, TelemetryFilter}
use pipe_bolt.Realtime.Prefix.{LiesUnder}

-- The first level of the topic of a device.
abbrev pub IsNamespace : Str → Type 0
IsNamespace level = (level ≡ codes "devices") ⊎ (level ≡ codes "device")

-- The second level, which is not empty, under such a first level.
abbrev pub HasDevice : List Str → Str → Type 0
HasDevice levels device =
    (namespace : Str) × (rest : List Str) × (levels ≡ namespace ∷ device ∷ rest)
    × IsNamespace namespace
    × (device ≢ [])

-- The third level telemetry or status, or the fourth, which is not empty, after the third level event.
abbrev pub NamesType : Str → List Str → Str → Type 0
NamesType kind rest type =
    ((kind ≡ codes "telemetry") × (type ≡ codes "telemetry"))
    ⊎ ((kind ≡ codes "status") × (type ≡ codes "status"))
    ⊎ ((kind ≡ codes "event") × (more : List Str) × (rest ≡ type ∷ more) × (type ≢ []))

abbrev pub HasEventType : List Str → Str → Type 0
HasEventType levels type =
    (namespace : Str) × (device : Str) × (kind : Str) × (rest : List Str) × (levels
      ≡ namespace ∷ device ∷ kind ∷ rest)
    × IsNamespace namespace
    × NamesType kind rest type

-- A part of the filter that is given is met.
abbrev pub IsMet : (Str → Type 0) → Option Str → Type 0
IsMet P none = Unit
IsMet P (some expected) = P expected

-- What a client that has given a filter is sent.
pub record IsWanted (filter : TelemetryFilter) (event : TelemetryEvent) : Type 0 where
  pub device : IsMet (HasDevice (split slash event.topic)) filter.device
  pub topic : IsMet (λ expected. event.topic ≡ expected) filter.topic
  pub under : IsMet (λ prefix. LiesUnder prefix event.topic) filter.topic_prefix
  pub event_type : IsMet (HasEventType (split slash event.topic)) filter.event_type

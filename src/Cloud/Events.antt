-- ===== src/Cloud/Events.antt =====
-- The agents' event socket, components/cloud/src/ws.rs: a daemon subscribes to its channel, and is
-- sent what comes on it. `to_string` is serde_json's.
pub mod Delivery
use wisp_shell.Prelude.{
  ℕ, ◌+◌, Bool, Option, none, some, List, [], ◌∷◌, ◌++◌, map, filter, length, drop, Str, str_eq,
  if◌then◌else◌,
}
use wisp_shell.Prelude.Broadcast.{Received, message, lagged, closed}
use wisp_shell.Cloud.Db.{AgentEvent}
use wisp_shell.Cloud.App.{AppState, event_sender}

-- The subscription: the state with the device's channel, and how much was sent before it.
unfoldable pub agent_events : AppState → Str → AppState × ℕ
unfolding event_sender
agent_events s device_id = (event_sender s device_id, length s.sent)

-- The messages of a device's channel.
abbrev pub is_for : Str → Str × AgentEvent → Bool
is_for device_id (id, event) = str_eq id device_id

abbrev pub event_of : Str × AgentEvent → AgentEvent
event_of (id, event) = event

unfoldable pub events_for : Str → List (Str × AgentEvent) → List AgentEvent
unfolding filter
events_for device_id sent = map event_of (filter (is_for device_id) sent)

-- What the channel holds for a receiver that subscribed when so much had been sent.
abbrev pub received : AppState → Str → ℕ → List AgentEvent
received s device_id position = events_for device_id (drop position s.sent)

module _ (to_string : AgentEvent → Option Str) (accepts : ℕ → Bool) where
  -- The texts that the socket took, `accepts` being whether its n-th send succeeds. An event that
  -- does not serialise is left out; a send that fails ends the task, and so does the channel.
  unfoldable pub handle : (n : ℕ) → List (Received AgentEvent) → List Str
  handle n [] = []
  handle n (message event ∷ answers) =
      let skip = handle n answers in
      let rest = handle (n + 1) answers in
      elim (to_string event) [ none ↦ skip | some json ↦ if accepts n then json ∷ rest else [] ]
  handle n (lagged missed ∷ answers) = []
  handle n (closed ∷ answers) = []

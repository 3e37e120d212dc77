-- ===== src/Flash/Heartbeat.antt =====
-- network/heartbeat.rs, `HeartbeatManager`: the health of the connections to exchanges. An exchange is a
-- number and the map of states is a list of pairs. Calls come one after another: `record_pong` and
-- `record_missed_pong` release the entry of their exchange and take it again to set the status, and what
-- another call does in between is not modelled. The clock is an argument, and the moving average of
-- latencies, which is computed in floating-point numbers, a parameter. Counters wrap.
pub mod Calls
pub mod Statuses
pub mod Tests
use ai_systems_verification.Base.{
  ℕ, ◌+◌, ◌-◌, ◌*◌, ◌%◌, ◌^◌, Bool, true, false, not, List, [], ◌∷◌, ◌++◌, Option, none, some,
  if◌then◌else◌, ltb, leb, ◌==◌, length,
}
use ai_systems_verification.Base.Assoc.{find, put}

abbrev pub event_channel_size : ℕ
event_channel_size = 1000

pub data HealthStatus : Type 0 where
  healthy : HealthStatus
  degraded : HealthStatus
  unhealthy : HealthStatus
  unknown : HealthStatus

abbrev pub as_u8 : HealthStatus → ℕ
as_u8 unknown = 0
as_u8 healthy = 1
as_u8 degraded = 2
as_u8 unhealthy = 3

abbrev pub is_healthy : HealthStatus → Bool
is_healthy healthy = true
is_healthy _ = false

-- The configuration without its jitter, a floating-point number: whether that is in its range.
pub record HeartbeatConfig : Type 0 where
  pub ping_interval_ms : ℕ
  pub pong_timeout_ms : ℕ
  pub jitter_in_range : Bool
  pub degraded_threshold : ℕ
  pub unhealthy_threshold : ℕ
  pub auto_disconnect_unhealthy : Bool
  pub stale_connection_ms : ℕ

abbrev pub default : HeartbeatConfig
default = record {
  ping_interval_ms = 30000;
  pong_timeout_ms = 10000;
  jitter_in_range = true;
  degraded_threshold = 1;
  unhealthy_threshold = 3;
  auto_disconnect_unhealthy = false;
  stale_connection_ms = 60000;
}

-- What `validate` finds wrong first.
pub data ConfigFault : Type 0 where
  timeout_too_long : ConfigFault
  thresholds_swapped : ConfigFault
  bad_jitter : ConfigFault

pub validate : HeartbeatConfig → Option ConfigFault
validate config =
    if leb config.ping_interval_ms config.pong_timeout_ms
    then some timeout_too_long
    else (if ltb config.unhealthy_threshold config.degraded_threshold
        then some thresholds_swapped
        else (if not config.jitter_in_range then some bad_jitter else none))

-- The events that these operations send.
pub data HeartbeatEvent : Type 0 where
  pong_received : ℕ → ℕ → ℕ → HeartbeatEvent
  pong_timeout : ℕ → ℕ → HeartbeatEvent
  health_changed : ℕ → HealthStatus → HealthStatus → ℕ → HeartbeatEvent
  monitoring_started : ℕ → HeartbeatEvent
  monitoring_stopped : ℕ → HeartbeatEvent

pub record HealthState : Type 0 where
  pub status : HealthStatus
  pub missed_pongs : ℕ
  pub last_pong : ℕ
  pub last_ping : Option ℕ
  pub last_latency_us : ℕ
  pub avg_latency_us : ℕ
  pub total_pongs : ℕ
  pub total_pings : ℕ
  pub monitoring : Bool

abbrev pub new_state : ℕ → HealthState
new_state now = record {
  status = unknown;
  missed_pongs = 0;
  last_pong = now;
  last_ping = none;
  last_latency_us = 0;
  avg_latency_us = 0;
  total_pongs = 0;
  total_pings = 0;
  monitoring = false;
}

-- The events are those that wait in the channel.
pub record HeartbeatManager : Type 0 where
  pub config : HeartbeatConfig
  pub health_states : List (ℕ × HealthState)
  pub events : List HeartbeatEvent

unfoldable pub new : HeartbeatConfig → HeartbeatManager
new config = record { config = config; health_states = []; events = [] }

-- `try_send`, whose failure on a full channel is ignored.
abbrev pub try_send : HeartbeatEvent → List HeartbeatEvent → List HeartbeatEvent
try_send event events =
    if ltb (length events) event_channel_size then events ++ event ∷ [] else events

-- `entry(exchange).or_insert_with(HealthState::new)`.
abbrev pub or_new : ℕ → Option HealthState → HealthState
or_new now none = new_state now
or_new now (some st) = st

abbrev pub entry : HeartbeatManager → ℕ → ℕ → HealthState
entry m exchange now = or_new now (find exchange m.health_states)

-- An event of a change, if there is one.
abbrev pub tell_change :
    ℕ → HealthStatus → HealthStatus → ℕ → List HeartbeatEvent → List HeartbeatEvent
tell_change exchange old_status new_status missed events =
    if as_u8 old_status == as_u8 new_status
    then events
    else try_send (health_changed exchange old_status new_status (missed % 2 ^ 32)) events

-- The latency that is given, or the time since the last ping.
abbrev pub latency_of : HealthState → Option ℕ → ℕ → ℕ
latency_of st (some latency) now = latency
latency_of st none now = elim st.last_ping [ none ↦ 0 | some t ↦ now - t ]

abbrev pub with_latency : (ℕ → ℕ → ℕ) → ℕ → HealthState → HealthState
with_latency average latency st =
    if ltb 0 latency
    then record st {
      last_latency_us = latency;
      avg_latency_us =
          if st.avg_latency_us == 0 then latency else average st.avg_latency_us latency;
    }
    else st

abbrev pub with_pong : (ℕ → ℕ → ℕ) → ℕ → ℕ → HealthState → HealthState
with_pong average latency now st = record (with_latency average latency st) {
  status = healthy;
  missed_pongs = 0;
  last_pong = now;
  total_pongs = (st.total_pongs + 1) % 2 ^ 64;
}

-- `record_pong_internal`, by way of `record_pong` and `record_pong_with_latency`.
unfoldable pub record_pong :
    (ℕ → ℕ → ℕ) → HeartbeatManager → ℕ → Option ℕ → ℕ → ℕ → HeartbeatManager
record_pong average m exchange latency now timestamp =
    let st = entry m exchange now in
    let latency_us = latency_of st latency now in
    record m {
      health_states = put exchange (with_pong average latency_us now st) m.health_states;
      events =
          try_send (pong_received exchange latency_us timestamp)
            (tell_change exchange st.status healthy 0 m.events);
    }

-- The status that follows from the thresholds.
abbrev pub new_status : HeartbeatConfig → ℕ → HealthStatus → HealthStatus
new_status config missed old_status =
    if leb config.unhealthy_threshold missed
    then unhealthy
    else (if leb config.degraded_threshold missed
        then degraded
        else (if is_healthy old_status then healthy else old_status))

unfoldable pub record_missed_pong : HeartbeatManager → ℕ → ℕ → HeartbeatManager
record_missed_pong m exchange now =
    let st = entry m exchange now in
    let missed = (st.missed_pongs + 1) % 2 ^ 64 in
    let status = new_status m.config missed st.status in
    record m {
      health_states =
          put exchange (record st { status = status; missed_pongs = missed }) m.health_states;
      events =
          tell_change exchange st.status status missed
            (try_send (pong_timeout exchange (missed % 2 ^ 32)) m.events);
    }

unfoldable pub start_monitoring : HeartbeatManager → ℕ → ℕ → HeartbeatManager
start_monitoring m exchange now =
    let st = entry m exchange now in
    if st.monitoring
    then record m { health_states = put exchange st m.health_states }
    else record m {
      health_states = put exchange (record st { monitoring = true }) m.health_states;
      events = try_send (monitoring_started exchange) m.events;
    }

-- What `stop_monitoring` does with a state that it finds.
abbrev pub stopped : HeartbeatManager → ℕ → Option HealthState → HeartbeatManager
stopped m exchange none = m
stopped m exchange (some st) =
    if st.monitoring
    then record m {
      health_states = put exchange (record st { monitoring = false }) m.health_states;
      events = try_send (monitoring_stopped exchange) m.events;
    }
    else m

unfoldable pub stop_monitoring : HeartbeatManager → ℕ → HeartbeatManager
stop_monitoring m exchange = stopped m exchange (find exchange m.health_states)

abbrev pub status_or_unknown : Option HealthState → HealthStatus
status_or_unknown none = unknown
status_or_unknown (some st) = st.status

pub health_status : HeartbeatManager → ℕ → HealthStatus
health_status m exchange = status_or_unknown (find exchange m.health_states)

-- Whether the last pong is too old; a duration in microseconds.
pub is_stale : HeartbeatManager → ℕ → ℕ → Bool
is_stale m exchange now = elim (find exchange m.health_states) [
  | none ↦ true
  | some st ↦ ltb (m.config.stale_connection_ms * 1000) (now - st.last_pong)
]

-- Of the exchanges that are monitored.
pub all_health_statuses : List (ℕ × HealthState) → List (ℕ × HealthStatus)
all_health_statuses [] = []
all_health_statuses ((exchange, st) ∷ rest) =
    let others = all_health_statuses rest in
    if st.monitoring then (exchange, st.status) ∷ others else others

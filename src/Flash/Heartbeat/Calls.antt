-- ===== src/Flash/Heartbeat/Calls.antt =====
-- Calls of the manager, and the status that they stand for.
use ai_systems_verification.Base.{
  ℕ, zero, suc, ◌+◌, Bool, true, List, [], ◌∷◌, Option, if◌then◌else◌, leb, ◌==◌,
}
use ai_systems_verification.Flash.Heartbeat.{
  HealthStatus, healthy, degraded, unhealthy, unknown, HeartbeatConfig, HeartbeatManager,
  record_pong, record_missed_pong, start_monitoring, stop_monitoring,
}

pub data Call : Type 0 where
  pong : ℕ → Option ℕ → ℕ → ℕ → Call
  missed : ℕ → ℕ → Call
  start : ℕ → ℕ → Call
  stop : ℕ → Call

module _ (average : ℕ → ℕ → ℕ) where
  unfoldable pub run : HeartbeatManager → Call → HeartbeatManager
  run m (pong exchange latency now timestamp) = record_pong average m exchange latency now timestamp
  run m (missed exchange now) = record_missed_pong m exchange now
  run m (start exchange now) = start_monitoring m exchange now
  run m (stop exchange) = stop_monitoring m exchange

  unfoldable pub run_all : HeartbeatManager → List Call → HeartbeatManager
  unfolding run
  run_all m [] = m
  run_all m (call ∷ calls) = run_all (run m call) calls

-- Whether an exchange has answered, and how often it has not since.
abbrev pub Answers : Type 0
Answers = Bool × ℕ

-- What a call adds to the answers of an exchange.
abbrev pub answers_after : ℕ → Answers → Call → Answers
answers_after exchange (answered, n) (pong other latency now timestamp) =
    if other == exchange then (true, 0) else (answered, n)
answers_after exchange (answered, n) (missed other now) =
    if other == exchange then (answered, n + 1) else (answered, n)
answers_after exchange (answered, n) (start other now) = (answered, n)
answers_after exchange (answered, n) (stop other) = (answered, n)

abbrev pub answers : ℕ → Answers → List Call → Answers
answers exchange a [] = a
answers exchange a (call ∷ calls) = answers exchange (answers_after exchange a call) calls

-- The status that the answers of an exchange stand for: unhealthy or degraded where it has missed as
-- many pongs in a row as the threshold says, and one at least; else healthy, if it has answered at all.
abbrev pub verdict : HeartbeatConfig → Answers → HealthStatus
verdict config (answered, zero) = if answered then healthy else unknown
verdict config (answered, suc n) =
    if leb config.unhealthy_threshold (suc n)
    then unhealthy
    else (if leb config.degraded_threshold (suc n)
        then degraded
        else (if answered then healthy else unknown))

-- ===== src/Flash/Heartbeat/Tests.antt =====
-- A heartbeat manager over two exchanges.
use ai_systems_verification.Base.{ℕ, ◌≡◌, refl, ◌/◌, ◌+◌, false, List, [], ◌∷◌, some, arith}
use ai_systems_verification.Base.Assoc.{find, erase}
use ai_systems_verification.Flash.Heartbeat.{
  degraded, default, new, health_status, record_pong, record_missed_pong, start_monitoring,
  stop_monitoring,
}
use ai_systems_verification.Flash.Heartbeat.Calls.{
  Call, pong, missed, start, stop, run, run_all, verdict, answers,
}
use ai_systems_verification.Flash.Heartbeat.Statuses.{run_all-verdict}

average : ℕ → ℕ → ℕ
average old latency = (old + latency) / 2

abbrev calls : List Call
calls = start 1 10 ∷ pong 1 (some 40) 20 20 ∷ missed 1 30 ∷ missed 2 31 ∷ missed 1 40 ∷ stop 2 ∷ []

status_of_first : health_status (run_all average (new default) calls) 1 ≡ degraded
unfolding health_status run_all run record_pong record_missed_pong start_monitoring stop_monitoring
    find erase new
status_of_first = refl

run_all-verdict_example :
    health_status (run_all average (new default) calls) 1
    ≡ verdict default (answers 1 (false, 0) calls)
run_all-verdict_example = run_all-verdict average 1 default calls (omega arith)

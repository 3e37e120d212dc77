-- ===== src/Flash/Heartbeat/Statuses.antt =====
-- The status of an exchange after any calls, from the calls alone.
use ai_systems_verification.Base.{
  ℕ, zero, suc, ◌+◌, ◌%◌, ◌^◌, ◌≤◌, ◌<◌, ◌≡◌, ◌≢◌, refl, sym, ap, ◌∙◌, subst, inl, inr, Bool, true,
  false, List, [], ◌∷◌, Option, none, some, if_true, if_false, eq→==, ne→==_false, length, arith,
  Bool-cases, ℕ_discrete,
}
use ai_systems_verification.Base.Assoc.{find, erase, put, find-head, find-tail, find-erase_other}
use ai_systems_verification.Flash.Heartbeat.{
  HealthStatus, HeartbeatConfig, HealthState, HeartbeatManager, new, or_new, entry, latency_of,
  with_pong, record_pong, new_status, record_missed_pong, start_monitoring, stopped,
  stop_monitoring, status_or_unknown, health_status,
}
use ai_systems_verification.Flash.Heartbeat.Calls.{
  Call, pong, missed, start, stop, run, run_all, Answers, answers_after, answers, verdict,
}

-- The state of an exchange agrees with its answers.
abbrev IsAt : HeartbeatConfig → Answers → HealthStatus → ℕ → Type 0
IsAt config a status missed_pongs = (status ≡ verdict config a) × (missed_pongs ≡ a.1)

verdict-missed :
    (config : HeartbeatConfig) (answered : Bool) (n : ℕ)
    → new_status config (n + 1) (verdict config (answered, n)) ≡ verdict config (answered, n + 1)
verdict-missed config true zero = refl
verdict-missed config false zero = refl
verdict-missed config true (suc n) = ground arith
verdict-missed config false (suc n) = ground arith

abbrev missed_of : Option HealthState → ℕ
missed_of none = 0
missed_of (some st) = st.missed_pongs

abbrev Knows : HeartbeatConfig → Answers → Option HealthState → Type 0
Knows config a o = IsAt config a (status_or_unknown o) (missed_of o)

-- A new state is like none.
or_new-Knows :
    (config : HeartbeatConfig) (a : Answers) (now : ℕ) (o : Option HealthState)
    → Knows config a o
    → Knows config a (some (or_new now o))
or_new-Knows config a now none k = k
or_new-Knows config a now (some st) k = k

-- What is found for an exchange once another, or the same, was written.
find-put :
    (P : Option HealthState → Type 0) (x y : ℕ) (v : HealthState) (m : List (ℕ × HealthState))
    → (y ≡ x → P (some v))
    → (y ≢ x → P (find x m))
    → P (find x (put y v m))
find-put P x y v m same other = elim (ℕ_discrete y x) [
  | yes e ↦
      subst P (sym (ap (λ z. find z (put y v m)) (sym e) ∙ find-head y v (erase y m))) (same e)
  | no ne ↦
      subst P (sym (find-tail x y v (erase y m) ne ∙ find-erase_other x y m (λ e. ne (sym e))))
        (other ne)
]

module _ (average : ℕ → ℕ → ℕ) (x : ℕ) where
  pong-Knows :
      (m : HeartbeatManager) (a : Answers) (y : ℕ) (latency : Option ℕ) (now ts : ℕ)
      → Knows m.config a (find x m.health_states)
      → Knows m.config
          (answers_after x a (pong y latency now ts))
          (find x (record_pong average m y latency now ts).health_states)
  unfolding record_pong
  pong-Knows m a y latency now ts k =
      let st : HealthState = entry m y now in
      find-put (Knows m.config (answers_after x a (pong y latency now ts))) x y
        (with_pong average (latency_of st latency now) now st) m.health_states
        (λ e.
          subst
            (λ b. Knows m.config b (some (with_pong average (latency_of st latency now) now st)))
            (sym (if_true (eq→== y x e) (true, 0) a)) (refl, refl))
        (λ ne.
          subst (λ b. Knows m.config b (find x m.health_states))
            (sym (if_false (ne→==_false y x ne) (true, 0) a)) k)

  missed-Knows :
      (m : HeartbeatManager) (a : Answers) (y now : ℕ)
      → a.1 + 1 < 2 ^ 64
      → Knows m.config a (find x m.health_states)
      → Knows m.config
          (answers_after x a (missed y now))
          (find x (record_missed_pong m y now).health_states)
  unfolding record_missed_pong
  missed-Knows m (answered, n) y now few k =
      let st : HealthState = entry m y now in
      let count : ℕ = (st.missed_pongs + 1) % 2 ^ 64 in
      let st' : HealthState = record st {
        status = new_status m.config count st.status;
        missed_pongs = count;
      } in
      find-put (Knows m.config (answers_after x (answered, n) (missed y now))) x y st'
        m.health_states
        (λ e.
          subst (λ b. Knows m.config b (some st'))
            (sym (if_true (eq→== y x e) (answered, n + 1) (answered, n)))
            (counted st (
              or_new-Knows m.config (answered, n) now (find y m.health_states)
                (subst (λ z. Knows m.config (answered, n) (find z m.health_states)) (sym e) k))))
        (λ ne.
          subst (λ b. Knows m.config b (find x m.health_states))
            (sym (if_false (ne→==_false y x ne) (answered, n + 1) (answered, n))) k)
    where
      counted :
          (st : HealthState)
          → Knows m.config (answered, n) (some st)
          → let count = (st.missed_pongs + 1) % 2 ^ 64 in
            IsAt m.config (answered, n + 1) (new_status m.config count st.status) count
      counted st (status, missed_lem) =
          let exact : (st.missed_pongs + 1) % 2 ^ 64 ≡ n + 1 = omega arith in
          (rw (exact, status) (verdict-missed m.config answered n), exact)

  start-Knows :
      (m : HeartbeatManager) (a : Answers) (y now : ℕ)
      → Knows m.config a (find x m.health_states)
      → Knows m.config a (find x (start_monitoring m y now).health_states)
  unfolding start_monitoring
  start-Knows m a y now k =
      let st : HealthState = entry m y now in
      let kept : y ≡ x → Knows m.config a (some st) = λ e.
        or_new-Knows m.config a now (find y m.health_states)
          (subst (λ z. Knows m.config a (find z m.health_states)) (sym e) k) in
      elim (Bool-cases st.monitoring) [
        | inl on ↦
            subst (λ (m' : HeartbeatManager). Knows m.config a (find x m'.health_states))
              (sym (if_true on _ _))
              (find-put (Knows m.config a) x y st m.health_states kept (λ ne. k))
        | inr off ↦
            subst (λ (m' : HeartbeatManager). Knows m.config a (find x m'.health_states))
              (sym (if_false off _ _))
              (find-put (Knows m.config a) x y (record st { monitoring = true }) m.health_states
                kept (λ ne. k))
      ]

  stopped-Knows :
      (m : HeartbeatManager) (a : Answers) (y : ℕ) (o : Option HealthState)
      → find y m.health_states ≡ o
      → Knows m.config a (find x m.health_states)
      → Knows m.config a (find x (stopped m y o).health_states)
  stopped-Knows m a y none e k = k
  stopped-Knows m a y (some st) e k = elim (Bool-cases st.monitoring) [
    | inl on ↦
        subst (λ (m' : HeartbeatManager). Knows m.config a (find x m'.health_states))
          (sym (if_true on _ _))
          (find-put (Knows m.config a) x y (record st { monitoring = false }) m.health_states
            (λ same. subst (Knows m.config a) (ap (λ z. find z m.health_states) (sym same) ∙ e) k)
            (λ ne. k))
    | inr off ↦
        subst (λ (m' : HeartbeatManager). Knows m.config a (find x m'.health_states))
          (sym (if_false off _ _)) k
  ]

  run-Knows :
      (m : HeartbeatManager) (a : Answers) (call : Call)
      → a.1 + 1 < 2 ^ 64
      → Knows m.config a (find x m.health_states)
      → Knows m.config (answers_after x a call) (find x (run average m call).health_states)
  unfolding run stop_monitoring
  run-Knows m a (pong y latency now ts) few k = pong-Knows m a y latency now ts k
  run-Knows m a (missed y now) few k = missed-Knows m a y now few k
  run-Knows m a (start y now) few k = start-Knows m a y now k
  run-Knows m a (stop y) few k = stopped-Knows m a y (find y m.health_states) refl k

  stopped-config :
      (m : HeartbeatManager) (y : ℕ) (o : Option HealthState) → (stopped m y o).config ≡ m.config
  stopped-config m y none = refl
  stopped-config m y (some st) = ground arith

  run-config : (m : HeartbeatManager) (call : Call) → (run average m call).config ≡ m.config
  unfolding run record_pong record_missed_pong start_monitoring stop_monitoring
  run-config m (pong y latency now ts) = refl
  run-config m (missed y now) = refl
  run-config m (start y now) = ground arith
  run-config m (stop y) = stopped-config m y (find y m.health_states)

  answers_after_le : (a : Answers) (call : Call) → (answers_after x a call).1 ≤ a.1 + 1
  answers_after_le a (pong y latency now ts) = ground arith
  answers_after_le a (missed y now) = ground arith
  answers_after_le a (start y now) = omega arith
  answers_after_le a (stop y) = omega arith

  run_all-Knows :
      (config : HeartbeatConfig) (m : HeartbeatManager) (a : Answers) (calls : List Call)
      → m.config ≡ config
      → a.1 + length calls < 2 ^ 64
      → Knows config a (find x m.health_states)
      → Knows config (answers x a calls) (find x (run_all average m calls).health_states)
  unfolding run_all
  run_all-Knows config m a [] same few k = k
  run_all-Knows config m a (call ∷ calls) same few k =
      run_all-Knows config (run average m call) (answers_after x a call) calls
        (run-config m call ∙ same) (omega (arith, answers_after_le a call))
        (subst (λ cf. Knows cf (answers_after x a call) (find x (run average m call).health_states))
          same
          (run-Knows m a call (omega arith)
            (subst (λ cf. Knows cf a (find x m.health_states)) (sym same) k)))

  -- After fewer than 2^64 calls on a new manager, for all exchanges together and in any order, the status
  -- of an exchange is the one that its answers stand for: unknown before the first, unhealthy or degraded
  -- after as many missed pongs in a row as the threshold says, and healthy otherwise. Other exchanges,
  -- and the start and the stop of the monitoring, do not matter, so that after a stop the status is not
  -- unknown, as the doc of `health_status` says it is, but what it was.
  pub run_all-verdict :
      (config : HeartbeatConfig) (calls : List Call)
      → length calls < 2 ^ 64
      → health_status (run_all average (new config) calls) x
        ≡ verdict config (answers x (false, 0) calls)
  unfolding health_status new find
  run_all-verdict config calls few =
      (run_all-Knows config (new config) (false, 0) calls refl (omega arith) (refl, refl)).0

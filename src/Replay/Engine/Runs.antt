-- ===== src/Replay/Engine/Runs.antt =====
-- What steps, ticks and whole runs of the replay engine do to the source.
use ai_systems_verification.Base.{
  ℕ, zero, suc, ◌+◌, ◌%◌, ◌^◌, ◌≤◌, ◌<◌, ◌≡◌, ◌⊎◌, inl, inr, refl, sym, ap, ◌∙◌, subst, true, false,
  List, [], ◌∷◌, Option, none, some, arith, if◌then◌else◌, length, get_elem?, min, ◌==◌, eq→==,
  ne→==_false, if_true, if_false, dec_lt, ℕ_discrete,
}
use ai_systems_verification.Replay.Scheduler.{Float, ScheduleResult, schedule}
use ai_systems_verification.Replay.Source
use ai_systems_verification.Replay.Source.{BufferedDataSource, DataFrame, remaining}
use ai_systems_verification.Replay.Engine.{
  ReplayEngine, ReplayState, playing, paused, StepResult, processed, may_step, is_playing, step,
  tick, tick_rounds, take_event, run_rounds, run_to_completion,
}

pub get_elem?-cases {ℓ} :
    {A : Type ℓ} (xs : List A) (i : ℕ)
    → ((i < length xs) × (x : A) × (get_elem? xs i ≡ some x))
      ⊎ ((length xs ≤ i) × (get_elem? xs i ≡ none))
get_elem?-cases [] i = inr (omega arith, refl)
get_elem?-cases (x ∷ xs) zero = inl (omega arith, x, refl)
get_elem?-cases (x ∷ xs) (suc i) = elim (get_elem?-cases xs i) [
  | inl (lt, y, e) ↦ inl (omega arith, y, e)
  | inr (le, e) ↦ inr (omega arith, e)
]

pub playing_may_step : (s : ReplayState) → is_playing s ≡ true → may_step s ≡ true
playing_may_step playing h = refl
playing_may_step paused h = refl
playing_may_step ReplayState.idle h = cc
playing_may_step ReplayState.completed h = cc

module _ {F : Type 0} where
  -- What a step at a frame leaves.
  pub record Advanced (e e' : ReplayEngine F) : Type 0 where
    pub state : e'.state ≡ e.state
    pub frames : e'.data_source.frames ≡ e.data_source.frames
    pub active : e'.data_source.active ≡ true
    pub index : e'.data_source.index ≡ suc e.data_source.index
    pub events : e'.events_processed ≡ (e.events_processed + 1) % 2 ^ 64

  pub step_frame :
      (fl : Float F) (e : ReplayEngine F) (f : DataFrame)
      → may_step e.state ≡ true
      → e.data_source.active ≡ true
      → get_elem? e.data_source.frames e.data_source.index ≡ some f
      → (r : ScheduleResult) × ((step fl e).0 ≡ processed f r) × Advanced e (step fl e).1
  unfolding step take_event
  step_frame fl e f on act here =
      let go : step fl e ≡ (
        processed f (schedule fl e.scheduler e.clock f.timestamp).0,
        record e {
          clock = (schedule fl e.scheduler e.clock f.timestamp).2;
          scheduler = (schedule fl e.scheduler e.clock f.timestamp).1;
          data_source = record (e.data_source) { index = e.data_source.index + 1 };
          events_processed = (e.events_processed + 1) % 2 ^ 64;
          session_events = (e.session_events + 1) % 2 ^ 64;
        },
      ) =
        rw (on, Source.peek_frame e.data_source f act here, step)
          (rw (
            Source.next_frame e.data_source f act here,
            ap (λ (p : Option DataFrame × BufferedDataSource). p.1)
                (Source.next_frame e.data_source f act here),
            take_event,
          )) in
      (
        (schedule fl e.scheduler e.clock f.timestamp).0,
        ap (λ (p : StepResult × ReplayEngine F). p.0) go,
        subst (λ (p : StepResult × ReplayEngine F). Advanced e p.1) (sym go)
            (record {
              state = refl;
              frames = refl;
              active = act;
              index = omega arith;
              events = refl;
            }),
      )

  pub step_end :
      (fl : Float F) (e : ReplayEngine F)
      → may_step e.state ≡ true
      → e.data_source.active ≡ true
      → get_elem? e.data_source.frames e.data_source.index ≡ none
      → step fl e ≡ (StepResult.completed, record e { state = ReplayState.completed })
  unfolding step take_event
  step_end fl e on act here = rw (on, Source.peek_end e.data_source act here, step)

  -- What `n` rounds of `tick` do to a playing engine.
  record Ticked (n : ℕ) (e : ReplayEngine F) (count : ℕ) (e' : ReplayEngine F) : Type 0 where
    count_lem : count ≡ min n (remaining e.data_source)
    index : e'.data_source.index ≡ e.data_source.index + count
    events : e'.events_processed ≡ (e.events_processed + count) % 2 ^ 64
    frames : e'.data_source.frames ≡ e.data_source.frames
    active : e'.data_source.active ≡ true
    state : e'.state ≡ (if count == n then e.state else ReplayState.completed)

  tick_rounds_lem :
      (n : ℕ) (fl : Float F) (e : ReplayEngine F)
      → is_playing e.state ≡ true
      → e.data_source.active ≡ true
      → e.events_processed < 2 ^ 64
      → Ticked n e (tick_rounds n fl e).0 (tick_rounds n fl e).1
  unfolding tick_rounds remaining
  tick_rounds_lem zero fl e on act small = record {
    count_lem = omega arith;
    index = omega arith;
    events = omega arith;
    frames = refl;
    active = act;
    state = refl;
  }
  tick_rounds_lem (suc n) fl e on act small =
      elim (get_elem?-cases e.data_source.frames e.data_source.index) [
        | inl (lt, f, here) ↦
            let (r, out, a) = step_frame fl e f (playing_may_step e.state on) act here in
            let rest : Ticked n (step fl e).1 (tick_rounds n fl (step fl e).1).0
                (tick_rounds n fl (step fl e).1).1 =
              tick_rounds_lem n fl (step fl e).1 (ap is_playing a.state ∙ on) a.active
                (omega (arith, a.events)) in
            rw (out, tick_rounds)
              (record {
                count_lem = omega (arith, rest.count_lem, a.index, ap length a.frames);
                index = omega (arith, rest.index, a.index);
                events = omega (arith, rest.events, a.events);
                frames = rest.frames ∙ a.frames;
                active = rest.active;
                state = ground (arith, rest.state, a.state);
              })
        | inr (le, here) ↦
            let stop : step fl e
                ≡ (StepResult.completed, record e { state = ReplayState.completed }) =
              step_end fl e (playing_may_step e.state on) act here in
            rw (stop, ap (λ (p : StepResult × ReplayEngine F). p.1) stop, tick_rounds)
              (record {
                count_lem = omega arith;
                index = omega arith;
                events = omega arith;
                frames = refl;
                active = act;
                state = sym (if_false (ne→==_false 0 (suc n) (omega arith)) _ _);
              })
      ]

  -- A tick of a playing engine over an active source, whose event counter is a `u64`, processes the
  -- next frames, as many as it may or as there are; it counts each, moves the source behind them, and completes the replay exactly if it ran out of
  -- frames first.
  pub tick_lem :
      (fl : Float F) (e : ReplayEngine F) (max_events : ℕ)
      → is_playing e.state ≡ true
      → e.data_source.active ≡ true
      → e.events_processed < 2 ^ 64
      → let (count, e') = tick fl e max_events in
        (count ≡ min max_events (remaining e.data_source))
        × (e'.data_source ≡ record (e.data_source) { index = e.data_source.index + count })
        × (e'.events_processed ≡ (e.events_processed + count) % 2 ^ 64)
        × (e'.state ≡ (if count == max_events then e.state else ReplayState.completed))
  unfolding tick
  tick_lem fl e max_events on act small =
      let t : Ticked max_events e (tick_rounds max_events fl e).0 (tick_rounds max_events fl e).1 =
        tick_rounds_lem max_events fl e on act small in
      rw on (t.count_lem, cc, t.events, t.state)

  run_stopped :
      (fuel : ℕ) (fl : Float F) (e : ReplayEngine F)
      → is_playing e.state ≡ false
      → run_rounds fuel fl e ≡ (0, e)
  unfolding run_rounds tick
  run_stopped zero fl e off = refl
  run_stopped (suc fuel) fl e off = rw (off, run_rounds)

  run_again :
      (fuel : ℕ) (fl : Float F) (e : ReplayEngine F) {count : ℕ}
      → (tick fl e 10000).0 ≡ count
      → 0 < count
      → run_rounds (suc fuel) fl e ≡ (
        count + (run_rounds fuel fl (tick fl e 10000).1).0,
        (run_rounds fuel fl (tick fl e 10000).1).1,
      )
  unfolding run_rounds
  run_again fuel fl e {count} same pos = rw (same, ne→==_false count 0 (omega arith), run_rounds)

  run_over :
      (fuel : ℕ) (fl : Float F) (e : ReplayEngine F)
      → (tick fl e 10000).0 ≡ 0
      → run_rounds (suc fuel) fl e ≡ (0, (tick fl e 10000).1)
  unfolding run_rounds
  run_over fuel fl e none_left = rw (none_left, run_rounds)

  -- The whole run.
  abbrev Ran : ReplayEngine F → ℕ × ReplayEngine F → Type 0
  Ran e (total, e') =
      (total ≡ remaining e.data_source)
      × (e'.state ≡ ReplayState.completed)
      × (e'.data_source.index ≡ e.data_source.index + total)

  run_rounds_lem :
      (fuel : ℕ) (fl : Float F) (e : ReplayEngine F)
      → is_playing e.state ≡ true
      → e.data_source.active ≡ true
      → e.events_processed < 2 ^ 64
      → remaining e.data_source < fuel
      → Ran e (run_rounds fuel fl e)
  unfolding remaining
  run_rounds_lem zero fl e on act small enough = absurd (omega arith)
  run_rounds_lem (suc fuel) fl e on act small enough =
      let left : ℕ = remaining e.data_source in
      let e' : ReplayEngine F = (tick fl e 10000).1 in
      let (count, source, events, state) = tick_lem fl e 10000 on act small in
      let moved : e'.data_source.index ≡ e.data_source.index + min 10000 left =
        ap (λ (s : BufferedDataSource). s.index) source
        ∙ ap (λ (n : ℕ). e.data_source.index + n) count in
      let frames : length e'.data_source.frames ≡ length e.data_source.frames =
        ap (λ (s : BufferedDataSource). length s.frames) source in
      let active : e'.data_source.active ≡ true =
        ap (λ (s : BufferedDataSource). s.active) source ∙ act in
      elim (ℕ_discrete left 0) [
        | yes nothing_left ↦ subst (Ran e) (sym (run_over fuel fl e (count ∙ omega arith))) (
          omega arith,
          state ∙ if_false (ne→==_false (tick fl e 10000).0 10000 (omega (arith, count))) _ _,
          omega (arith, moved),
        )
        | no some_left ↦ elim (dec_lt left 10000) [
          | yes last ↦
              let ended : e'.state ≡ ReplayState.completed =
                state
                ∙ if_false (ne→==_false (tick fl e 10000).0 10000 (omega (arith, count))) _ _ in
              subst (Ran e)
                (sym (
                  run_again fuel fl e count (omega arith)
                  ∙ ap (λ (p : ℕ × ReplayEngine F). (min 10000 left + p.0, p.1))
                      (run_stopped fuel fl e' (ap is_playing ended))))
                (omega arith, ended, omega (arith, moved))
          | no more ↦
              let plays : e'.state ≡ e.state =
                state ∙ if_true (eq→== (tick fl e 10000).0 10000 (omega (arith, count))) _ _ in
              let rest : Ran e' (run_rounds fuel fl e') =
                run_rounds_lem fuel fl e' (ap is_playing plays ∙ on) active (omega (arith, events))
                  (omega (arith, moved, frames)) in
              subst (Ran e) (sym (run_again fuel fl e count (omega arith))) (
                omega (arith, rest.0, moved, frames),
                rest.1,
                omega (arith, rest.2, rest.0, moved, frames),
              )
        ]
      ]

  -- `run_to_completion` of a playing engine over an active source, whose event counter is a `u64`,
  -- ends: it has counted every frame that was left, the replay is completed, and the source stands
  -- behind those frames.
  pub run_to_completion_lem :
      (fl : Float F) (e : ReplayEngine F)
      → is_playing e.state ≡ true
      → e.data_source.active ≡ true
      → e.events_processed < 2 ^ 64
      → let (total, e') = run_to_completion fl e in
        (total ≡ remaining e.data_source)
        × (e'.state ≡ ReplayState.completed)
        × (e'.data_source.index ≡ e.data_source.index + total)
  unfolding run_to_completion
  run_to_completion_lem fl e on act small =
      run_rounds_lem (remaining e.data_source + 1) fl e on act small (omega arith)

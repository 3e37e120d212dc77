-- ===== src/Replay/Engine/Until.antt =====
-- What `step_until_event` of the replay engine does with a frame ahead.
use ai_systems_verification.Base.{
  ℕ, zero, suc, ◌+◌, ◌*◌, ◌%◌, ◌^◌, ◌≤◌, ◌<◌, ◌≡◌, ◌≢◌, ◌⊎◌, inl, inr, refl, sym, ap, ◌∙◌, subst,
  Bool, arith, if◌then◌else◌, max, eq→==, ne→==_false, if_true, if_false, ℕ_discrete,
}
use ai_systems_verification.Base.Signed.{zero_i64}
use ai_systems_verification.Replay.Scheduler.{Float, ScheduleResult, schedule, schedule_lem}
use ai_systems_verification.Replay.Source.{DataFrame}
use ai_systems_verification.Replay.Engine.{
  ReplayEngine, StepResult, noop, processed, step_rounds, step_until_event,
}
use ai_systems_verification.Replay.Engine.Round.{
  Ahead, stride, moved_to, taken, moved, round, take, moved_lem, on_the_way_lem,
}

-- A warp that is short of the frame, and others after it.
still_short :
    (steps c b t : ℕ) → c + b < t → (0 < steps → c + b + steps * b < t) → c + suc steps * b < t
still_short zero c b t one later = omega (arith, one)
still_short (suc n) c b t one later = omega (arith, later (omega arith))

module _ {F : Type 0} where
  -- The frame `f` has been processed at its time, after `k` warps that were short of it, `k` below
  -- `steps`; `r` is the schedule of the last step.
  abbrev pub Processed :
      ℕ → Float F → ReplayEngine F → DataFrame → StepResult × ReplayEngine F → Type 0
  Processed steps fl e f (out, e') =
      (k : ℕ) × (r : ScheduleResult) × (k < steps)
      × (out ≡ processed f r)
      × (r.gap_us + (e.clock.current + k * stride fl e) ≡ zero_i64 + f.timestamp)
      × (r.remaining_us ≡ zero_i64)
      × (0 < k → e.clock.current + k * stride fl e < f.timestamp)
      × (e' ≡ taken (moved_to e (max e.clock.current f.timestamp) e'.scheduler))
      × (e'.scheduler.warp_count % 2 ^ 64
          ≡ (e.scheduler.warp_count + k + (if r.warped then 1 else 0)) % 2 ^ 64)

  -- All of `steps` rounds were bounded warps, and nothing else has happened.
  abbrev pub Warped : ℕ → Float F → ReplayEngine F → StepResult × ReplayEngine F → Type 0
  Warped steps fl e (out, e') =
      (out ≡ noop)
      × (e' ≡ moved_to e (e.clock.current + steps * stride fl e) e'.scheduler)
      × (e'.scheduler.warp_count % 2 ^ 64 ≡ (e.scheduler.warp_count + steps) % 2 ^ 64)

  abbrev Outcome : ℕ → Float F → ReplayEngine F → DataFrame → StepResult × ReplayEngine F → Type 0
  Outcome steps fl e f res =
      Processed steps fl e f res
      ⊎ ((0 < steps → e.clock.current + steps * stride fl e < f.timestamp) × Warped steps fl e res)

  -- A bounded warp before an outcome is one more of them.
  Outcome-later :
      (steps : ℕ) (fl : Float F) (e : ReplayEngine F) (f : DataFrame)
      (res : StepResult × ReplayEngine F)
      → Ahead fl e f
      → (schedule fl e.scheduler e.clock f.timestamp).0.remaining_us ≢ zero_i64
      → Outcome steps fl (moved fl e f) f res
      → Outcome (suc steps) fl e f res
  Outcome-later steps fl e f (out, e') a far o =
      let (kept, count) = moved_lem fl e f a in
      let (short, at, warped) = on_the_way_lem fl e f a far in
      let counted : (moved fl e f).scheduler.warp_count % 2 ^ 64
          ≡ (e.scheduler.warp_count + 1) % 2 ^ 64 =
        count
        ∙ ap (λ (b : Bool). (e.scheduler.warp_count + (if b then 1 else 0)) % 2 ^ 64) warped in
      let same : stride fl (moved fl e f) ≡ stride fl e = ap (stride fl) kept in
      let way : (n : ℕ)
          → (moved fl e f).clock.current + n * stride fl (moved fl e f)
            ≡ e.clock.current + suc n * stride fl e =
        λ n. omega (arith, at, ap (λ (b : ℕ). n * b) same) in
      elim o [
        | inl (k, r, lt, done, gap, none_left, less, left, warps) ↦ inl (
          suc k,
          r,
          omega arith,
          done,
          ap (λ (n : ℕ). r.gap_us + n) (sym (way k)) ∙ gap,
          none_left,
          λ some_warps.
              still_short k e.clock.current (stride fl e) f.timestamp short
                (λ some_left. omega (arith, less some_left, way k)),
          left
              ∙ ap
                  (λ (m : ReplayEngine F).
                    taken (moved_to m (max (moved fl e f).clock.current f.timestamp) e'.scheduler))
                  kept
              ∙ ap (λ (n : ℕ). taken (moved_to e n e'.scheduler)) (omega (arith, at, short)),
          omega (arith, warps, counted),
        )
        | inr (less, (none_done, left, warps)) ↦ inr (
          λ lt.
              still_short steps e.clock.current (stride fl e) f.timestamp short
                (λ some_left. omega (arith, less some_left, way steps)),
          (
            none_done,
            left
                ∙ ap
                    (λ (m : ReplayEngine F).
                      moved_to m ((moved fl e f).clock.current + steps * stride fl (moved fl e f))
                        e'.scheduler)
                    kept
                ∙ ap (λ (n : ℕ). moved_to e n e'.scheduler) (way steps),
            omega (arith, warps, counted),
          ),
        )
      ]

  rounds-Outcome :
      (steps : ℕ) (fl : Float F) (e : ReplayEngine F) (f : DataFrame)
      → Ahead fl e f
      → Outcome steps fl e f (step_rounds steps fl e)
  rounds-Outcome zero fl e f a =
      unfold step_rounds in inr (λ lt. omega arith, (refl, ground arith, omega arith))
  rounds-Outcome (suc steps) fl e f a =
      let (kept, count) = moved_lem fl e f a in
      let (clock, rest, adv, warped, gap, stats) =
        schedule_lem fl e.scheduler e.clock f.timestamp a.time a.clock a.near a.behind a.forward in
      let r : ScheduleResult = (schedule fl e.scheduler e.clock f.timestamp).0 in
      elim (ℕ_discrete r.remaining_us zero_i64) [
        | yes arrived ↦
            let at : (moved fl e f).clock.current ≡ max e.clock.current f.timestamp =
              omega (arith, rest, arrived) in
            subst (Outcome (suc steps) fl e f)
              (sym (
                round steps fl e f a
                ∙ if_true (eq→== r.remaining_us zero_i64 arrived) _ _
                ∙ take fl e f r a))
              (inl (
                0,
                r,
                omega arith,
                refl,
                omega (arith, gap),
                arrived,
                λ lt. omega arith,
                ap taken (kept ∙ ap (λ (n : ℕ). moved_to e n (moved fl e f).scheduler) at),
                omega (arith, count),
              ))
        | no far ↦
            let (short, at, warp) = on_the_way_lem fl e f a far in
            subst (Outcome (suc steps) fl e f)
              (sym (round steps fl e f a ∙ if_false (ne→==_false r.remaining_us zero_i64 far) _ _))
              (Outcome-later steps fl e f (step_rounds steps fl (moved fl e f)) a far (
                rounds-Outcome steps fl (moved fl e f) f (record {
                  active = a.active;
                  here = a.here;
                  time = a.time;
                  clock = omega (arith, rest, a.clock, a.time);
                  near = omega (arith, at, a.near);
                  behind = omega (arith, at, short, a.behind);
                  forward =
                      subst
                        (λ (m : ReplayEngine F).
                          zero_i64
                          ≤ fl.max_advance m.scheduler.config.idle_threshold_us
                              m.scheduler.dynamic_max_factor_scaled)
                        (sym kept) a.forward;
                })))
      ]

  -- With a frame ahead, whose time is near enough for an `i64` difference, and a bound of a warp that
  -- is not negative, the rounds of `step_until_event` are warps by the bound until one gets to the
  -- frame. With fewer than 1000 of these before, it processes that frame with the clock at the later
  -- of its time and the time before, and takes it from the source and counts it. Else 1000 times the
  -- bound is short of the frame: that is how far the clock moves, and it returns nothing. Besides, only
  -- the statistics of the warps change, their count by as many as there were, modulo 2^64.
  pub step_until_event_lem :
      (fl : Float F) (e : ReplayEngine F) (f : DataFrame)
      → Ahead fl e f
      → Processed 1000 fl e f (step_until_event fl e)
        ⊎ ((e.clock.current + 1000 * stride fl e < f.timestamp)
            × Warped 1000 fl e (step_until_event fl e))
  unfolding step_until_event
  step_until_event_lem fl e f a = elim (rounds-Outcome 1000 fl e f a) [
    | inl done ↦ inl done
    | inr (short, warped) ↦ inr (short (omega arith), warped)
  ]

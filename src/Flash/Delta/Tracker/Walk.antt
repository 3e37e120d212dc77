-- ===== src/Flash/Delta/Tracker/Walk.antt =====
-- Where a tracker can get to.
use mathlib.Core.Option.{none-ne-some, some-injective}
use ai_systems_verification.Base.{
  ℕ, ◌+◌, ◌-◌, ◌^◌, ◌≤◌, ◌<◌, ◌≡◌, refl, sym, ap, ◌∙◌, subst, if_true, if_false, Bool-cases, inl,
  inr, true, false, [], ◌∷◌, ◌++◌, none, some, arith, if◌then◌else◌, ltb, ◌==◌, length, length-drop,
  max,
}
use ai_systems_verification.Flash.Delta.Tracker.{
  SequenceTracker, SequenceConfig, SequenceState, uninitialized, normal, gap_detected, recovering,
  SequenceCheckResult, in_order, gap, out_of_order, new, succ, at, expected_or, missing,
  record_next, is_new, record_sequence, reset, reset_with_sequence, is_gap, start_recovery,
  complete_recovery,
}

-- A step of the tracker.
pub data Step : SequenceTracker → SequenceTracker → Type 0 where
  recorded : (t : SequenceTracker) (sequence : ℕ) → Step t (record_sequence t sequence).1
  was_reset : (t : SequenceTracker) → Step t (reset t)
  was_reset_with : (t : SequenceTracker) (sequence : ℕ) → Step t (reset_with_sequence t sequence)
  started : (t : SequenceTracker) → Step t (start_recovery t)
  completed : (t : SequenceTracker) (sequence : ℕ) → Step t (complete_recovery t sequence)

pub data Reach (t : SequenceTracker) : SequenceTracker → Type 0 where
  here : Reach t t
  next : {u v : SequenceTracker} → Reach t u → Step u v → Reach t v

-- Which numbers and gaps go with a state.
abbrev pub Agrees : SequenceTracker → SequenceState → Type 0
Agrees t uninitialized = (t.last_sequence ≡ none) × (t.expected_next ≡ none) × (t.gaps ≡ [])
Agrees t normal =
    ((n : ℕ) × (t.last_sequence ≡ some n) × (t.expected_next ≡ some (succ n))) × (t.gaps ≡ [])
Agrees t gap_detected = (n : ℕ) × (t.last_sequence ≡ some n) × (t.expected_next ≡ some (succ n))
Agrees t recovering = (n : ℕ) × (t.last_sequence ≡ some n) × (t.expected_next ≡ some (succ n))

pub record IsTracking (m : ℕ) (t : SequenceTracker) : Type 0 where
  pub agrees : Agrees t t.state
  pub few : length t.gaps ≤ m
  pub limit : t.config.max_gaps ≡ m

-- A tracker in a state, once that state is known.
of_state :
    {m : ℕ} (t : SequenceTracker) (s : SequenceState)
    → t.state ≡ s
    → Agrees t s
    → length t.gaps ≤ m
    → t.config.max_gaps ≡ m
    → IsTracking m t
of_state t s e agrees few limit = record {
  agrees = subst (Agrees t) (sym e) agrees;
  few = few;
  limit = limit;
}

-- In order, the state stays, and agrees with the new number.
at-Agrees :
    (t : SequenceTracker) (sequence : ℕ) (s : SequenceState)
    → is_new s ≡ false
    → Agrees t s
    → Agrees (at t sequence) s
at-Agrees t sequence uninitialized old a = cc
at-Agrees t sequence normal old a = ((sequence, refl, refl), a.1)
at-Agrees t sequence gap_detected old a = (sequence, refl, refl)
at-Agrees t sequence recovering old a = (sequence, refl, refl)

new-gaps : (t : SequenceTracker) (s : SequenceState) → is_new s ≡ true → Agrees t s → t.gaps ≡ []
new-gaps t uninitialized fresh a = a.2
new-gaps t normal fresh a = cc
new-gaps t gap_detected fresh a = cc
new-gaps t recovering fresh a = cc

gap-Agrees :
    (t : SequenceTracker) (s : SequenceState) → is_gap s ≡ true → Agrees t s → Agrees t recovering
gap-Agrees t gap_detected waiting a = a
gap-Agrees t uninitialized waiting a = cc
gap-Agrees t normal waiting a = cc
gap-Agrees t recovering waiting a = cc

record_next-IsTracking :
    {m : ℕ} (t : SequenceTracker) (sequence : ℕ)
    → is_new t.state ≡ false
    → IsTracking m t
    → IsTracking m (record_next t sequence).1
record_next-IsTracking {m} t sequence old k =
    let expected : ℕ = expected_or t.expected_next sequence in
    let out = λ (p : SequenceCheckResult × SequenceTracker). IsTracking m p.1 in
    elim (Bool-cases (sequence == expected)) [
      | inl same ↦ subst out (sym (if_true same _ _)) (
          of_state (at t sequence) t.state refl (at-Agrees t sequence t.state old k.agrees) k.few
            k.limit)
      | inr other ↦ elim (Bool-cases (ltb expected sequence)) [
        | inl ahead ↦ subst out (sym (if_false other _ _ ∙ if_true ahead _ _)) (record {
          agrees = (sequence, refl, refl);
          few = omega (
            arith,
            k.limit,
            length-drop (length (t.gaps ++ missing t sequence ∷ []) - t.config.max_gaps)
                (t.gaps ++ missing t sequence ∷ []),
          );
          limit = k.limit;
        })
        | inr behind ↦ subst out (sym (if_false other _ _ ∙ if_false behind _ _)) k
      ]
    ]

record_sequence-IsTracking :
    {m : ℕ} (t : SequenceTracker) (sequence : ℕ)
    → IsTracking m t
    → IsTracking m (record_sequence t sequence).1
unfolding record_sequence
record_sequence-IsTracking {m} t sequence k =
    let out = λ (p : SequenceCheckResult × SequenceTracker). IsTracking m p.1 in
    elim (Bool-cases (is_new t.state)) [
      | inl fresh ↦ subst out (sym (if_true fresh _ _)) (record {
        agrees = ((sequence, refl, refl), new-gaps t t.state fresh k.agrees);
        few = k.few;
        limit = k.limit;
      })
      | inr old ↦ subst out (sym (if_false old _ _)) (record_next-IsTracking t sequence old k)
    ]

start_recovery-IsTracking :
    {m : ℕ} (t : SequenceTracker) → IsTracking m t → IsTracking m (start_recovery t)
unfolding start_recovery
start_recovery-IsTracking {m} t k = elim (Bool-cases (is_gap t.state)) [
  | inl waiting ↦
      subst (IsTracking m) (sym (if_true waiting _ _))
        (record { agrees = gap-Agrees t t.state waiting k.agrees; few = k.few; limit = k.limit })
  | inr other ↦ subst (IsTracking m) (sym (if_false other _ _)) k
]

Step-IsTracking : {m : ℕ} {t u : SequenceTracker} → Step t u → IsTracking m t → IsTracking m u
unfolding reset reset_with_sequence complete_recovery
Step-IsTracking (recorded t sequence) k = record_sequence-IsTracking t sequence k
Step-IsTracking (was_reset t) k = record {
  agrees = (refl, refl, refl);
  few = omega arith;
  limit = k.limit;
}
Step-IsTracking (was_reset_with t sequence) k = record {
  agrees = ((sequence, refl, refl), refl);
  few = omega arith;
  limit = k.limit;
}
Step-IsTracking (started t) k = start_recovery-IsTracking t k
Step-IsTracking (completed t sequence) k = record {
  agrees = ((sequence, refl, refl), refl);
  few = omega arith;
  limit = k.limit;
}

Reach_keeps : {m : ℕ} {t u : SequenceTracker} → Reach t u → IsTracking m t → IsTracking m u
Reach_keeps here k = k
Reach_keeps (next r st) k = Step-IsTracking st (Reach_keeps r k)

-- However a new tracker has got to where it is: it expects the number behind the last one that it has
-- come to, or has come to none yet; it knows of no gap unless one was found and has not been
-- recovered; and it keeps no more gaps than allowed.
pub Reach-IsTracking :
    (config : SequenceConfig) {t : SequenceTracker}
    → Reach (new config) t
    → IsTracking config.max_gaps t
unfolding new
Reach-IsTracking config r =
    Reach_keeps r (record { agrees = (refl, refl, refl); few = omega arith; limit = refl })

-- A tracker that has come to `n` expects the number behind it.
seen-expects :
    (t : SequenceTracker) (n : ℕ)
    → t.last_sequence ≡ some n
    → ((m : ℕ) × (t.last_sequence ≡ some m) × (t.expected_next ≡ some (succ m)))
    → t.expected_next ≡ some (succ n)
seen-expects t n e (m, came, expects) =
    expects ∙ ap (λ k. some (succ k)) (some-injective m n (sym came ∙ e))

seen_before :
    (t : SequenceTracker) (s : SequenceState) (n : ℕ)
    → t.last_sequence ≡ some n
    → Agrees t s
    → (is_new s ≡ false) × (t.expected_next ≡ some (succ n))
seen_before t uninitialized n e a = absurd (none-ne-some n (sym a.0 ∙ e))
seen_before t normal n e a = (refl, seen-expects t n e a.0)
seen_before t gap_detected n e a = (refl, seen-expects t n e a)
seen_before t recovering n e a = (refl, seen-expects t n e a)

-- What a tracker answers that expects `expected`.
abbrev pub answer : ℕ → ℕ → SequenceCheckResult
answer expected sequence =
    if sequence == expected
    then in_order
    else (if ltb expected sequence
        then gap (record { expected = expected; received = sequence })
        else out_of_order)

record_next_lem :
    (t : SequenceTracker) (n sequence : ℕ)
    → t.last_sequence ≡ some n
    → expected_or t.expected_next sequence ≡ n + 1
    → let (out, t') = record_next t sequence in
      (out ≡ answer (n + 1) sequence) × (t'.last_sequence ≡ some (max n sequence))
record_next_lem t n sequence e wanted = elim (Bool-cases (sequence == n + 1)) [
  | inl same ↦ rw (wanted, same) (refl, ap some (ground arith))
  | inr other ↦ elim (Bool-cases (ltb (n + 1) sequence)) [
    | inl ahead ↦ rw (wanted, other, ahead) (refl, ap some (ground arith))
    | inr behind ↦ rw (wanted, other, behind) (refl, e ∙ ap some (ground arith))
  ]
]

-- A tracker that has come to `n` answers that the next number is in order exactly if it is `n + 1`,
-- that there is a gap exactly if it is greater, and goes on from the greater of the two.
pub record_sequence_lem :
    {m : ℕ} (t : SequenceTracker) (n sequence : ℕ)
    → IsTracking m t
    → t.last_sequence ≡ some n
    → n + 1 < 2 ^ 64
    → let (out, t') = record_sequence t sequence in
      (out ≡ answer (n + 1) sequence) × (t'.last_sequence ≡ some (max n sequence))
unfolding record_sequence
record_sequence_lem t n sequence k e small =
    let (old, expects) = seen_before t t.state n e k.agrees in
    let exact : succ n ≡ n + 1 = omega arith in
    let wanted : expected_or t.expected_next sequence ≡ n + 1 =
      ap (λ o. expected_or o sequence) (expects ∙ ap (λ x. some x) exact) in
    let good = λ (p : SequenceCheckResult × SequenceTracker).
      (p.0 ≡ answer (n + 1) sequence) × (p.1.last_sequence ≡ some (max n sequence)) in
    subst good (sym (if_false old _ _)) (record_next_lem t n sequence e wanted)

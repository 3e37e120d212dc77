-- ===== src/Verify/Engine/Counts.antt =====
-- The statistics and the comparator of a verifying engine count its results.
use ai_systems_verification.Base.{
  ℕ, ◌+◌, ◌%◌, ◌^◌, ◌<◌, ◌≡◌, refl, sym, ap, ap₂, ◌∙◌, Bool, true, ◌&&◌, List, [], ◌∷◌, ◌++◌,
  append-nil, Option, none, some, arith, if◌then◌else◌, ◌==◌, length, length-append,
}
use ai_systems_verification.Verify.Comparator
use ai_systems_verification.Verify.Comparator.{MismatchRecord, ReplayComparator, compare}
use ai_systems_verification.Verify.Engine.{
  VerificationResult, matched, mismatched, error, is_match, is_mismatch, is_error, is_successful,
  VerificationStats, no_stats, incr,
}

pub count : (VerificationResult → Bool) → List VerificationResult → ℕ
count p [] = 0
count p (r ∷ rs) = (if p r then 1 else 0) + count p rs

-- The sequence number of the first mismatch.
pub first_mismatch : List VerificationResult → Option ℕ
first_mismatch [] = none
first_mismatch (matched seq ts ∷ rs) = first_mismatch rs
first_mismatch (mismatched seq ts expected actual ∷ rs) = some seq
first_mismatch (error e ∷ rs) = first_mismatch rs

pub records : List VerificationResult → List MismatchRecord
records [] = []
records (matched seq ts ∷ rs) = records rs
records (mismatched seq ts expected actual ∷ rs) =
    record { sequence = seq; timestamp = ts; original_hash = expected; replayed_hash = actual }
    ∷ records rs
records (error e ∷ rs) = records rs

pub all_match : List VerificationResult → Bool
all_match [] = true
all_match (r ∷ rs) = is_match r && all_match rs

count-append :
    (p : VerificationResult → Bool) (rs ss : List VerificationResult)
    → count p (rs ++ ss) ≡ count p rs + count p ss
unfolding count
count-append p [] ss = omega arith
count-append p (r ∷ rs) ss = omega (arith, count-append p rs ss)

abbrev or_first : Option ℕ → Option ℕ → Option ℕ
or_first none b = b
or_first (some a) b = some a

first_mismatch-append :
    (rs ss : List VerificationResult)
    → first_mismatch (rs ++ ss) ≡ or_first (first_mismatch rs) (first_mismatch ss)
unfolding first_mismatch
first_mismatch-append [] ss = refl
first_mismatch-append (matched seq ts ∷ rs) ss = first_mismatch-append rs ss
first_mismatch-append (mismatched seq ts expected actual ∷ rs) ss = refl
first_mismatch-append (error e ∷ rs) ss = first_mismatch-append rs ss

records-append : (rs ss : List VerificationResult) → records (rs ++ ss) ≡ records rs ++ records ss
unfolding records
records-append [] ss = refl
records-append (matched seq ts ∷ rs) ss = records-append rs ss
records-append (mismatched seq ts expected actual ∷ rs) ss =
    ap
      (◌∷◌ (record {
        sequence = seq;
        timestamp = ts;
        original_hash = expected;
        replayed_hash = actual;
      }))
      (records-append rs ss)
records-append (error e ∷ rs) ss = records-append rs ss

count_snoc :
    (p : VerificationResult → Bool) (rs : List VerificationResult) (r : VerificationResult)
    → count p (rs ++ r ∷ []) ≡ count p rs + (if p r then 1 else 0)
unfolding count
count_snoc p rs r = omega (arith, count-append p rs (r ∷ []))

-- Every result is of one kind.
count_kinds :
    (rs : List VerificationResult)
    → count is_match rs + count is_mismatch rs + count is_error rs ≡ length rs
unfolding count
count_kinds [] = refl
count_kinds (matched seq ts ∷ rs) = omega (arith, count_kinds rs)
count_kinds (mismatched seq ts expected actual ∷ rs) = omega (arith, count_kinds rs)
count_kinds (error e ∷ rs) = omega (arith, count_kinds rs)

all_match_lem :
    (rs : List VerificationResult)
    → all_match rs ≡ (count is_mismatch rs == 0 && count is_error rs == 0)
unfolding all_match count
all_match_lem [] = refl
all_match_lem (matched seq ts ∷ rs) = ground (arith, all_match_lem rs)
all_match_lem (mismatched seq ts expected actual ∷ rs) = ground arith
all_match_lem (error e ∷ rs) = ground arith

-- The statistics and the comparator count the results.
pub record Counted (s : VerificationStats) (c : ReplayComparator) (rs : List VerificationResult)
    : Type 0 where
  pub found_lem : s.checkpoints_found ≡ length rs % 2 ^ 64
  pub matched_lem : s.checkpoints_matched ≡ count is_match rs % 2 ^ 64
  pub mismatched_lem : s.checkpoints_mismatched ≡ count is_mismatch rs % 2 ^ 64
  pub errors_lem : s.errors ≡ count is_error rs % 2 ^ 64
  pub first_lem : s.first_mismatch_sequence ≡ first_mismatch rs
  pub compared_lem : c.checkpoints_compared ≡ (count is_match rs + count is_mismatch rs) % 2 ^ 64
  pub same_lem : c.checkpoints_matched ≡ count is_match rs % 2 ^ 64
  pub records_lem : c.mismatches ≡ records rs

-- A result, counted.
unfoldable pub stats_with : VerificationStats → VerificationResult → VerificationStats
stats_with s (matched seq ts) = record s {
  checkpoints_found = incr s.checkpoints_found;
  checkpoints_matched = incr s.checkpoints_matched;
}
stats_with s (mismatched seq ts expected actual) = record s {
  checkpoints_found = incr s.checkpoints_found;
  checkpoints_mismatched = incr s.checkpoints_mismatched;
  first_mismatch_sequence = elim s.first_mismatch_sequence [
    | none ↦ some seq
    | some first ↦ some first
  ];
}
stats_with s (error e) = record s {
  checkpoints_found = incr s.checkpoints_found;
  errors = incr s.errors;
}

unfoldable pub comparator_with : ReplayComparator → VerificationResult → ReplayComparator
comparator_with c (matched seq ts) = record c {
  checkpoints_compared = incr c.checkpoints_compared;
  checkpoints_matched = incr c.checkpoints_matched;
}
comparator_with c (mismatched seq ts expected actual) = record c {
  checkpoints_compared = incr c.checkpoints_compared;
  mismatches =
      c.mismatches
      ++ record { sequence = seq; timestamp = ts; original_hash = expected; replayed_hash = actual }
        ∷ [];
}
comparator_with c (error e) = c

first_snoc :
    (a b : Option ℕ) (rs : List VerificationResult) (r : VerificationResult)
    → a ≡ first_mismatch rs
    → b ≡ or_first a (first_mismatch (r ∷ []))
    → b ≡ first_mismatch (rs ++ r ∷ [])
first_snoc a b rs r ea eb =
    eb
    ∙ ap (λ (o : Option ℕ). or_first o (first_mismatch (r ∷ []))) ea
    ∙ sym (first_mismatch-append rs (r ∷ []))

records_snoc :
    (ms ms' : List MismatchRecord) (rs : List VerificationResult) (r : VerificationResult)
    → ms ≡ records rs
    → ms' ≡ ms ++ records (r ∷ [])
    → ms' ≡ records (rs ++ r ∷ [])
records_snoc ms ms' rs r e e' =
    e'
    ∙ ap (λ (l : List MismatchRecord). l ++ records (r ∷ [])) e
    ∙ sym (records-append rs (r ∷ []))

or_first-none : (a : Option ℕ) → a ≡ or_first a none
or_first-none none = refl
or_first-none (some x) = refl

first_or :
    (a : Option ℕ) (seq : ℕ)
    → (elim a as (λ _. Option ℕ) [ none ↦ some seq | some first ↦ some first ])
      ≡ or_first a (some seq)
first_or none seq = refl
first_or (some x) seq = refl

module _ {s : VerificationStats} {c : ReplayComparator} {rs : List VerificationResult}
    (k : Counted s c rs) where
  pub Counted-snoc :
      (r : VerificationResult) → Counted (stats_with s r) (comparator_with c r) (rs ++ r ∷ [])
  unfolding stats_with comparator_with first_mismatch records
  Counted-snoc (matched seq ts) =
      let r : VerificationResult = matched seq ts in
      let n = length-append rs (r ∷ []) in
      let m = count_snoc is_match rs r in
      let d = count_snoc is_mismatch rs r in
      record {
        found_lem = omega (arith, k.found_lem, n);
        matched_lem = omega (arith, k.matched_lem, m);
        mismatched_lem = omega (arith, k.mismatched_lem, d);
        errors_lem = omega (arith, k.errors_lem, count_snoc is_error rs r);
        first_lem =
            first_snoc s.first_mismatch_sequence _ rs r k.first_lem
              (or_first-none s.first_mismatch_sequence);
        compared_lem = omega (arith, k.compared_lem, m, d);
        same_lem = omega (arith, k.same_lem, m);
        records_lem =
            records_snoc c.mismatches _ rs r k.records_lem (sym (append-nil c.mismatches));
      }
  Counted-snoc (mismatched seq ts expected actual) =
      let r : VerificationResult = mismatched seq ts expected actual in
      let n = length-append rs (r ∷ []) in
      let m = count_snoc is_match rs r in
      let d = count_snoc is_mismatch rs r in
      record {
        found_lem = omega (arith, k.found_lem, n);
        matched_lem = omega (arith, k.matched_lem, m);
        mismatched_lem = omega (arith, k.mismatched_lem, d);
        errors_lem = omega (arith, k.errors_lem, count_snoc is_error rs r);
        first_lem =
            first_snoc s.first_mismatch_sequence _ rs r k.first_lem
              (first_or s.first_mismatch_sequence seq);
        compared_lem = omega (arith, k.compared_lem, m, d);
        same_lem = omega (arith, k.same_lem, m);
        records_lem = records_snoc c.mismatches _ rs r k.records_lem refl;
      }
  Counted-snoc (error e) =
      let r : VerificationResult = error e in
      let n = length-append rs (r ∷ []) in
      let m = count_snoc is_match rs r in
      let d = count_snoc is_mismatch rs r in
      record {
        found_lem = omega (arith, k.found_lem, n);
        matched_lem = omega (arith, k.matched_lem, m);
        mismatched_lem = omega (arith, k.mismatched_lem, d);
        errors_lem = omega (arith, k.errors_lem, count_snoc is_error rs r);
        first_lem =
            first_snoc s.first_mismatch_sequence _ rs r k.first_lem
              (or_first-none s.first_mismatch_sequence);
        compared_lem = omega (arith, k.compared_lem, m, d);
        same_lem = omega (arith, k.same_lem, m);
        records_lem =
            records_snoc c.mismatches _ rs r k.records_lem (sym (append-nil c.mismatches));
      }

  -- The count of events is not among them.
  pub Counted-events : (n : ℕ) → Counted (record s { events_processed = n }) c rs
  Counted-events n = record {
    found_lem = k.found_lem;
    matched_lem = k.matched_lem;
    mismatched_lem = k.mismatched_lem;
    errors_lem = k.errors_lem;
    first_lem = k.first_lem;
    compared_lem = k.compared_lem;
    same_lem = k.same_lem;
    records_lem = k.records_lem;
  }

  -- With fewer results than the counters can count, a success is that every result is a match.
  pub is_successful-all_match : length rs < 2 ^ 64 → is_successful s ≡ all_match rs
  unfolding is_successful
  is_successful-all_match few =
      let m : count is_mismatch rs % 2 ^ 64 ≡ count is_mismatch rs =
        omega (arith, count_kinds rs) in
      let e : count is_error rs % 2 ^ 64 ≡ count is_error rs = omega (arith, count_kinds rs) in
      ap₂ (λ (a b : ℕ). a == 0 && b == 0) (k.mismatched_lem ∙ m) (k.errors_lem ∙ e)
      ∙ sym (all_match_lem rs)

pub no_results-Counted : Counted no_stats Comparator.new []
unfolding Comparator.new count first_mismatch records
no_results-Counted = record {
  found_lem = refl;
  matched_lem = refl;
  mismatched_lem = refl;
  errors_lem = refl;
  first_lem = refl;
  compared_lem = refl;
  same_lem = refl;
  records_lem = refl;
}

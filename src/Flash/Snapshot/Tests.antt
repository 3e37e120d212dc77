-- ===== src/Flash/Snapshot/Tests.antt =====
-- Snapshots of a small order book: prices and quantities are numbers, all finite and none negative.
use ai_systems_verification.Base.{
  ℕ, ◌≡◌, refl, Bool, true, false, not, List, [], ◌∷◌, none, arith, ltb, ◌==◌,
}
use ai_systems_verification.Flash.Book.{PriceLevel, OrderBook, BookSnapshot, apply_snapshot}
use ai_systems_verification.Flash.Book.Tests.{calls, calls-IsExact, level, two_levels}
use ai_systems_verification.Flash.Book
use ai_systems_verification.Flash.Book.Levels.{get}
use ai_systems_verification.Flash.Snapshot.{Checks, ValidationConfig}
use ai_systems_verification.Flash.Snapshot.Validator.{
  validate, validate_levels, check_duplicates, contains, highest, lowest,
}
use ai_systems_verification.Flash.Snapshot.Validator.Valid.{IsOrder}
use ai_systems_verification.Flash.Snapshot.Processor.{SnapshotProcessor, apply_with_validation}
use ai_systems_verification.Flash.Snapshot.Processor.Applied.{Outcome, apply_with_validation_lem}
use ai_systems_verification.Flash.Snapshot.Diff.{diff, lookup}
use ai_systems_verification.Flash.Snapshot.Diff.Patch.{patched, quantity_of, diff-patched}

abbrev checks : Checks ℕ ℕ
checks = record {
  is_finite = λ p. true;
  less = λ a b. ltb a b;
  at_least = λ a b. not (ltb a b);
  is_negative = λ q. false;
}

abbrev validation : ValidationConfig ℕ
validation = record {
  allow_crossed = false;
  max_price = 1000;
  min_price = 0;
  allow_duplicates = false;
  min_levels_per_side = 1;
  allow_empty_side = false;
}

abbrev processor : SnapshotProcessor ℕ
processor = record {
  last_sequence = none;
  config = record {
    validate_before_apply = true;
    compute_diff = false;
    compute_checksum = false;
    validation = validation;
  };
}

checks-IsOrder : IsOrder calls checks validation
checks-IsOrder = record { less_lem = λ a b fa fb. refl; at_least_lem = λ a b fa fb. refl }

abbrev book : OrderBook ℕ ℕ ℕ
book = Book.new calls 0 two_levels false

abbrev bids : List (PriceLevel ℕ ℕ)
bids = level 99 5 ∷ level 98 4 ∷ []

abbrev asks : List (PriceLevel ℕ ℕ)
asks = level 101 7 ∷ level 102 1 ∷ []

apply_with_validation_lem_example :
    let (out, b) = apply_with_validation calls checks processor book bids asks 1 in
    Outcome calls-IsExact checks validation book bids asks 1 out b
apply_with_validation_lem_example =
    apply_with_validation_lem calls-IsExact checks processor book bids asks 1 checks-IsOrder refl
      refl refl

accepted : (apply_with_validation calls checks processor book bids asks 1).0 ≡ none
unfolding apply_with_validation validate validate_levels check_duplicates contains highest lowest
accepted = refl

numbers_differ : ℕ → ℕ → Bool
numbers_differ a b = not (a == b)

numbers_same : (a b : ℕ) → numbers_differ a b ≡ false → a ≡ b
unfolding numbers_differ
numbers_same a b h = ground arith

abbrev old : BookSnapshot ℕ ℕ ℕ
old = record { instrument = 0; timestamp = 1; bids = bids; asks = asks }

abbrev new : BookSnapshot ℕ ℕ ℕ
new = record {
  instrument = 0;
  timestamp = 2;
  bids = level 99 6 ∷ level 97 1 ∷ [];
  asks = level 101 7 ∷ [];
}

diff-patched_example :
    let d = diff calls numbers_differ old new in
    (patched calls numbers_differ d.added_bids d.modified_bids d.removed_bids 98
        (quantity_of calls numbers_differ (lookup calls numbers_differ 98 old.bids))
      ≡ quantity_of calls numbers_differ (get (Book.key calls) 98 new.bids))
    × (patched calls numbers_differ d.added_asks d.modified_asks d.removed_asks 98
          (quantity_of calls numbers_differ (lookup calls numbers_differ 98 old.asks))
        ≡ quantity_of calls numbers_differ (get (Book.key calls) 98 new.asks))
unfolding get
diff-patched_example =
    diff-patched calls numbers_differ numbers_same 98 old new (refl, (refl, tt)) (refl, tt)

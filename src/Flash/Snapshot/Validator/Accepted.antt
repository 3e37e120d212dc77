-- ===== src/Flash/Snapshot/Validator/Accepted.antt =====
-- What the validator accepts.
use ai_systems_verification.Base.{
  ◌≡◌, refl, sym, ◌∙◌, ◌↔◌, inl, inr, false, List, [], ◌∷◌, none, if◌then◌else◌, if_true, if_false,
  Bool-cases,
}
use ai_systems_verification.Flash.Book.{PriceLevel, Calls, bid, ask}
use ai_systems_verification.Flash.Book.Sides.{Apart}
use ai_systems_verification.Flash.Delta.Validator.{or_else}
use ai_systems_verification.Flash.Snapshot.{Checks, ValidationConfig}
use ai_systems_verification.Flash.Snapshot.Validator.{contains, check_duplicates, validate}
use ai_systems_verification.Flash.Snapshot.Validator.Valid.{
  IsOrder, Accepts, or_else-none, validate_levels-AreValid, AreValid-validate_levels,
  check_sizes_lem,
}
use ai_systems_verification.Flash.Snapshot.Validator.Distinct.{
  Unseen, check_duplicates-Apart, Apart-check_duplicates,
}
use ai_systems_verification.Flash.Snapshot.Validator.Crossed.{
  check_crossed-Uncrossed, Uncrossed-check_crossed,
}

module _ {I F Q : Type 0} (c : Calls I F Q) (k : Checks F Q) (config : ValidationConfig F)
    (ord : IsOrder c k config) where
  none_seen : (ls : List (PriceLevel F Q)) → Unseen c k config [] ls
  unfolding contains
  none_seen [] = tt
  none_seen (l ∷ ls) = (refl, none_seen ls)

  duplicates :
      (bids asks : List (PriceLevel F Q))
      → (config.allow_duplicates ≡ false → Apart c bids × Apart c asks)
      → (if config.allow_duplicates
          then none
          else or_else
              (check_duplicates c k config bid [] bids)
              (check_duplicates c k config ask [] asks))
        ≡ none
  duplicates bids asks apart = elim (Bool-cases config.allow_duplicates) [
    | inl on ↦ if_true on _ _
    | inr off ↦
        let (b, a) = apart off in
        if_false off _ _
        ∙ (or_else-none _ _).1 (
          Apart-check_duplicates c k config bid [] bids (none_seen bids) b,
          Apart-check_duplicates c k config ask [] asks (none_seen asks) a,
        )
  ]

  -- The validator accepts a snapshot exactly if every price is finite and within the bounds and no
  -- quantity negative; each side that has levels has enough of them, and no side is empty that may not
  -- be; every bid is below every ask, unless crossed books are allowed; and no side has a price twice,
  -- unless duplicates are allowed. On finite prices `<` and `>=` are taken to be those of the ranks.
  pub validate_lem :
      (bids asks : List (PriceLevel F Q))
      → validate c k config bids asks ≡ none ↔ Accepts c k config bids asks
  unfolding validate
  validate_lem bids asks = (
    λ e.
        let (vb, e1) = (or_else-none _ _).0 e in
        let (va, e2) = (or_else-none _ _).0 e1 in
        let (sized, e3) = (or_else-none _ _).0 e2 in
        let (crossed, dups) = (or_else-none _ _).0 e3 in
        let good_bids = validate_levels-AreValid c k config 0 bids vb in
        let good_asks = validate_levels-AreValid c k config 0 asks va in
        (
          good_bids,
          good_asks,
          (check_sizes_lem c k config bids asks).0 sized,
          check_crossed-Uncrossed c k config ord bids asks good_bids good_asks crossed,
          λ off.
              let (db, da) = (or_else-none _ _).0 (sym (if_false off _ _) ∙ dups) in
              (
                (check_duplicates-Apart c k config bid [] bids db).1,
                (check_duplicates-Apart c k config ask [] asks da).1,
              ),
        ),
    λ (good_bids, good_asks, sized, uncrossed, apart). (or_else-none _ _).1 (
      AreValid-validate_levels c k config 0 bids good_bids,
      (or_else-none _ _).1 (
        AreValid-validate_levels c k config 0 asks good_asks,
        (or_else-none _ _).1 (
          (check_sizes_lem c k config bids asks).1 sized,
          (or_else-none _ _).1 (
            Uncrossed-check_crossed c k config ord bids asks good_bids good_asks uncrossed,
            duplicates bids asks apart,
          ),
        ),
      ),
    ),
  )

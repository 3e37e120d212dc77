-- ===== src/Flash/Snapshot/Validator/Distinct.antt =====
-- Which sides have no price twice.
use ai_systems_verification.Base.{
  ℕ, ◌≡◌, refl, sym, ◌∙◌, inl, inr, false, List, [], ◌∷◌, none, if_true, if_false, arith,
  Bool-cases,
}
use mathlib.Core.Option.{none-ne-some}
use ai_systems_verification.Flash.Book.{PriceLevel, Calls, key, Side}
use ai_systems_verification.Flash.Book.Levels.{get}
use ai_systems_verification.Flash.Book.Sides.{Apart}
use ai_systems_verification.Flash.Snapshot.{Checks, ValidationConfig}
use ai_systems_verification.Flash.Snapshot.Validator.{contains, check_duplicates}

module _ {I F Q : Type 0} (c : Calls I F Q) (k : Checks F Q) (config : ValidationConfig F) where
  -- No level has a price that was seen.
  abbrev pub Unseen : List ℕ → List (PriceLevel F Q) → Type 0
  Unseen seen [] = Unit {0}
  Unseen seen (l ∷ ls) = (contains (key c l) seen ≡ false) × Unseen seen ls

  Unseen-cons :
      (n : ℕ) (seen : List ℕ) (ls : List (PriceLevel F Q))
      → Unseen (n ∷ seen) ls
      → (get (key c) n ls ≡ none) × Unseen seen ls
  unfolding get contains
  Unseen-cons n seen [] h = (refl, tt)
  Unseen-cons n seen (l ∷ ls) h = ground (arith, Unseen-cons n seen ls)

  cons-Unseen :
      (n : ℕ) (seen : List ℕ) (ls : List (PriceLevel F Q))
      → get (key c) n ls ≡ none
      → Unseen seen ls
      → Unseen (n ∷ seen) ls
  unfolding get contains
  cons-Unseen n seen [] missing h = tt
  cons-Unseen n seen (l ∷ ls) missing h = ground (arith, cons-Unseen n seen ls)

  pub check_duplicates-Apart :
      (side : Side) (seen : List ℕ) (ls : List (PriceLevel F Q))
      → check_duplicates c k config side seen ls ≡ none
      → Unseen seen ls × Apart c ls
  unfolding check_duplicates
  check_duplicates-Apart side seen [] e = (tt, tt)
  check_duplicates-Apart side seen (l ∷ ls) e = elim (Bool-cases (contains (key c l) seen)) [
    | inl old ↦ absurd (none-ne-some _ (sym e ∙ if_true old _ _))
    | inr new ↦
        let (unseen, apart) =
          check_duplicates-Apart side (key c l ∷ seen) ls (sym (if_false new _ _) ∙ e) in
        let (missing, rest) = Unseen-cons (key c l) seen ls unseen in
        ((new, rest), (missing, apart))
  ]

  pub Apart-check_duplicates :
      (side : Side) (seen : List ℕ) (ls : List (PriceLevel F Q))
      → Unseen seen ls
      → Apart c ls
      → check_duplicates c k config side seen ls ≡ none
  unfolding check_duplicates
  Apart-check_duplicates side seen [] h apart = refl
  Apart-check_duplicates side seen (l ∷ ls) (new, rest) (missing, apart) =
      if_false new _ _
      ∙ Apart-check_duplicates side (key c l ∷ seen) ls (cons-Unseen (key c l) seen ls missing rest)
          apart

-- ===== src/Flash/Snapshot/Processor/Applied.antt =====
-- What a validated snapshot makes of the book.
use ai_systems_verification.Base.{
  ℕ, zero, suc, ◌<◌, ◌≡◌, refl, sym, ◌∙◌, subst, inl, inr, Bool, true, false, List, [], ◌∷◌, Option,
  none, some, arith, take, Option-cases,
}
use mathlib.Core.Option.{none-ne-some}
use ai_systems_verification.Flash.Book.{
  PriceLevel, Calls, key, OneSide, OrderBook, load, load_level, loaded, recorded_tape,
  apply_snapshot, book_snapshot,
}
use ai_systems_verification.Flash.Book.Levels.{insert}
use ai_systems_verification.Flash.Book.Sums.{IsExact}
use ai_systems_verification.Flash.Book.Invariant.{IsBook, snapshot-IsBook}
use ai_systems_verification.Flash.Delta.Validator.{asked}
use ai_systems_verification.Flash.Snapshot.{Checks, SnapshotError, ValidationConfig}
use ai_systems_verification.Flash.Snapshot.Validator.{validate}
use ai_systems_verification.Flash.Snapshot.Validator.Valid.{IsOrder, AllBelow, Uncrossed, Accepts}
use ai_systems_verification.Flash.Snapshot.Validator.Accepted.{validate_lem}
use ai_systems_verification.Flash.Snapshot.Processor.{
  SnapshotProcessor, after_validation, apply_with_validation,
}

module _ {I F Q : Type 0} (c : Calls I F Q) (k : Checks F Q) (config : ValidationConfig F) where
  -- What a side loads is still below a rank, and is not crossed with the other side.
  insert-AllBelow :
      (n : ℕ) (l : PriceLevel F Q) (xs : List (PriceLevel F Q))
      → key c l < n
      → AllBelow c k config n xs
      → AllBelow c k config n (insert (key c) l xs)
  unfolding insert
  insert-AllBelow n l [] lt h = (lt, tt)
  insert-AllBelow n l (x ∷ xs) lt h = ground (arith, insert-AllBelow n l xs)

  load-AllBelow :
      (n m : ℕ) (prune : Bool) (ls : List (PriceLevel F Q)) (s : OneSide c)
      → AllBelow c k config n ls
      → AllBelow c k config n s.0
      → AllBelow c k config n (load c prune (take m ls) s).0
  unfolding load
  load-AllBelow n zero prune ls s h hs = hs
  load-AllBelow n (suc m) prune [] s h hs = hs
  load-AllBelow n (suc m) prune (l ∷ ls) s h hs =
      load-AllBelow n m prune ls (load_level c prune l s) h.1
        (ground (arith, insert-AllBelow n l s.0))

  insert-Uncrossed :
      (bids : List (PriceLevel F Q)) (l : PriceLevel F Q) (xs : List (PriceLevel F Q))
      → AllBelow c k config (key c l) bids
      → Uncrossed c k config bids xs
      → Uncrossed c k config bids (insert (key c) l xs)
  unfolding insert
  insert-Uncrossed bids l [] lt h = (lt, tt)
  insert-Uncrossed bids l (x ∷ xs) lt h = ground (arith, insert-Uncrossed bids l xs)

  load_asks-Uncrossed :
      (m : ℕ) (prune : Bool) (bids ls : List (PriceLevel F Q)) (s : OneSide c)
      → Uncrossed c k config bids ls
      → Uncrossed c k config bids s.0
      → Uncrossed c k config bids (load c prune (take m ls) s).0
  unfolding load
  load_asks-Uncrossed zero prune bids ls s h hs = hs
  load_asks-Uncrossed (suc m) prune bids [] s h hs = hs
  load_asks-Uncrossed (suc m) prune bids (l ∷ ls) s h hs =
      load_asks-Uncrossed m prune bids ls (load_level c prune l s) h.1
        (ground (arith, insert-Uncrossed bids l s.0))

  load_bids-Uncrossed :
      (m : ℕ) (prune : Bool) (bids asks : List (PriceLevel F Q))
      → Uncrossed c k config bids asks
      → Uncrossed c k config (load c prune (take m bids) ([], c.zero_quantity)).0 asks
  load_bids-Uncrossed m prune bids [] h = tt
  load_bids-Uncrossed m prune bids (a ∷ asks) h = (
    load-AllBelow (key c a) m prune bids ([], c.zero_quantity) h.0 tt,
    load_bids-Uncrossed m prune bids asks h.1,
  )

  apply_snapshot-Uncrossed :
      (b : OrderBook I F Q) (bids asks : List (PriceLevel F Q)) (timestamp : ℕ)
      → Uncrossed c k config bids asks
      → let b' = apply_snapshot c b bids asks timestamp in Uncrossed c k config b'.bids b'.asks
  unfolding apply_snapshot
  apply_snapshot-Uncrossed b bids asks timestamp h =
      let (tape, e) = recorded_tape c book_snapshot timestamp (loaded c b bids asks timestamp) in
      let n : ℕ = b.config.max_levels in
      let prune : Bool = b.config.auto_prune in
      subst (λ (b : OrderBook I F Q). Uncrossed c k config b.bids b.asks) (sym e)
        (load_asks-Uncrossed n prune _ asks ([], c.zero_quantity)
          (load_bids-Uncrossed n prune bids asks h) tt)

module _ {I F Q : Type 0} {c : Calls I F Q} (ex : IsExact c) (k : Checks F Q) where
  -- What goes with an answer of the processor.
  abbrev pub Outcome :
      ValidationConfig F
      → OrderBook I F Q
      → List (PriceLevel F Q)
      → List (PriceLevel F Q)
      → ℕ
      → Option (SnapshotError F)
      → OrderBook I F Q
      → Type 0
  Outcome config b bids asks timestamp (some e) b' = (b' ≡ b) × ¬ Accepts c k config bids asks
  Outcome config b bids asks timestamp none b' =
      (b' ≡ apply_snapshot c b bids asks timestamp)
      × Accepts c k config bids asks
      × IsBook c b'
      × Uncrossed c k config b'.bids b'.asks

  -- A processor that validates, with neither crossed books nor duplicates allowed, exact decimals, and
  -- `<` and `>=` of finite prices those of the ranks: a snapshot that is not valid is refused and the
  -- book unchanged; another is applied, and whatever the book was, it then has the book's invariant and
  -- every bid in it is below every ask.
  pub apply_with_validation_lem :
      (p : SnapshotProcessor F) (b : OrderBook I F Q) (bids asks : List (PriceLevel F Q))
      (timestamp : ℕ)
      → IsOrder c k p.config.validation
      → p.config.validate_before_apply ≡ true
      → p.config.validation.allow_crossed ≡ false
      → p.config.validation.allow_duplicates ≡ false
      → let (out, b') = apply_with_validation c k p b bids asks timestamp in
        Outcome p.config.validation b bids asks timestamp out b'
  unfolding apply_with_validation
  apply_with_validation_lem p b bids asks timestamp ord validates uncrossed distinct =
      let config : ValidationConfig F = p.config.validation in
      let after : OrderBook I F Q = apply_snapshot c b bids asks timestamp in
      let good = λ (o : Option (SnapshotError F)).
        Outcome config b bids asks timestamp (after_validation c k o b after).0
          (after_validation c k o b after).1 in
      let accepted = validate_lem c k config ord bids asks in
      subst (λ on. good (asked on (validate c k config bids asks))) (sym validates)
        (elim (Option-cases (validate c k config bids asks)) [
          | inr (e, fails) ↦
              subst good (sym fails) (refl, λ h. none-ne-some e (sym (accepted.1 h) ∙ fails))
          | inl passes ↦
              let h = accepted.0 passes in
              let (db, da) = h.4 distinct in
              subst good (sym passes) (
                refl,
                h,
                snapshot-IsBook ex b bids asks timestamp db da,
                apply_snapshot-Uncrossed c k config b bids asks timestamp (h.3 uncrossed),
              )
        ])

-- ===== src/Flash/Snapshot/Validator/Crossed.antt =====
-- Which snapshots are crossed.
use ai_systems_verification.Base.{
  ℕ, ◌≤◌, ◌<◌, ◌≡◌, refl, sym, subst, inl, inr, false, List, [], ◌∷◌, none, if_true, if_false,
  arith, Bool-cases,
}
use ai_systems_verification.Flash.Book.{PriceLevel, Calls, key}
use ai_systems_verification.Flash.Snapshot.{Checks, ValidationConfig}
use ai_systems_verification.Flash.Snapshot.Validator.{highest, lowest, check_crossed}
use ai_systems_verification.Flash.Snapshot.Validator.Valid.{
  IsOrder, IsValid, AreValid, AllBelow, Uncrossed,
}

module _ {I F Q : Type 0} (c : Calls I F Q) (k : Checks F Q) (config : ValidationConfig F)
    (ord : IsOrder c k config) where
  highest-AllBelow :
      (n : ℕ) (b : PriceLevel F Q) (ls : List (PriceLevel F Q))
      → IsValid c k config b
      → AreValid c k config ls
      → key c (highest c k config b ls) < n
      → AllBelow c k config n (b ∷ ls)
  unfolding highest
  highest-AllBelow n b [] vb v lt = (lt, tt)
  highest-AllBelow n b (l ∷ ls) vb v lt =
      ground (arith, ord.less_lem l.price b.price, highest-AllBelow n b ls, highest-AllBelow n l ls)

  AllBelow-highest :
      (n : ℕ) (b : PriceLevel F Q) (ls : List (PriceLevel F Q))
      → AllBelow c k config n (b ∷ ls)
      → key c (highest c k config b ls) < n
  unfolding highest
  AllBelow-highest n b [] h = h.0
  AllBelow-highest n b (l ∷ ls) h = ground (arith, AllBelow-highest n b ls, AllBelow-highest n l ls)

  AllBelow-up :
      (m n : ℕ) (ls : List (PriceLevel F Q))
      → m ≤ n
      → AllBelow c k config m ls
      → AllBelow c k config n ls
  AllBelow-up m n [] le h = tt
  AllBelow-up m n (l ∷ ls) le h = (omega arith, AllBelow-up m n ls le h.1)

  -- The lowest ask decides.
  lowest-Uncrossed :
      (bids : List (PriceLevel F Q)) (a : PriceLevel F Q) (ls : List (PriceLevel F Q))
      → IsValid c k config a
      → AreValid c k config ls
      → AllBelow c k config (key c (lowest c k config a ls)) bids
      → Uncrossed c k config bids (a ∷ ls)
  unfolding lowest
  lowest-Uncrossed bids a [] va v h = (h, tt)
  lowest-Uncrossed bids a (l ∷ ls) va v h = elim (Bool-cases (k.less l.price a.price)) [
    | inl lower ↦
        let (low, rest) = lowest-Uncrossed bids l ls v.0 v.1 (
          subst (λ b. AllBelow c k config (key c (lowest c k config b ls)) bids) (if_true lower l a)
            h) in
        (
          AllBelow-up (key c l) (key c a) bids (ground (arith, ord.less_lem l.price a.price)) low,
          (low, rest),
        )
    | inr not_lower ↦
        let (low, rest) = lowest-Uncrossed bids a ls va v.1 (
          subst (λ b. AllBelow c k config (key c (lowest c k config b ls)) bids)
            (if_false not_lower l a) h) in
        (
          low,
          (
            AllBelow-up (key c a) (key c l) bids (ground (arith, ord.less_lem l.price a.price)) low,
            rest,
          ),
        )
  ]

  Uncrossed-lowest :
      (bids : List (PriceLevel F Q)) (a : PriceLevel F Q) (ls : List (PriceLevel F Q))
      → Uncrossed c k config bids (a ∷ ls)
      → AllBelow c k config (key c (lowest c k config a ls)) bids
  unfolding lowest
  Uncrossed-lowest bids a [] h = h.0
  Uncrossed-lowest bids a (l ∷ ls) h = elim (Bool-cases (k.less l.price a.price)) [
    | inl lower ↦
        subst (λ b. AllBelow c k config (key c (lowest c k config b ls)) bids)
          (sym (if_true lower l a)) (Uncrossed-lowest bids l ls h.1)
    | inr not_lower ↦
        subst (λ b. AllBelow c k config (key c (lowest c k config b ls)) bids)
          (sym (if_false not_lower l a)) (Uncrossed-lowest bids a ls (h.0, h.1.1))
  ]

  highest-IsValid :
      (b : PriceLevel F Q) (ls : List (PriceLevel F Q))
      → IsValid c k config b
      → AreValid c k config ls
      → IsValid c k config (highest c k config b ls)
  unfolding highest
  highest-IsValid b [] vb v = vb
  highest-IsValid b (l ∷ ls) vb v = ground (arith, highest-IsValid b ls, highest-IsValid l ls)

  lowest-IsValid :
      (b : PriceLevel F Q) (ls : List (PriceLevel F Q))
      → IsValid c k config b
      → AreValid c k config ls
      → IsValid c k config (lowest c k config b ls)
  unfolding lowest
  lowest-IsValid b [] vb v = vb
  lowest-IsValid b (l ∷ ls) vb v = ground (arith, lowest-IsValid b ls, lowest-IsValid l ls)

  empty-Uncrossed : (asks : List (PriceLevel F Q)) → Uncrossed c k config [] asks
  empty-Uncrossed [] = tt
  empty-Uncrossed (a ∷ asks) = (tt, empty-Uncrossed asks)

  pub check_crossed-Uncrossed :
      (bids asks : List (PriceLevel F Q))
      → AreValid c k config bids
      → AreValid c k config asks
      → check_crossed c k config bids asks ≡ none
      → config.allow_crossed ≡ false
      → Uncrossed c k config bids asks
  check_crossed-Uncrossed [] asks vb va e off = empty-Uncrossed asks
  check_crossed-Uncrossed (b ∷ bids) [] vb va e off = tt
  check_crossed-Uncrossed (b ∷ bids) (a ∷ asks) vb va e off =
      let h : PriceLevel F Q = highest c k config b bids in
      let l : PriceLevel F Q = lowest c k config a asks in
      let same =
        ord.at_least_lem h.price l.price (highest-IsValid b bids vb.0 vb.1).0
          (lowest-IsValid a asks va.0 va.1).0 in
      let lt : key c h < key c l = ground arith in
      lowest-Uncrossed (b ∷ bids) a asks va.0 va.1 (highest-AllBelow (key c l) b bids vb.0 vb.1 lt)

  pub Uncrossed-check_crossed :
      (bids asks : List (PriceLevel F Q))
      → AreValid c k config bids
      → AreValid c k config asks
      → (config.allow_crossed ≡ false → Uncrossed c k config bids asks)
      → check_crossed c k config bids asks ≡ none
  Uncrossed-check_crossed [] asks vb va u = refl
  Uncrossed-check_crossed (b ∷ bids) [] vb va u = refl
  Uncrossed-check_crossed (b ∷ bids) (a ∷ asks) vb va u =
      let h : PriceLevel F Q = highest c k config b bids in
      let l : PriceLevel F Q = lowest c k config a asks in
      let same =
        ord.at_least_lem h.price l.price (highest-IsValid b bids vb.0 vb.1).0
          (lowest-IsValid a asks va.0 va.1).0 in
      elim (Bool-cases config.allow_crossed) [
        | inl on ↦ rw on refl
        | inr off ↦
            let lt : key c h < key c l =
              AllBelow-highest (key c l) b bids (Uncrossed-lowest (b ∷ bids) a asks (u off)) in
            ground arith
      ]

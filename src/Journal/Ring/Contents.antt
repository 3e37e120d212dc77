-- ===== src/Journal/Ring/Contents.antt =====
-- What a ring holds: the values in the slots from `tail` on, going round at the capacity.
use ai_systems_verification.Base.{
  ℕ, suc, ◌+◌, ◌%◌, ◌<◌, ◌≡◌, ◌≢◌, sym, subst, ap, ◌∙◌, List, [], ◌∷◌, ◌++◌, Option, some, arith,
  length, get_elem?, get_elem?-set_ne, set,
}
use native.Mathlib.Nat.{mod-eq_of_lt, mod-lt}
use ai_systems_verification.Base.Wrap.{mod_shift}
use ai_systems_verification.Journal.Ring.{Ring}
use ai_systems_verification.Journal.Ring.Capacity.{Shape}

pub start_index : (i c : ℕ) → i < c → (i + 0) % c ≡ i
start_index i c h = ap (λ (k : ℕ). k % c) {y = i} (omega arith) ∙ mod-eq_of_lt h

pub step_index : (i m c : ℕ) → ((i + 1) % c + m) % c ≡ (i + suc m) % c
step_index i m c = mod_shift (i + 1) m c ∙ ap (λ (k : ℕ). k % c) (omega arith)

module _ {ℓ} {A : Type ℓ} where
  -- The slots from index `i` on hold the values, in order.
  abbrev pub Slots : List (Option A) → ℕ → ℕ → List A → Type ℓ
  Slots buf cap i [] = Unit
  Slots buf cap i (x ∷ xs) = (get_elem? buf i ≡ some (some x)) × Slots buf cap ((i + 1) % cap) xs

  -- A write to a slot outside leaves the values there.
  pub Slots-set :
      (buf : List (Option A)) (cap i j : ℕ) (v : Option A) (xs : List A)
      → i < cap
      → ((m : ℕ) → m < length xs → j ≢ (i + m) % cap)
      → Slots buf cap i xs
      → Slots (set buf j v) cap i xs
  Slots-set buf cap i j v [] hi away s = tt
  Slots-set buf cap i j v (x ∷ xs) hi away (here, rest) = (
    get_elem?-set_ne buf {i = j} {j = i} v
          (λ e. away 0 (omega arith) (e ∙ sym (start_index i cap hi)))
        ∙ here,
    Slots-set buf cap ((i + 1) % cap) j v xs (mod-lt (i + 1) {m = cap} (omega arith))
        (λ m hm e. away (suc m) (omega arith) (e ∙ step_index i m cap)) rest,
  )

  -- A value written just past the others extends them.
  pub Slots-snoc :
      (buf : List (Option A)) (cap i : ℕ) (x : A) (xs : List A)
      → i < cap
      → Slots buf cap i xs
      → get_elem? buf ((i + length xs) % cap) ≡ some (some x)
      → Slots buf cap i (xs ++ x ∷ [])
  Slots-snoc buf cap i x [] hi s last =
      (subst (λ k. get_elem? buf k ≡ some (some x)) (start_index i cap hi) last, tt)
  Slots-snoc buf cap i x (y ∷ ys) hi (here, rest) last = (
    here,
    Slots-snoc buf cap ((i + 1) % cap) x ys (mod-lt (i + 1) {m = cap} (omega arith)) rest
        (subst (λ k. get_elem? buf k ≡ some (some x)) (sym (step_index i (length ys) cap)) last),
  )

  -- A valid ring with `n` slots in use, from `tail` up to `head`.
  pub record Placed (r : Ring A) (n : ℕ) : Type 0 where
    pub shape : Shape r
    pub tail_lt : r.tail < r.capacity
    pub room : n < r.capacity
    pub head_lem : r.head ≡ (r.tail + n) % r.capacity

  -- A valid ring that holds the values `xs`, oldest first.
  pub record Holds (r : Ring A) (xs : List A) : Type ℓ where
    pub placed : Placed r (length xs)
    pub values : Slots r.buffer r.capacity r.tail xs

-- ===== src/Journal/Ring/Refine.antt =====
-- A ring that holds a list of values behaves as the bounded queue of that list.
use ai_systems_verification.Base.{
  ℕ, zero, suc, ◌+◌, ◌-◌, ◌*◌, ◌^◌, ◌≤◌, ◌<◌, ◌≡◌, refl, sym, List, [], ◌∷◌, some, none, arith,
  ◌==◌, lt→ltb, le→ltb_false, ==_refl, eq→==, ne→==_false, dec_lt, max, length, set,
}
use ai_systems_verification.Journal.Ring.{
  Ring, nothing, item, new, fresh, next_index, try_push, pop, is_empty, is_full, len, max_size,
  drain, clear,
}
use ai_systems_verification.Journal.Ring.Capacity.{new-Shape, len_lem}
use ai_systems_verification.Journal.Ring.Contents.{Holds}
use ai_systems_verification.Journal.Ring.Queue
use ai_systems_verification.Journal.Ring.Moves.{
  next_head_free, next_head_full, head_ne_tail, equal_of_empty, push-Holds, pop-Holds,
}

module _ {ℓ} {A : Type ℓ} where
  -- A buffer that `new` makes holds nothing, and has room for one value less than its capacity.
  pub new_refines :
      (capacity : ℕ)
      → capacity ≤ 2 ^ 63
      → (r : Ring A) × (new capacity ≡ some r)
        × Holds r []
        × (capacity ≤ max_size r + 1)
        × (r.capacity < max capacity 2 * 2)
  unfolding max_size
  new_refines capacity h =
      let (q, e, sh, v) = new-Shape {A = A} capacity h in
      (
        fresh q,
        e,
        record {
          placed = record {
            shape = sh;
            tail_lt = omega arith;
            room = omega arith;
            head_lem = omega arith;
          };
          values = tt;
        },
        omega arith,
        v.least,
      )

  -- `try_push` answers as `Queue.push` does, and leaves the ring holding its queue.
  pub try_push_refines :
      {r : Ring A} {xs : List A} (x : A)
      → Holds r xs
      → let (done, r') = try_push r x in
        let (done', xs') = Queue.push (max_size r) xs x in (done ≡ done') × Holds r' xs'
  unfolding try_push max_size
  try_push_refines {r} {xs} x h = elim (dec_lt (suc (length xs)) r.capacity) [
    | yes p ↦
        rw
          (
            ne→==_false _ _ (next_head_free h.placed p),
            lt→ltb (length xs) (r.capacity - 1) (omega arith),
          )
          (refl, push-Holds x h p)
    | no p ↦
        rw
          (
            next_head_full h.placed (omega arith),
            ==_refl r.tail,
            le→ltb_false (length xs) (r.capacity - 1) (omega arith),
          )
          (refl, h)
  ]

  pub max_size-try_push : (r : Ring A) (x : A) → max_size (try_push r x).1 ≡ max_size r
  unfolding try_push max_size
  max_size-try_push r x = ground arith

  pop-nil : {r : Ring A} → Holds r [] → pop r ≡ (nothing, r)
  unfolding pop
  pop-nil h = rw (eq→== _ _ (equal_of_empty h.placed refl))

  pop-cons :
      {r : Ring A} {x : A} {xs : List A}
      → Holds r (x ∷ xs)
      → pop r ≡ (item x, record r { buffer = set r.buffer r.tail none; tail = next_index r r.tail })
  unfolding pop
  pop-cons h = rw (ne→==_false _ _ (head_ne_tail h.placed (omega arith)), h.values.0)

  -- `pop` takes the value that `Queue.pop` takes, and never reads an empty slot.
  pub pop_refines :
      {r : Ring A} {xs : List A}
      → Holds r xs
      → let (out, r') = pop r in let (out', xs') = Queue.pop xs in (out ≡ out') × Holds r' xs'
  pop_refines {xs = []} h = rw (pop-nil h) (refl, h)
  pop_refines {xs = x ∷ xs} h = rw (pop-cons h) (refl, pop-Holds h)

  -- The observers of a ring that holds `xs`.
  pub observers_lem :
      {r : Ring A} {xs : List A}
      → Holds r xs
      → (len r ≡ length xs)
        × (is_empty r ≡ (length xs == 0))
        × (is_full r ≡ (length xs == max_size r))
        × (length xs ≤ max_size r)
  unfolding is_empty is_full max_size
  observers_lem {r} {xs} h = (
    len_lem (length xs) h.placed.shape h.placed.tail_lt h.placed.room h.placed.head_lem,
    empty xs h,
    full,
    omega arith,
  )
    where
      empty : (xs : List A) → Holds r xs → (r.head == r.tail) ≡ (length xs == 0)
      empty [] h = rw (equal_of_empty h.placed refl) (==_refl r.tail)
      empty (x ∷ xs) h = rw (ne→==_false _ _ (head_ne_tail h.placed (omega arith))) (ground arith)

      full : (next_index r r.head == r.tail) ≡ (length xs == (r.capacity - 1))
      full = elim (dec_lt (suc (length xs)) r.capacity) [
        | yes p ↦
            rw (ne→==_false _ _ (next_head_free h.placed p))
              (sym (ne→==_false (length xs) (r.capacity - 1) (omega arith)))
        | no p ↦ rw (next_head_full h.placed (omega arith), ==_refl r.tail) (ground arith)
      ]

  drain-Holds :
      (fuel : ℕ) {r : Ring A} (xs : List A)
      → Holds r xs
      → length xs < fuel
      → Holds (drain fuel r) []
  unfolding drain
  drain-Holds zero xs h lt = absurd (omega arith)
  drain-Holds (suc fuel) {r} [] h lt = rw (pop-nil h, drain) h
  drain-Holds (suc fuel) {r} (x ∷ xs) h lt =
      let (e, rest) = pop_refines h in rw (e, drain) (drain-Holds fuel xs rest (omega arith))

  -- `clear`, and the destructor, leave an empty ring of the same capacity: the fuel is enough.
  pub clear_lem : {r : Ring A} {xs : List A} → Holds r xs → Holds (clear r) []
  unfolding clear
  clear_lem {r} {xs} h = drain-Holds (r.capacity + 1) xs h (omega arith)

-- ===== src/Journal/Ring/Moves.antt =====
-- Where the next index lies, and what one write of `try_push` or `pop` does to the contents.
use native.Mathlib.Nat.{mod-lt, mod-eq_of_lt, add-mod_right}
use ai_systems_verification.Base.{
  ℕ, suc, ◌+◌, ◌-◌, ◌%◌, ◌<◌, ◌≡◌, refl, ◌≢◌, sym, ap, ◌∙◌, subst, List, [], ◌∷◌, ◌++◌, Option,
  some, none, arith, length, length-append, length-set, get_elem?, get_elem?-set_self, set,
}
use ai_systems_verification.Base.Wrap.{mod_shift, mod-ne_within}
use ai_systems_verification.Journal.Ring.{Ring, next_index}
use ai_systems_verification.Journal.Ring.Capacity.{next_index_lem}
use ai_systems_verification.Journal.Ring.Contents.{
  Placed, Slots, Slots-set, Slots-snoc, Holds, start_index, step_index,
}

module _ {ℓ} {A : Type ℓ} {r : Ring A} {n : ℕ} (h : Placed r n) where
  pub head_lt : r.head < r.capacity
  head_lt = omega (arith, h.head_lem, mod-lt (r.tail + n) {m = r.capacity} (omega arith))

  -- The index after the head, and when it meets the tail.
  pub next_head : next_index r r.head ≡ (r.tail + suc n) % r.capacity
  next_head =
      next_index_lem h.shape r.head head_lt
      ∙ ap (λ (k : ℕ). (k + 1) % r.capacity) h.head_lem
      ∙ mod_shift (r.tail + n) 1 r.capacity
      ∙ ap (λ (k : ℕ). k % r.capacity) (omega arith)

  pub next_head_free : suc n < r.capacity → next_index r r.head ≢ r.tail
  next_head_free room e =
      mod-ne_within r.tail (suc n) r.capacity (omega arith) room
        (mod-eq_of_lt h.tail_lt ∙ sym e ∙ next_head)

  pub next_head_full : suc n ≡ r.capacity → next_index r r.head ≡ r.tail
  next_head_full full =
      next_head
      ∙ ap (λ (k : ℕ). (r.tail + k) % r.capacity) full
      ∙ add-mod_right r.tail r.capacity
      ∙ mod-eq_of_lt h.tail_lt

  pub head_ne_tail : 0 < n → r.head ≢ r.tail
  head_ne_tail pos e =
      mod-ne_within r.tail n r.capacity pos h.room (mod-eq_of_lt h.tail_lt ∙ sym e ∙ h.head_lem)

  pub equal_of_empty : n ≡ 0 → r.head ≡ r.tail
  equal_of_empty e =
      h.head_lem
      ∙ ap (λ (k : ℕ). (r.tail + k) % r.capacity) e
      ∙ start_index r.tail r.capacity h.tail_lt

  -- A write to a slot keeps the places.
  pub Placed-write : (i : ℕ) (v : Option A) → Placed (record r { buffer = set r.buffer i v }) n
  Placed-write i v = record {
    shape = record {
      exponent = h.shape.exponent;
      exponent_pos = h.shape.exponent_pos;
      exponent_lt = h.shape.exponent_lt;
      cap = h.shape.cap;
      mask_lem = h.shape.mask_lem;
      slots = length-set r.buffer i v ∙ h.shape.slots;
    };
    tail_lt = h.tail_lt;
    room = h.room;
    head_lem = h.head_lem;
  }

  -- The producer's store of the head.
  pub Placed-publish : suc n < r.capacity → Placed (record r { head = next_index r r.head }) (suc n)
  Placed-publish room = record {
    shape = record {
      exponent = h.shape.exponent;
      exponent_pos = h.shape.exponent_pos;
      exponent_lt = h.shape.exponent_lt;
      cap = h.shape.cap;
      mask_lem = h.shape.mask_lem;
      slots = h.shape.slots;
    };
    tail_lt = h.tail_lt;
    room = room;
    head_lem = next_head;
  }

  -- Values from the `k`-th slot in use up to the head stay when the free slot at the head is written.
  pub Slots-write_head :
      (i k : ℕ) (v : Option A) (ys : List A)
      → k + length ys ≡ n
      → i ≡ (r.tail + k) % r.capacity
      → Slots r.buffer r.capacity i ys
      → Slots (set r.buffer r.head v) r.capacity i ys
  Slots-write_head i k v ys hk hi s =
      Slots-set r.buffer r.capacity i r.head v ys
        (omega (arith, hi, mod-lt (r.tail + k) {m = r.capacity} (omega arith)))
        (λ m hm e.
          mod-ne_within (r.tail + (k + m)) (length ys - m) r.capacity (omega arith) (omega arith) (
            ap (λ (t : ℕ). t % r.capacity) (omega arith)
            ∙ sym (mod_shift (r.tail + k) m r.capacity)
            ∙ ap (λ (t : ℕ). (t + m) % r.capacity) (sym hi)
            ∙ sym e
            ∙ h.head_lem
            ∙ ap (λ (t : ℕ). t % r.capacity) (omega arith)))
        s

  -- The value written there joins them when the head is published.
  pub Slots-publish :
      (i k : ℕ) (x : A) (ys : List A)
      → k + length ys ≡ n
      → i ≡ (r.tail + k) % r.capacity
      → get_elem? r.buffer r.head ≡ some (some x)
      → Slots r.buffer r.capacity i ys
      → Slots r.buffer r.capacity i (ys ++ x ∷ [])
  Slots-publish i k x ys hk hi slot s =
      Slots-snoc r.buffer r.capacity i x ys
        (omega (arith, hi, mod-lt (r.tail + k) {m = r.capacity} (omega arith))) s
        (subst (λ t. get_elem? r.buffer t ≡ some (some x))
          (h.head_lem
            ∙ ap (λ (t : ℕ). t % r.capacity) (omega arith)
            ∙ sym (mod_shift (r.tail + k) (length ys) r.capacity)
            ∙ ap (λ (t : ℕ). (t + length ys) % r.capacity) (sym hi))
          slot)

module _ {ℓ} {A : Type ℓ} {r : Ring A} {n : ℕ} (h : Placed r (suc n)) where
  pub next_tail : next_index r r.tail ≡ (r.tail + 1) % r.capacity
  next_tail = next_index_lem h.shape r.tail h.tail_lt

  -- The consumer's store of the tail.
  pub Placed-release : Placed (record r { tail = next_index r r.tail }) n
  Placed-release = record {
    shape = record {
      exponent = h.shape.exponent;
      exponent_pos = h.shape.exponent_pos;
      exponent_lt = h.shape.exponent_lt;
      cap = h.shape.cap;
      mask_lem = h.shape.mask_lem;
      slots = h.shape.slots;
    };
    tail_lt = rw next_tail (mod-lt (r.tail + 1) {m = r.capacity} (omega arith));
    room = omega arith;
    head_lem = rw next_tail (h.head_lem ∙ sym (step_index r.tail n r.capacity));
  }

  -- The slot that the consumer reads is none of those behind it.
  pub Slots-take :
      (v : Option A) (ys : List A)
      → length ys ≡ n
      → Slots r.buffer r.capacity ((r.tail + 1) % r.capacity) ys
      → Slots (set r.buffer r.tail v) r.capacity ((r.tail + 1) % r.capacity) ys
  Slots-take v ys len =
      Slots-set r.buffer r.capacity ((r.tail + 1) % r.capacity) r.tail v ys
        (mod-lt (r.tail + 1) {m = r.capacity} (omega arith))
        (λ m hm e.
          mod-ne_within r.tail (suc m) r.capacity (omega arith) (omega arith)
            (mod-eq_of_lt h.tail_lt ∙ e ∙ step_index r.tail m r.capacity))

module _ {ℓ} {A : Type ℓ} {r : Ring A} where
  pub push-Holds :
      {xs : List A} (x : A)
      → Holds r xs
      → suc (length xs) < r.capacity
      → Holds
          (record r { buffer = set r.buffer r.head (some x); head = next_index r r.head })
          (xs ++ x ∷ [])
  push-Holds {xs} x h room =
      let p : Placed (record r { buffer = set r.buffer r.head (some x) }) (length xs) =
        Placed-write h.placed r.head (some x) in
      let start : r.tail ≡ (r.tail + 0) % r.capacity =
        sym (start_index r.tail r.capacity h.placed.tail_lt) in
      record {
        placed =
            subst (Placed _) (omega (arith, length-append xs (x ∷ []))) (Placed-publish p room);
        values =
            Slots-publish p r.tail 0 x xs (omega arith) start
              (get_elem?-set_self r.buffer r.head (some x)
                (omega (arith, head_lt h.placed, h.placed.shape.slots)))
              (Slots-write_head h.placed r.tail 0 (some x) xs (omega arith) start h.values);
      }

  pub pop-Holds :
      {x : A} {xs : List A}
      → Holds r (x ∷ xs)
      → Holds (record r { buffer = set r.buffer r.tail none; tail = next_index r r.tail }) xs
  pop-Holds {xs} h = record {
    placed = Placed-release (Placed-write h.placed r.tail none);
    values =
        subst (λ k. Slots (set r.buffer r.tail none) r.capacity k xs) (sym (next_tail h.placed))
          (Slots-take h.placed none xs refl h.values.1);
  }

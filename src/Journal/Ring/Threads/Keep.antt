-- ===== src/Journal/Ring/Threads/Keep.antt =====
-- What a step of the one thread leaves true of the other.
use ai_systems_verification.Base.{
  ℕ, ◌+◌, ◌%◌, ◌<◌, ◌≡◌, ◌≢◌, refl, sym, subst, ap, ◌∙◌, List, [], ◌∷◌, ◌++◌, Option, none, some,
  arith, length, length-append, get_elem?, get_elem?-set_ne, set,
}
use ai_systems_verification.Journal.Ring.{Ring, item, next_index, read_slot}
use ai_systems_verification.Journal.Ring.Contents.{Slots, Placed, start_index}
use ai_systems_verification.Journal.Ring.Moves.{
  head_ne_tail, equal_of_empty, Slots-write_head, Slots-publish,
}
use ai_systems_verification.Journal.Ring.Threads.{
  Producer, admitted, written, Consumer, seen, taken, State, ProducerSafe, ConsumerSafe, Safe,
}

module _ {ℓ} {A : Type ℓ} where
  tail_start : {r : Ring A} {n : ℕ} → Placed r n → r.tail ≡ (r.tail + 0) % r.capacity
  tail_start {r} h = sym (start_index r.tail r.capacity h.tail_lt)

  -- The producer's write to the free slot at the head does not disturb the consumer.
  pub consumer-write_head :
      {r : Ring A} (v : Option A) (xs : List A)
      → Placed r (length xs)
      → (c : Consumer A) → ConsumerSafe r xs c
      → ConsumerSafe (record r { buffer = set r.buffer r.head v }) xs c
  consumer-write_head {r} v xs h Consumer.idle s =
      Slots-write_head h r.tail 0 v xs (omega arith) (tail_start h) s
  consumer-write_head {r} v xs h seen (pos, s) =
      (pos, Slots-write_head h r.tail 0 v xs (omega arith) (tail_start h) s)
  consumer-write_head {r} v xs h (taken p) (x, ys, out, front, s) = (
    x,
    ys,
    out,
    front,
    Slots-write_head h ((r.tail + 1) % r.capacity) 1 v ys (omega (arith, ap length front)) refl s,
  )

  -- Nor does the new head, which adds the value that the slot holds.
  pub consumer-publish :
      {r : Ring A} (x : A) (xs : List A)
      → Placed r (length xs)
      → get_elem? r.buffer r.head ≡ some (some x)
      → (c : Consumer A) → ConsumerSafe r xs c
      → ConsumerSafe (record r { head = next_index r r.head }) (xs ++ x ∷ []) c
  consumer-publish {r} x xs h slot Consumer.idle s =
      Slots-publish h r.tail 0 x xs (omega arith) (tail_start h) slot s
  consumer-publish {r} x xs h slot seen (pos, s) = (
    omega (arith, length-append xs (x ∷ [])),
    Slots-publish h r.tail 0 x xs (omega arith) (tail_start h) slot s,
  )
  consumer-publish {r} x xs h slot (taken p) (y, ys, out, front, s) = (
    y,
    ys ++ x ∷ [],
    out,
    ap (λ zs. zs ++ x ∷ []) front,
    Slots-publish h ((r.tail + 1) % r.capacity) 1 x ys (omega (arith, ap length front)) refl slot s,
  )

  -- The consumer empties the slot at the tail, which is not the producer's.
  pub producer-take :
      {r : Ring A} (xs : List A)
      → Placed r (length xs)
      → 0 < length xs
      → (p : Producer A) → ProducerSafe r xs p
      → ProducerSafe (record r { buffer = set r.buffer r.tail none }) xs p
  producer-take xs h pos Producer.idle s = tt
  producer-take xs h pos (admitted x) s = s
  producer-take {r} xs h pos (written x) (room, slot) = (
    room,
    get_elem?-set_ne r.buffer {i = r.tail} {j = r.head} none (λ e. head_ne_tail h pos (sym e))
        ∙ slot,
  )

  pub producer-release :
      (r : Ring A) (xs ys : List A) (tail : ℕ)
      → length ys < length xs
      → (p : Producer A) → ProducerSafe r xs p
      → ProducerSafe (record r { tail = tail }) ys p
  producer-release r xs ys tail lt Producer.idle s = tt
  producer-release r xs ys tail lt (admitted x) (room, u) = (omega arith, u)
  producer-release r xs ys tail lt (written x) (room, slot) = (omega arith, slot)

  -- What `take_out` reads, in a safe state.
  pub read_front :
      (r : Ring A) (xs : List A)
      → 0 < length xs
      → Slots r.buffer r.capacity r.tail xs
      → (x : A) × (ys : List A) × (read_slot (get_elem? r.buffer r.tail) ≡ item x)
        × (xs ≡ x ∷ ys)
        × Slots r.buffer r.capacity ((r.tail + 1) % r.capacity) ys
  read_front r [] pos s = absurd (omega arith)
  read_front r (x ∷ xs) pos (slot, s) = (x, xs, rw slot, refl, s)

  pub some_in : {r : Ring A} (xs : List A) → Placed r (length xs) → r.head ≢ r.tail → 0 < length xs
  some_in [] h ne = absurd (ne (equal_of_empty h refl))
  some_in (x ∷ xs) h ne = omega arith

  pub front_of_seen :
      (s : State A) (xs : List A)
      → s.consumer ≡ seen
      → Safe s xs
      → (0 < length xs) × Slots s.ring.buffer s.ring.capacity s.ring.tail xs
  front_of_seen s xs i v = subst (ConsumerSafe s.ring xs) i v.consuming

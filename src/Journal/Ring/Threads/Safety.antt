-- ===== src/Journal/Ring/Threads/Safety.antt =====
-- No interleaving of the producer and the consumer loses, repeats or reorders a value, or reads a
-- slot that holds none.
use ai_systems_verification.Base.{
  suc, ◌<◌, ◌≡◌, refl, sym, subst, ap, List, [], ◌∷◌, ◌++◌, none, some, arith, length,
  length-append, get_elem?-set_self, dec_lt,
}
use ai_systems_verification.Journal.Ring.{next_index, max_size}
use ai_systems_verification.Journal.Ring.Contents.{Slots, Placed}
use ai_systems_verification.Journal.Ring.Moves.{
  head_lt, next_head_full, next_head_free, head_ne_tail, next_tail, Placed-write, Placed-publish,
  Placed-release, Slots-take,
}
use ai_systems_verification.Journal.Ring.Threads.{
  written, taken, State, Event, Step, refuse, admit, write, publish, find_none, find, take_out,
  release, Run, stop, step, Allowed, Trace, ProducerSafe, ConsumerSafe, Safe,
}
use ai_systems_verification.Journal.Ring.Threads.Keep.{
  consumer-write_head, consumer-publish, producer-take, producer-release, read_front, some_in,
  front_of_seen,
}

module _ {ℓ} {A : Type ℓ} where
  -- Each step of either thread keeps the state safe, and is what the bounded queue allows.
  pub Step-Safe :
      {s t : State A} {e : Event A} (xs : List A)
      → Step s e t
      → Safe s xs
      → (ys : List A) × Allowed (max_size s.ring) e xs ys × Safe t ys
  unfolding max_size
  Step-Safe xs (refuse s i full) v = elim (dec_lt (suc (length xs)) s.ring.capacity) [
    | yes p ↦ absurd (next_head_free v.placed p full)
    | no p ↦ (xs, (omega arith, refl), v)
  ]
  Step-Safe xs (admit s x i free) v =
      (xs, refl, record { placed = v.placed; producing = (room, tt); consuming = v.consuming })
    where
      room : suc (length xs) < s.ring.capacity
      room = elim (dec_lt (suc (length xs)) s.ring.capacity) [
        | yes p ↦ p
        | no p ↦ absurd (free (next_head_full v.placed (omega arith)))
      ]
  Step-Safe xs (write s x i) v = (
    xs,
    refl,
    record {
      placed = Placed-write v.placed s.ring.head (some x);
      producing = (
        (subst (ProducerSafe s.ring xs) i v.producing).0,
        get_elem?-set_self s.ring.buffer s.ring.head (some x)
            (omega (arith, head_lt v.placed, v.placed.shape.slots)),
      );
      consuming = consumer-write_head (some x) xs v.placed s.consumer v.consuming;
    },
  )
  Step-Safe xs (publish s x i) v =
      let safe : ProducerSafe s.ring xs (written x) =
        subst (ProducerSafe s.ring xs) i v.producing in
      (
        xs ++ x ∷ [],
        (omega (arith, safe.0), refl),
        record {
          placed =
              subst (Placed _) (omega (arith, length-append xs (x ∷ [])))
                (Placed-publish v.placed safe.0);
          producing = tt;
          consuming = consumer-publish x xs v.placed safe.1 s.consumer v.consuming;
        },
      )
  Step-Safe [] (find_none s i e) v = ([], (refl, refl), v)
  Step-Safe (x ∷ xs) (find_none s i e) v = absurd (head_ne_tail v.placed (omega arith) e)
  Step-Safe xs (find s i ne) v = (
    xs,
    refl,
    record {
      placed = v.placed;
      producing = v.producing;
      consuming = (some_in xs v.placed ne, subst (ConsumerSafe s.ring xs) i v.consuming);
    },
  )
  Step-Safe xs (take_out s i) v =
      let (pos, slots) = front_of_seen s xs i v in
      let (x, ys, out, front, rest) = read_front s.ring xs pos slots in
      (
        xs,
        refl,
        record {
          placed = Placed-write v.placed s.ring.tail none;
          producing = producer-take xs v.placed pos s.producer v.producing;
          consuming = (
            x,
            ys,
            out,
            front,
            Slots-take (subst (Placed s.ring) (ap length front) v.placed) none ys refl rest,
          );
        },
      )
  Step-Safe xs (release s p i) v =
      let safe : ConsumerSafe s.ring xs (taken p) = subst (ConsumerSafe s.ring xs) i v.consuming in
      let (x, ys, out, front, rest) = safe in
      let h : Placed s.ring (suc (length ys)) = subst (Placed s.ring) (ap length front) v.placed in
      (
        ys,
        (x, out, front),
        record {
          placed = Placed-release h;
          producing =
              producer-release s.ring xs ys (next_index s.ring s.ring.tail)
                (omega (arith, ap length front)) s.producer v.producing;
          consuming =
              subst (λ k. Slots s.ring.buffer s.ring.capacity k ys) (sym (next_tail h)) rest;
        },
      )

  max_size-Step : {s t : State A} {e : Event A} → Step s e t → max_size t.ring ≡ max_size s.ring
  unfolding max_size
  max_size-Step (refuse s i full) = refl
  max_size-Step _ = refl

  -- Every interleaving of calls of `try_push` and `pop` by one producer and one consumer behaves as
  -- one queue: the events happen in their order to a bounded queue, and no read is undefined.
  pub Run-Trace :
      {s t : State A} {es : List (Event A)} (xs : List A)
      → Run s es t
      → Safe s xs
      → (ys : List A) × Trace (max_size s.ring) es xs ys × Safe t ys
  Run-Trace xs (stop s) v = (xs, refl, v)
  Run-Trace xs (step {es = later} st run) v =
      let (zs, allowed, v') = Step-Safe xs st v in
      let (ys, trace, v'') = Run-Trace zs run v' in
      (ys, (zs, allowed, subst (λ m. Trace m later zs ys) (max_size-Step st) trace), v'')

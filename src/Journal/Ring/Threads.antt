-- ===== src/Journal/Ring/Threads.antt =====
-- The producer and the consumer of journal/ring_buffer.rs as two threads. Each step is one access to
-- shared memory, with the thread's own computation; an `Acquire` load reads the last `Release` store.
-- A step either belongs to the one thread or to the other, in any order.
pub mod Keep
pub mod Safety
pub mod Fifo
use ai_systems_verification.Base.{
  ℕ, zero, suc, ◌+◌, ◌%◌, ◌<◌, ◌≡◌, ◌≢◌, refl, sym, subst, ap, ◌∙◌, List, [], ◌∷◌, ◌++◌,
  append_assoc, Option, none, some, arith, length, length-append, get_elem?, get_elem?-set_self,
  get_elem?-set_ne, set,
}
use ai_systems_verification.Journal.Ring.{
  Ring, Popped, nothing, item, undefined, next_index, read_slot, max_size,
}
use ai_systems_verification.Journal.Ring.Contents.{Slots, Placed, Holds, start_index}
use ai_systems_verification.Journal.Ring.Moves.{
  head_lt, next_head_full, next_head_free, head_ne_tail, equal_of_empty, next_tail, Placed-write,
  Placed-publish, Placed-release, Slots-write_head, Slots-publish, Slots-take,
}

-- How far `try_push` has come: it has seen a free slot, or has written it.
pub data Producer {ℓ} (A : Type ℓ) : Type ℓ where
  idle : Producer A
  admitted : A → Producer A
  written : A → Producer A

-- How far `pop` has come: it has seen a value, or has read it.
pub data Consumer {ℓ} (A : Type ℓ) : Type ℓ where
  idle : Consumer A
  seen : Consumer A
  taken : Popped A → Consumer A

pub record State {ℓ} (A : Type ℓ) : Type ℓ where
  pub ring : Ring A
  pub producer : Producer A
  pub consumer : Consumer A

-- What a call that ends with a step has returned.
pub data Event {ℓ} (A : Type ℓ) : Type ℓ where
  silent : Event A
  pushed : A → Event A
  refused : Event A
  popped : Popped A → Event A
  found_empty : Event A

module _ {ℓ} {A : Type ℓ} where
  pub data Step : State A → Event A → State A → Type ℓ where
    refuse :
        (s : State A)
        → s.producer ≡ Producer.idle
        → next_index s.ring s.ring.head ≡ s.ring.tail
        → Step s refused s
    admit :
        (s : State A) (x : A)
        → s.producer ≡ Producer.idle
        → next_index s.ring s.ring.head ≢ s.ring.tail
        → Step s silent (record s { producer = admitted x })
    write :
        (s : State A) (x : A)
        → s.producer ≡ admitted x
        → Step s silent (record s {
          ring = record (s.ring) { buffer = set s.ring.buffer s.ring.head (some x) };
          producer = written x;
        })
    publish :
        (s : State A) (x : A)
        → s.producer ≡ written x
        → Step s (pushed x) (record s {
          ring = record (s.ring) { head = next_index s.ring s.ring.head };
          producer = Producer.idle;
        })
    find_none :
        (s : State A)
        → s.consumer ≡ Consumer.idle
        → s.ring.head ≡ s.ring.tail
        → Step s found_empty s
    find :
        (s : State A)
        → s.consumer ≡ Consumer.idle
        → s.ring.head ≢ s.ring.tail
        → Step s silent (record s { consumer = seen })
    take_out :
        (s : State A)
        → s.consumer ≡ seen
        → Step s silent (record s {
          ring = record (s.ring) { buffer = set s.ring.buffer s.ring.tail none };
          consumer = taken (read_slot (get_elem? s.ring.buffer s.ring.tail));
        })
    release :
        (s : State A) (p : Popped A)
        → s.consumer ≡ taken p
        → Step s (popped p) (record s {
          ring = record (s.ring) { tail = next_index s.ring s.ring.tail };
          consumer = Consumer.idle;
        })

  pub data Run : State A → List (Event A) → State A → Type ℓ where
    stop : (s : State A) → Run s [] s
    step :
        {s t u : State A} {e : Event A} {es : List (Event A)}
        → Step s e t
        → Run t es u
        → Run s (e ∷ es) u

  -- What the bounded queue allows: which event may happen at `xs`, and what it leaves.
  abbrev pub Allowed : ℕ → Event A → List A → List A → Type ℓ
  Allowed most silent xs ys = ys ≡ xs
  Allowed most (pushed x) xs ys = (length xs < most) × (ys ≡ xs ++ x ∷ [])
  Allowed most refused xs ys = (length xs ≡ most) × (ys ≡ xs)
  Allowed most (popped p) xs ys = (x : A) × (p ≡ item x) × (xs ≡ x ∷ ys)
  Allowed most found_empty xs ys = (xs ≡ []) × (ys ≡ xs)

  abbrev pub Trace : ℕ → List (Event A) → List A → List A → Type ℓ
  Trace most [] xs ys = ys ≡ xs
  Trace most (e ∷ es) xs ys = (zs : List A) × Allowed most e xs zs × Trace most es zs ys

  -- What each thread may rely on at its own place, whatever the other does meanwhile.
  abbrev pub ProducerSafe : Ring A → List A → Producer A → Type ℓ
  ProducerSafe r xs Producer.idle = Unit
  ProducerSafe r xs (admitted x) = (suc (length xs) < r.capacity) × Unit {ℓ}
  ProducerSafe r xs (written x) =
      (suc (length xs) < r.capacity) × (get_elem? r.buffer r.head ≡ some (some x))

  abbrev pub ConsumerSafe : Ring A → List A → Consumer A → Type ℓ
  ConsumerSafe r xs Consumer.idle = Slots r.buffer r.capacity r.tail xs
  ConsumerSafe r xs seen = (0 < length xs) × Slots r.buffer r.capacity r.tail xs
  ConsumerSafe r xs (taken p) =
      (x : A) × (ys : List A) × (p ≡ item x)
      × (xs ≡ x ∷ ys)
      × Slots r.buffer r.capacity ((r.tail + 1) % r.capacity) ys

  -- The ring and the threads at the values `xs`.
  pub record Safe (s : State A) (xs : List A) : Type ℓ where
    pub placed : Placed s.ring (length xs)
    pub producing : ProducerSafe s.ring xs s.producer
    pub consuming : ConsumerSafe s.ring xs s.consumer

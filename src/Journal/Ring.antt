-- ===== src/Journal/Ring.antt =====
-- journal/ring_buffer.rs, `RingBuffer<T>`: the single-producer single-consumer ring between the
-- application and the writer thread. A `usize` has 64 bits. A slot of `MaybeUninit<T>` is an
-- `Option`: `none` is a slot with no value in it, and `assume_init_read` moves the value out.
-- One call at a time here; `Ring/Threads` has the two threads step by step.
pub mod Capacity
pub mod Contents
pub mod Moves
pub mod Queue
pub mod Refine
pub mod Threads
use Prim.Native.Nat.{bit_and}
use ai_systems_verification.Base.{
  ℕ, zero, suc, ◌+◌, ◌-◌, ◌*◌, ◌%◌, ◌^◌, max, Bool, true, false, List, [], ◌∷◌, Option, none, some,
  if◌then◌else◌, ◌==◌, leb, get_elem?, set, replicate,
}
use mathlib.Core.Option

-- `usize::next_power_of_two`: `none` where it does not fit in a `usize`, which panics.
double_until : ℕ → ℕ → ℕ → Option ℕ
double_until zero p n = if leb n p then some p else none
double_until (suc k) p n = let rest = double_until k (p * 2) n in if leb n p then some p else rest

pub next_power_of_two : ℕ → Option ℕ
unfolding double_until
next_power_of_two n = double_until 63 1 n

pub record Ring {ℓ} (A : Type ℓ) : Type ℓ where
  pub buffer : List (Option A)
  pub capacity : ℕ
  pub mask : ℕ
  pub head : ℕ
  pub tail : ℕ

-- What `pop` returns. `undefined` is the behaviour that the code's SAFETY comments rule out: a read
-- of a slot that holds no value.
pub data Popped {ℓ} (A : Type ℓ) : Type ℓ where
  nothing : Popped A
  item : A → Popped A
  undefined : Popped A

module _ {ℓ} {A : Type ℓ} where
  abbrev pub fresh : ℕ → Ring A
  fresh capacity = record {
    buffer = replicate capacity none;
    capacity = capacity;
    mask = capacity - 1;
    head = 0;
    tail = 0;
  }

  pub new : ℕ → Option (Ring A)
  new capacity = Option.map fresh (next_power_of_two (max capacity 2))

  -- `(i + 1) & self.mask`.
  abbrev pub next_index : Ring A → ℕ → ℕ
  next_index r i = bit_and ((i + 1) % 2 ^ 64) r.mask

  pub try_push : Ring A → A → Bool × Ring A
  try_push r x =
      if next_index r r.head == r.tail
      then (false, r)
      else (true, record r { buffer = set r.buffer r.head (some x); head = next_index r r.head })

  -- `buffer[tail].assume_init_read()`.
  abbrev read_slot : Option (Option A) → Popped A
  read_slot none = undefined
  read_slot (some none) = undefined
  read_slot (some (some x)) = item x

  pub pop : Ring A → Popped A × Ring A
  pop r = if r.head == r.tail then (nothing, r) else (
    read_slot (get_elem? r.buffer r.tail),
    record r { buffer = set r.buffer r.tail none; tail = next_index r r.tail },
  )

  pub is_empty : Ring A → Bool
  is_empty r = r.head == r.tail

  pub is_full : Ring A → Bool
  is_full r = next_index r r.head == r.tail

  -- `head.wrapping_sub(tail) & self.mask`.
  pub len : Ring A → ℕ
  len r = bit_and ((r.head + 2 ^ 64 - r.tail) % 2 ^ 64) r.mask

  pub max_size : Ring A → ℕ
  max_size r = r.capacity - 1

  -- `while self.pop().is_some() {}`, on fuel.
  drain : ℕ → Ring A → Ring A
  drain zero r = r
  drain (suc fuel) r =
      let (out, r') = pop r in elim out [ nothing ↦ r | item x ↦ drain fuel r' | undefined ↦ r' ]

  -- The rounds that a full ring takes, and one that finds it empty (`Refine.clear_lem`). The
  -- destructor runs the same loop.
  pub clear : Ring A → Ring A
  unfolding drain
  clear r = drain (r.capacity + 1) r

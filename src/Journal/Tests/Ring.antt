-- ===== src/Journal/Tests/Ring.antt =====
-- The ring buffer of four slots at work.
use ai_systems_verification.Base.{ℕ, ◌≡◌, refl, List, [], ◌∷◌, ◌++◌, none, some, arith}
use ai_systems_verification.Journal.Ring
use ai_systems_verification.Journal.Ring.{Ring, Popped, nothing, item, undefined}
use ai_systems_verification.Journal.Ring.Contents.{Holds}
use ai_systems_verification.Journal.Ring.Queue
use ai_systems_verification.Journal.Ring.Refine.{try_push_refines, pop_refines}
use ai_systems_verification.Journal.Ring.Threads.{
  State, silent, pushed, admit, write, publish, Run, stop, step, Trace, Safe,
}
use ai_systems_verification.Journal.Ring.Threads.Safety.{Run-Trace}
use ai_systems_verification.Journal.Ring.Threads.Fifo.{
  values_in, values_out, start, start-Safe, Run-fifo,
}

abbrev one : List ℕ
one = 7 ∷ []

abbrev ring : Ring ℕ
ring = Ring.fresh 4

ring-Holds : Holds ring []
ring-Holds = record {
  placed = record {
    shape = record {
      exponent = 2;
      exponent_pos = omega arith;
      exponent_lt = omega arith;
      cap = refl;
      mask_lem = refl;
      slots = refl;
    };
    tail_lt = omega arith;
    room = omega arith;
    head_lem = refl;
  };
  values = tt;
}

-- The ring with one value in it.
abbrev ring_of_one : Ring ℕ
ring_of_one = record {
  buffer = some 7 ∷ none ∷ none ∷ none ∷ [];
  capacity = 4;
  mask = 3;
  head = 1;
  tail = 0;
}

ring_of_one-Holds : Holds ring_of_one (7 ∷ [])
ring_of_one-Holds = record {
  placed = record {
    shape = record {
      exponent = 2;
      exponent_pos = omega arith;
      exponent_lt = omega arith;
      cap = refl;
      mask_lem = refl;
      slots = refl;
    };
    tail_lt = omega arith;
    room = omega arith;
    head_lem = refl;
  };
  values = (refl, tt);
}

try_push_refines_example :
    let (done, r') = Ring.try_push ring 7 in
    let (done', xs') = Queue.push {A = ℕ} (Ring.max_size ring) [] 7 in (done ≡ done') × Holds r' xs'
try_push_refines_example = try_push_refines 7 ring-Holds

pop_refines_example :
    let (out, r') = Ring.pop ring_of_one in
    let (out', xs') = Queue.pop {A = ℕ} (7 ∷ []) in (out ≡ out') × Holds r' xs'
pop_refines_example = pop_refines ring_of_one-Holds

-- One value goes in while nothing is read, and then comes out.
abbrev after_push : State ℕ
after_push = start ring_of_one

push_run : Run (start ring) (silent ∷ silent ∷ pushed 7 ∷ []) after_push
push_run =
    step (admit (start ring) 7 refl (omega arith))
      (step (write _ 7 refl) (step (publish _ 7 refl) (stop after_push)))

Run-Trace_example :
    (ys : List ℕ) × Trace (Ring.max_size ring) (silent ∷ silent ∷ pushed 7 ∷ []) [] ys
    × Safe after_push ys
Run-Trace_example = Run-Trace [] push_run (start-Safe ring-Holds)

Run-fifo_example :
    (ys : List ℕ) × (values_in (silent ∷ silent ∷ pushed 7 ∷ [])
      ≡ values_out (silent ∷ silent ∷ pushed 7 ∷ []) ++ ys)
    × Safe after_push ys
Run-fifo_example = Run-fifo push_run ring-Holds

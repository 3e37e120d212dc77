-- ===== src/Journal/Ring/Threads/Fifo.antt =====
-- The values that go through the ring, in their order.
use ai_systems_verification.Base.{
  ℕ, ◌≡◌, sym, ap, ◌∙◌, List, [], ◌∷◌, ◌++◌, append_assoc, append-nil,
}
use ai_systems_verification.Journal.Ring.{Ring, nothing, item, undefined}
use ai_systems_verification.Journal.Ring.Contents.{Holds}
use ai_systems_verification.Journal.Ring.Moves.{}
use ai_systems_verification.Journal.Ring.Threads.{
  Producer, Consumer, State, Event, silent, pushed, refused, popped, found_empty, Run, Trace, Safe,
}
use ai_systems_verification.Journal.Ring.Threads.Safety.{Run-Trace}

module _ {ℓ} {A : Type ℓ} where
  -- The values that calls of `try_push` have put in, and that calls of `pop` have returned.
  abbrev pub values_in : List (Event A) → List A
  values_in [] = []
  values_in (pushed x ∷ es) = x ∷ values_in es
  values_in (_ ∷ es) = values_in es

  abbrev pub values_out : List (Event A) → List A
  values_out [] = []
  values_out (popped (item x) ∷ es) = x ∷ values_out es
  values_out (_ ∷ es) = values_out es

  Trace-values :
      (most : ℕ) (es : List (Event A)) (xs ys : List A)
      → Trace most es xs ys
      → xs ++ values_in es ≡ values_out es ++ ys
  Trace-values most [] xs ys t = append-nil xs ∙ sym t
  Trace-values most (silent ∷ es) xs ys (zs, a, t) =
      ap (λ (l : List A). l ++ values_in es) (sym a) ∙ Trace-values most es zs ys t
  Trace-values most (pushed x ∷ es) xs ys (zs, (room, a), t) =
      sym (append_assoc xs (x ∷ []) (values_in es))
      ∙ ap (λ (l : List A). l ++ values_in es) (sym a)
      ∙ Trace-values most es zs ys t
  Trace-values most (refused ∷ es) xs ys (zs, (full, a), t) =
      ap (λ (l : List A). l ++ values_in es) (sym a) ∙ Trace-values most es zs ys t
  Trace-values most (popped nothing ∷ es) xs ys (zs, (x, out, front), t) = cc
  Trace-values most (popped undefined ∷ es) xs ys (zs, (x, out, front), t) = cc
  Trace-values most (popped (item y) ∷ es) xs ys (zs, (x, out, front), t) =
      let e : y ≡ x = cc in rw (front, e) (ap (◌∷◌ x) (Trace-values most es zs ys t))
  Trace-values most (found_empty ∷ es) xs ys (zs, (none_left, a), t) =
      ap (λ (l : List A). l ++ values_in es) (sym a) ∙ Trace-values most es zs ys t

  abbrev pub start : Ring A → State A
  start r = record { ring = r; producer = Producer.idle; consumer = Consumer.idle }

  pub start-Safe : {r : Ring A} {xs : List A} → Holds r xs → Safe (start r) xs
  start-Safe h = record { placed = h.placed; producing = tt; consuming = h.values }

  -- From an empty ring, whatever the interleaving: the values returned by `pop` are, in order, the
  -- first of those that `try_push` accepted, and the others are in the ring.
  pub Run-fifo :
      {r : Ring A} {t : State A} {es : List (Event A)}
      → Run (start r) es t
      → Holds r []
      → (ys : List A) × (values_in es ≡ values_out es ++ ys) × Safe t ys
  Run-fifo {es} run h =
      let (ys, trace, safe) = Run-Trace [] run (start-Safe h) in
      (ys, Trace-values _ es [] ys trace, safe)

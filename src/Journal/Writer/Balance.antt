-- ===== src/Journal/Writer/Balance.antt =====
-- How many entries were pushed, and where they are.
use ai_systems_verification.Base.{ℕ, ◌+◌, ◌<◌, ◌≡◌, ◌∙◌, inl, inr, List, ◌∷◌, true, arith, length}
use ai_systems_verification.Journal.Entry.{BufferEntry}
use ai_systems_verification.Journal.Writer.{JournalWriter, Background, round}
use ai_systems_verification.Journal.Writer.Step.{Advanced}

-- What was pushed is stored, waits in the ring, or was dropped, and then the writer is degraded.
pub record Balance (w : JournalWriter) (es pending : List BufferEntry) : Type 0 where
  pub dropped : ℕ
  pub sum : w.sequence ≡ length es + length pending + dropped
  pub told : 0 < dropped → w.shared.degraded ≡ true

module _ (hash : List ℕ → ℕ) where
  -- A round keeps the balance.
  pub Advanced-Balance :
      {w : JournalWriter} {b : Background} {pre : List ℕ} {es : List BufferEntry} {e : BufferEntry}
      {pending : List BufferEntry}
      → Balance w es (e ∷ pending)
      → (a : Advanced hash w.shared b pre es e pending
          (round hash w.shared b).0
          (round hash w.shared b).1)
      → Balance (record w { shared = (round hash w.shared b).0 }) a.now pending
  Advanced-Balance k a = elim a.counted [
    | inl (longer, same) ↦ record {
      dropped = k.dropped;
      sum = omega (arith, k.sum, longer);
      told = λ lt. same ∙ k.told lt;
    }
    | inr (same, told) ↦ record {
      dropped = k.dropped + 1;
      sum = omega (arith, k.sum, same);
      told = λ lt. told;
    }
  ]

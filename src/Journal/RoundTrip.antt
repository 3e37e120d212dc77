-- ===== src/Journal/RoundTrip.antt =====
-- The writer and the reader together: what the background thread has stored, a loop over the reader
-- gives back.
pub mod Session
use ai_systems_verification.Base.{
  ℕ, zero, suc, ◌+◌, ◌-◌, ◌%◌, ◌^◌, ◌≤◌, ◌<◌, ◌≡◌, ◌≢◌, refl, sym, ap, ap₂, ◌∙◌, subst, List, [],
  ◌∷◌, ◌++◌, append_assoc, Bool, true, false, arith, length, length-append,
}
use ai_systems_verification.Journal.Format.{record_header_size}
use ai_systems_verification.Journal.Format.Record
use ai_systems_verification.Journal.Entry
use ai_systems_verification.Journal.Entry.{BufferEntry, as_slice}
use ai_systems_verification.Journal.Writer.{record_header}
use ai_systems_verification.Journal.Writer.Log.{IsTyped, encode, encode_all}
use ai_systems_verification.Journal.Writer.Rounds.{record_header-IsTyped, length-encode}
use ai_systems_verification.Journal.Writer.Step.{record_size}
use ai_systems_verification.Journal.Reader.{
  JournalReader, Next, no_more, got, done, advance, finish, pass, read_next, next, collect,
}
use ai_systems_verification.Journal.Reader as Reader
use ai_systems_verification.Journal.Reader.Progress.{next-done, collect-got, collect-end}
use ai_systems_verification.Journal.Reader.ReadBack.{
  Written, EndsRecords, pass-record, pass-end, footer_number,
}

-- An entry whose record the reader does not take for the end of the records: the ranges of the Rust
-- types, a length that fits the header's field, and neither a zero type nor the footer's magic
-- number as a time stamp.
pub record IsReadable (e : BufferEntry) : Type 0 where
  pub typed : IsTyped e
  pub short : Entry.len e.payload < 2 ^ 32
  pub kind : e.record_type ≢ 0
  pub time : e.timestamp ≢ footer_number

abbrev pub AllReadable : List BufferEntry → Type 0
AllReadable [] = Unit
AllReadable (e ∷ es) = IsReadable e × AllReadable es

module _ (hash : List ℕ → ℕ) where
  -- The records to be read: numbered from `sequence` on, each behind the one before.
  abbrev pub recorded : ℕ → ℕ → List BufferEntry → List Reader.Entry
  recorded sequence offset [] = []
  recorded sequence offset (e ∷ es) =
      record {
        header = record_header hash sequence e;
        payload = as_slice e.payload;
        offset = offset;
      }
      ∷ recorded ((sequence + 1) % 2 ^ 32) (offset + record_size e) es

module _ (hash : List ℕ → ℕ) (hash_lt : (bs : List ℕ) → hash bs < 2 ^ 32) where
  record_header-Written :
      {e : BufferEntry} (sequence : ℕ)
      → IsReadable e
      → sequence < 2 ^ 32
      → Written hash (record_header hash sequence e) (as_slice e.payload)
  unfolding record_header Entry.len
  record_header-Written {e} sequence v lt = record {
    typed = record_header-IsTyped hash hash_lt sequence v.typed lt;
    size = omega (arith, v.short);
    crc = refl;
    kind = v.kind;
    time = v.time;
  }

  pass-encode :
      (r : JournalReader) (pre rest : List ℕ) (k : ℕ) (e : BufferEntry)
      → IsReadable e
      → k < 2 ^ 32
      → r.mmap ≡ pre ++ (encode hash k e ++ rest)
      → r.read_position ≡ length pre
      → r.finished ≡ false
      → length r.mmap < 2 ^ 63
      → pass hash r
        ≡ done
            (got (record {
              header = record_header hash k e;
              payload = as_slice e.payload;
              offset = r.read_position;
            }))
            (advance r (r.read_position + record_size e))
  unfolding encode Entry.len
  pass-encode r pre rest k e ve lt split pos on small =
      pass-record hash r pre rest (as_slice e.payload) (record_header hash k e)
        (record_header-Written k ve lt)
        (split
          ∙ ap (λ (l : List ℕ). pre ++ l)
              (append_assoc (Record.to_bytes (record_header hash k e)) (as_slice e.payload) rest))
        pos on small

  -- The loop over a reader that stands at a run of records yields them in order, with their payloads,
  -- sequence numbers and offsets, and ends without an error at what stands behind them.
  pub collect-encode_all :
      (fuel : ℕ) (r : JournalReader) (pre tail : List ℕ) (sequence : ℕ) (es : List BufferEntry)
      → AllReadable es
      → EndsRecords tail
      → r.mmap ≡ pre ++ (encode_all hash sequence es ++ tail)
      → r.read_position ≡ length pre
      → r.finished ≡ false
      → length r.mmap < 2 ^ 63
      → sequence < 2 ^ 32
      → length es < fuel
      → collect hash fuel r ≡ (recorded hash sequence (length pre) es, no_more)
  collect-encode_all zero r pre tail k es v ends file pos on small lt more = absurd (omega arith)
  collect-encode_all (suc fuel) r pre tail k [] v ends file pos on small lt more =
      collect-end hash fuel r (finish r)
        (next-done hash r (finish r) no_more (pass-end hash r pre tail ends file pos on small))
  collect-encode_all (suc fuel) r pre tail k (e ∷ es) (ve, v) ends file pos on small lt more =
      let rest : List ℕ = encode_all hash ((k + 1) % 2 ^ 32) es ++ tail in
      let entry : Reader.Entry = record {
        header = record_header hash k e;
        payload = as_slice e.payload;
        offset = r.read_position;
      } in
      let r' : JournalReader = advance r (r.read_position + record_size e) in
      let split : r.mmap ≡ pre ++ (encode hash k e ++ rest) =
        file ∙ ap (λ (l : List ℕ). pre ++ l) (append_assoc (encode hash k e) _ tail) in
      let here : pass hash r ≡ done (got entry) r' =
        pass-encode r pre rest k e ve lt split pos on small in
      let more' : length (pre ++ encode hash k e) ≡ length pre + record_size e =
        length-append pre (encode hash k e)
        ∙ ap (λ (n : ℕ). length pre + n) (length-encode hash hash_lt k ve.typed lt) in
      let ih : collect hash fuel r'
          ≡ (recorded hash ((k + 1) % 2 ^ 32) (length (pre ++ encode hash k e)) es, no_more) =
        collect-encode_all fuel r' (pre ++ encode hash k e) tail ((k + 1) % 2 ^ 32) es v ends
          (split ∙ sym (append_assoc pre (encode hash k e) rest)) (omega (arith, more', pos)) on
          small (omega arith) (omega arith) in
      collect-got hash fuel r r' entry (next-done hash r r' (got entry) here)
      ∙ ap (λ (p : List Reader.Entry × Next). (entry ∷ p.0, p.1)) ih
      ∙ ap₂
          (λ (o o' : ℕ).
            (record entry { offset = o } ∷ recorded hash ((k + 1) % 2 ^ 32) o' es, no_more))
          pos more'

-- ===== src/Journal/Writer/Log.antt =====
-- The bytes of a run of records, and the state in which the background thread has stored one.
use ai_systems_verification.Base.{
  ℕ, ◌+◌, ◌%◌, ◌^◌, ◌≤◌, ◌<◌, ◌≡◌, sym, ap, ◌∙◌, List, [], ◌∷◌, ◌++◌, append_assoc, append-nil,
  arith, length,
}
use ai_systems_verification.Journal.Format.{file_footer_size}
use ai_systems_verification.Journal.Format.Record
use ai_systems_verification.Journal.Entry
use ai_systems_verification.Journal.Entry.{BufferEntry, as_slice}
use ai_systems_verification.Journal.Writer.{Shared, Background, record_header}

-- The ranges of the Rust types; a slice has at most `isize::MAX` bytes.
pub record IsTyped (e : BufferEntry) : Type 0 where
  pub record_type_lt : e.record_type < 2 ^ 16
  pub exchange_id_lt : e.exchange_id < 256
  pub timestamp_lt : e.timestamp < 2 ^ 64
  pub payload_lt : Entry.len e.payload < 2 ^ 63

module _ (hash : List ℕ → ℕ) where
  -- A record as it stands in the file.
  unfoldable pub encode : ℕ → BufferEntry → List ℕ
  encode sequence e = Record.to_bytes (record_header hash sequence e) ++ as_slice e.payload

  -- Records one after another, numbered from `sequence` on, mod 2^32.
  abbrev pub encode_all : ℕ → List BufferEntry → List ℕ
  encode_all sequence [] = []
  encode_all sequence (e ∷ es) = encode sequence e ++ encode_all ((sequence + 1) % 2 ^ 32) es

  pub encode_all-snoc :
      (k : ℕ) (es : List BufferEntry) (e : BufferEntry)
      → k < 2 ^ 32
      → encode_all k (es ++ e ∷ []) ≡ encode_all k es ++ encode ((k + length es) % 2 ^ 32) e
  encode_all-snoc k [] e h = append-nil _ ∙ ap (λ (n : ℕ). encode n e) (omega arith)
  encode_all-snoc k (d ∷ es) e h =
      ap (λ (l : List ℕ). encode k d ++ l)
        (encode_all-snoc ((k + 1) % 2 ^ 32) es e (omega arith)
          ∙ ap (λ (n : ℕ). encode_all ((k + 1) % 2 ^ 32) es ++ encode n e) (omega arith))
      ∙ sym (append_assoc (encode k d) (encode_all ((k + 1) % 2 ^ 32) es) _)

  -- The file holds `pre`, the records `es` and then `free`, with room for the footer.
  pub record Stored (s : Shared) (b : Background) (pre : List ℕ) (es : List BufferEntry)
      (free : List ℕ) : Type 0 where
    pub bytes : b.mmap ≡ (pre ++ encode_all 0 es) ++ free
    pub position : s.write_position ≡ length (pre ++ encode_all 0 es)
    pub footer_room : s.write_position + file_footer_size ≤ length b.mmap
    pub small : length b.mmap ≤ 2 ^ 32
    pub sequence : b.sequence ≡ length es % 2 ^ 32
    pub last_lt : s.last_timestamp < 2 ^ 64
    pub count : s.records_written ≡ length es % 2 ^ 64

-- ===== src/Journal/RoundTrip/Session.antt =====
-- A whole session: a new journal is written to, closed, opened and read.
use ai_systems_verification.Base.{
  ℕ, ◌+◌, ◌-◌, ◌%◌, ◌^◌, ◌≤◌, ◌<◌, ◌≡◌, refl, sym, ap, ◌∙◌, subst, false, List, [], ◌∷◌, ◌++◌,
  append_assoc, append-nil, arith, ltb, Bool-cases, inl, inr, length, length-append, drop,
}
use ai_systems_verification.Journal.Format.{file_footer_size, footer_magic}
use ai_systems_verification.Journal.Format.Header
use ai_systems_verification.Journal.Format.Header.{FileHeader}
use ai_systems_verification.Journal.Format.Footer
use ai_systems_verification.Journal.Format.Schema.{SchemaBlock}
use ai_systems_verification.Journal.Entry.{BufferEntry}
use ai_systems_verification.Journal.Schema.{Codec, Embedded, serialize_block}
use ai_systems_verification.Journal.Schema.RoundTrip.{IsSound}
use ai_systems_verification.Journal.Schema.NewHeader.{Describes, Embeds, length-serialize_block}
use ai_systems_verification.Journal.Writer.{Shared, JournalWriter, Background, close}
use ai_systems_verification.Journal.Writer.Config.{WriterConfig}
use ai_systems_verification.Journal.Writer.Create.{IsNew}
use ai_systems_verification.Journal.Writer.Log.{encode_all}
use ai_systems_verification.Journal.Writer.Step.{keep, AllTyped, room_left, record_size}
use ai_systems_verification.Journal.Writer.Close.{Closed, close-Closed}
use ai_systems_verification.Journal.Writer.Finish.{
  closed_header, closed_footer, closed-IsTyped, write_footer-bytes, length-write_footer,
}
use ai_systems_verification.Journal.Writer.Writes.{entry_of}
use ai_systems_verification.Journal.Writer.Session.{
  Session, Event, written, turn, step, steps, entries, IsGood, steps-IsGood, step_accepts,
  turn_accepts,
}
use ai_systems_verification.Journal.Reader.{ReaderConfig, JournalReader, no_more, collect}
use ai_systems_verification.Journal.Reader.Open.{opened, open_with_config}
use ai_systems_verification.Journal.Reader.Open.Accepted.{open_with_config-opened}
use ai_systems_verification.Journal.Reader.ReadBack.{EndsRecords, footer}
use ai_systems_verification.Journal.RoundTrip.{
  IsReadable, AllReadable, recorded, collect-encode_all,
}

AllReadable-AllTyped : (es : List BufferEntry) → AllReadable es → AllTyped es
AllReadable-AllTyped [] v = tt
AllReadable-AllTyped (e ∷ es) (ve, v) = (ve.typed, AllReadable-AllTyped es v)

AllReadable-snoc :
    (es : List BufferEntry) (e : BufferEntry)
    → AllReadable es
    → IsReadable e
    → AllReadable (es ++ e ∷ [])
AllReadable-snoc [] e v ve = (ve, tt)
AllReadable-snoc (d ∷ es) e (vd, v) ve = (vd, AllReadable-snoc es e v ve)

AllReadable-keep : (room : ℕ) (es : List BufferEntry) → AllReadable es → AllReadable (keep room es)
AllReadable-keep room [] v = tt
AllReadable-keep room (e ∷ es) (ve, v) = elim (Bool-cases (ltb room (record_size e))) [
  | inl full ↦ rw (full, keep) (AllReadable-keep room es v)
  | inr fits ↦ rw (fits, keep) (ve, AllReadable-keep (room - record_size e) es v)
]

length-keep : (room : ℕ) (es : List BufferEntry) → length (keep room es) ≤ length es
length-keep room [] = omega arith
length-keep room (e ∷ es) = elim (Bool-cases (ltb room (record_size e))) [
  | inl full ↦ rw (full, keep) (omega (arith, length-keep room es))
  | inr fits ↦ rw (fits, keep) (omega (arith, length-keep (room - record_size e) es))
]

module _ (hash : List ℕ → ℕ) where
  steps-AllReadable :
      (s : Session) (events : List Event)
      → AllReadable (entries events)
      → AllReadable s.accepted
      → AllReadable (steps hash s events).accepted
  steps-AllReadable s [] v va = va
  steps-AllReadable s (written t x p ts ∷ es) (ve, v) va =
      steps-AllReadable (step hash s (written t x p ts)) es v
        (step_accepts hash AllReadable s t x p ts va (AllReadable-snoc s.accepted _ va ve))
  steps-AllReadable s (turn ∷ es) v va =
      steps-AllReadable (step hash s turn) es v (turn_accepts hash AllReadable s va)

  length-steps :
      (s : Session) (events : List Event)
      → length (steps hash s events).accepted ≤ length s.accepted + length (entries events)
  length-steps s [] = omega arith
  length-steps s (written t x p ts ∷ es) =
      let most : List BufferEntry → Type 0 = λ l. length l ≤ length s.accepted + 1 in
      omega (
        arith,
        length-steps (step hash s (written t x p ts)) es,
        step_accepts hash most s t x p ts (omega arith)
            (omega (arith, length-append s.accepted (entry_of t x p ts ∷ []))),
      )
  length-steps s (turn ∷ es) = omega (
    arith,
    length-steps (step hash s turn) es,
    turn_accepts hash (λ l. length l ≤ length s.accepted) s (omega arith),
  )

-- The session of a new journal, before anything is written.
abbrev pub started : JournalWriter → Background → Session
started w b = record { writer = w; background = b; accepted = [] }

pub IsNew-IsGood :
    {hash : List ℕ → ℕ} {config : WriterConfig} {pre : List ℕ} {w : JournalWriter} {b : Background}
    → IsNew hash config pre w b
    → IsGood hash pre (room_left w.shared b) (started w b)
IsNew-IsGood {config} {pre} v = record {
  es = [];
  free = v.free;
  pending = [];
  stored = v.stored;
  holds = v.holds;
  typed = tt;
  on = v.on;
  up = v.up;
  running = v.running;
  balance = λ few. (
    v.none_pushed,
    record { dropped = 0; sum = v.none_pushed; told = λ lt. absurd (omega arith) },
  );
  kept = λ more. refl;
}

closed_header-Describes :
    {e : Embedded} {h : FileHeader} {b : SchemaBlock} (s : Shared)
    → Describes e h b
    → s.records_written < 2 ^ 64
    → s.last_timestamp < 2 ^ 64
    → Describes e (closed_header h s) b
unfolding Header.validate
closed_header-Describes {h} s d n t = record {
  typed = closed-IsTyped s d.typed n t;
  valid = d.valid;
  offset = d.offset;
  size = d.size;
  first = d.first;
  schema_hash = d.schema_hash;
}

module _ (c : Codec) (hash_lt : (bs : List ℕ) → c.hash bs < 2 ^ 32) where
  -- Reading a closed journal.
  collect_after :
      (e : Embedded) (h : FileHeader) (block : SchemaBlock) (rc : ReaderConfig) (w : JournalWriter)
      (b : Background) (kept : List BufferEntry) (fuel : ℕ)
      → IsSound c e
      → c.hash e.xml ≡ e.xml_hash
      → Describes e h block
      → Embeds c e block
      → AllReadable kept
      → Closed c.hash hash_lt w b (Header.to_bytes h ++ serialize_block c block) kept
      → length kept < fuel
      → (r : JournalReader) × (open_with_config c b.mmap rc ≡ opened r)
        × (r.header.record_count ≡ length kept % 2 ^ 64)
        × (collect c.hash fuel r ≡ (recorded c.hash 0 h.first_record kept, no_more))
  collect_after e h block rc w b kept fuel sound hash_eq d m readable v more =
      let sch : List ℕ = serialize_block c block in
      let s : Shared = w.shared in
      let h' : FileHeader = closed_header h s in
      let d' : Describes e h' block =
        closed_header-Describes s d (omega (arith, v.stored.count)) v.stored.last_lt in
      let pre : List ℕ = Header.to_bytes h' ++ sch in
      let recs : List ℕ = encode_all c.hash 0 kept in
      let tail : List ℕ = closed_footer s ++ drop file_footer_size v.free in
      let file : b.mmap ≡ pre ++ (recs ++ tail) =
        v.footer ∙ write_footer-bytes c.hash h sch kept d.typed v.stored in
      let small : length b.mmap < 2 ^ 63 =
        omega (arith, ap length v.footer, length-write_footer s v.before.mmap, v.stored.small) in
      let split : b.mmap ≡ Header.to_bytes h' ++ (sch ++ (recs ++ tail)) =
        file ∙ append_assoc (Header.to_bytes h') sch (recs ++ tail) in
      let first : h.first_record ≡ length pre = omega (
        arith,
        length-append (Header.to_bytes h') sch,
        Header.length-to_bytes d'.typed,
        length-serialize_block c m,
        d.first,
      ) in
      let (rest, magic, long) =
        Footer.to_bytes-magic s.records_written ((s.write_position + file_footer_size) % 2 ^ 64)
          s.last_timestamp in
      let more_bytes : List ℕ = drop file_footer_size v.free in
      let ends : EndsRecords tail =
        footer (rest ++ more_bytes)
          (ap (λ (l : List ℕ). l ++ more_bytes) magic ∙ append_assoc footer_magic rest more_bytes)
          (omega (arith, length-append rest more_bytes)) in
      let r : JournalReader = record {
        mmap = b.mmap;
        header = h';
        schema_xml = e.xml;
        read_position = h'.first_record;
        records_read = 0;
        finished = false;
        config = rc;
      } in
      (
        r,
        open_with_config-opened c e h' block (recs ++ tail) b.mmap rc sound hash_eq d' m split
            small,
        v.stored.count,
        collect-encode_all c.hash hash_lt fuel r pre tail 0 kept readable ends file first refl small
              (omega arith) more
            ∙ ap (λ (o : ℕ). (recorded c.hash 0 o kept, no_more)) (sym first),
      )

  -- A new journal is written to, in any interleaving with the background thread, and closed. The file
  -- opens, its header counts the records that it has, and a loop over the reader gives back, in
  -- order and with nothing else, the entries that the ring accepted, less those that the file had
  -- no room for.
  pub close-collect :
      (e : Embedded) (config : WriterConfig) (h : FileHeader) (block : SchemaBlock)
      (rc : ReaderConfig) (w : JournalWriter) (b : Background) (events : List Event) (fuel : ℕ)
      → IsSound c e
      → c.hash e.xml ≡ e.xml_hash
      → Describes e h block
      → Embeds c e block
      → IsNew c.hash config (Header.to_bytes h ++ serialize_block c block) w b
      → AllReadable (entries events)
      → length (entries events) < fuel
      → let s = steps c.hash (started w b) events in
        let (w', b') = close c.hash s.writer s.background in
        let kept = keep (room_left w.shared b) s.accepted in
        (b'.running ≡ false)
        × ((r : JournalReader) × (open_with_config c b'.mmap rc ≡ opened r)
            × (r.header.record_count ≡ length kept % 2 ^ 64)
            × (collect c.hash fuel r ≡ (recorded c.hash 0 h.first_record kept, no_more)))
  close-collect e config h block rc w b events fuel sound hash_eq d m new readable more =
      let room : ℕ = room_left w.shared b in
      let pre : List ℕ = Header.to_bytes h ++ serialize_block c block in
      let s : Session = steps c.hash (started w b) events in
      let g : IsGood c.hash pre room s =
        steps-IsGood c.hash hash_lt (started w b) events (AllReadable-AllTyped _ readable)
          (IsNew-IsGood new) in
      let all : AllReadable (keep room s.accepted) =
        AllReadable-keep room s.accepted
          (steps-AllReadable c.hash (started w b) events readable tt) in
      let kept : g.es ++ keep (room_left s.writer.shared s.background) g.pending
          ≡ keep room s.accepted =
        ap (λ (l : List BufferEntry). g.es ++ keep (room_left s.writer.shared s.background) l)
          (sym (append-nil g.pending))
        ∙ g.kept []
        ∙ ap (keep room) (append-nil s.accepted) in
      let v : Closed c.hash hash_lt (close c.hash s.writer s.background).0
          (close c.hash s.writer s.background).1 pre (keep room s.accepted) =
        subst
          (Closed c.hash hash_lt (close c.hash s.writer s.background).0
            (close c.hash s.writer s.background).1 pre)
          kept
          (close-Closed c.hash hash_lt s.writer s.background pre g.es g.pending g.free g.typed
            g.stored g.holds g.on g.running) in
      (
        v.stopped,
        collect_after e h block rc _ _ (keep room s.accepted) fuel sound hash_eq d m all v
            (omega (arith, length-keep room s.accepted, length-steps c.hash (started w b) events)),
      )

-- ===== src/Journal/Writer/Finish.antt =====
-- What `write_footer` leaves in the file.
use ai_systems_verification.Base.{
  ℕ, ◌+◌, ◌%◌, ◌^◌, ◌<◌, ◌≡◌, sym, ap, ap₂, ◌∙◌, List, [], ◌++◌, append_assoc, true, arith, leb,
  le→leb, if_true, length, length-append, take, drop,
}
use ai_systems_verification.Base.Bytes.{
  copy_at, copy_at-append, drop-append_of, take-append_of, length-copy_at,
}
use ai_systems_verification.Journal.Format.{file_header_size, file_footer_size}
use ai_systems_verification.Journal.Format.Header
use ai_systems_verification.Journal.Format.Header.{FileHeader}
use ai_systems_verification.Journal.Format.Footer as FooterFormat
use ai_systems_verification.Journal.Entry.{BufferEntry}
use ai_systems_verification.Journal.Writer.{Shared, Background, write_footer, add_usize}
use ai_systems_verification.Journal.Writer.Log.{Stored, encode_all}

-- The header and the footer of the closed file.
abbrev pub closed_header : FileHeader → Shared → FileHeader
closed_header h s = record h { record_count = s.records_written; session_end = s.last_timestamp }

abbrev pub closed_footer : Shared → List ℕ
closed_footer s = FooterFormat.to_bytes (
    FooterFormat.new s.records_written ((s.write_position + file_footer_size) % 2 ^ 64)
      s.last_timestamp)

pub closed-IsTyped :
    {h : FileHeader} (s : Shared)
    → Header.IsTyped h
    → s.records_written < 2 ^ 64
    → s.last_timestamp < 2 ^ 64
    → Header.IsTyped (closed_header h s)
closed-IsTyped {h} s t n l = ground arith

-- The file keeps its length.
pub length-write_footer : (s : Shared) (mmap : List ℕ) → length (write_footer s mmap) ≡ length mmap
unfolding write_footer
length-write_footer s mmap =
    let h : FileHeader = Header.from_bytes (take file_header_size mmap) in
    let counted : List ℕ = copy_at mmap 0 (Header.to_bytes (closed_header h s)) in
    ground (
      arith,
      length-copy_at counted s.write_position (closed_footer s),
      length-copy_at mmap 0 (Header.to_bytes (closed_header h s)),
    )

module _ (hash : List ℕ → ℕ) where
  -- The counts go into the header, the footer stands right behind the records, and nothing else
  -- changes.
  pub write_footer-bytes :
      (h : FileHeader) (schema : List ℕ) {s : Shared} {b : Background} {free : List ℕ}
      (es : List BufferEntry)
      → Header.IsTyped h
      → Stored hash s b (Header.to_bytes h ++ schema) es free
      → write_footer s b.mmap
        ≡ (Header.to_bytes (closed_header h s) ++ schema)
          ++ (encode_all hash 0 es ++ (closed_footer s ++ drop file_footer_size free))
  unfolding write_footer
  write_footer-bytes h schema {s} {b} {free} es t v =
      let rw_lt : s.records_written < 2 ^ 64 = omega (arith, v.count) in
      let ts_lt : s.last_timestamp < 2 ^ 64 = v.last_lt in
      let old : List ℕ = Header.to_bytes h in
      let hdr : List ℕ = Header.to_bytes (closed_header h s) in
      let recs : List ℕ = encode_all hash 0 es in
      let foot : List ℕ = closed_footer s in
      let t' : Header.IsTyped (closed_header h s) = closed-IsTyped s t rw_lt ts_lt in
      let n : length old ≡ file_header_size = Header.length-to_bytes t in
      let n' : length hdr ≡ file_header_size = Header.length-to_bytes t' in
      let f : length foot ≡ file_footer_size =
        FooterFormat.length-to_bytes (FooterFormat.new-IsTyped _ _ _ rw_lt (omega arith) ts_lt) in
      let behind : List ℕ = schema ++ (recs ++ free) in
      let file : b.mmap ≡ old ++ behind =
        v.bytes ∙ append_assoc (old ++ schema) recs free ∙ append_assoc old schema (recs ++ free) in
      let size : length b.mmap ≡ file_header_size + length behind =
        ap length file ∙ length-append old behind ∙ ap (λ (k : ℕ). k + length behind) n in
      let header : Header.from_bytes (take file_header_size b.mmap) ≡ h =
        ap (λ (l : List ℕ). Header.from_bytes (take file_header_size l)) file
        ∙ ap Header.from_bytes (take-append_of old behind n)
        ∙ Header.from_bytes-to_bytes t in
      let counted : copy_at b.mmap 0 hdr ≡ ((hdr ++ schema) ++ recs) ++ free =
        copy_at-append [] b.mmap hdr (omega arith)
        ∙ ap₂ (λ (k : ℕ) (l : List ℕ). hdr ++ drop k l) n' file
        ∙ ap (λ (l : List ℕ). hdr ++ l) (drop-append_of old behind n)
        ∙ sym (append_assoc hdr schema (recs ++ free))
        ∙ sym (append_assoc (hdr ++ schema) recs free) in
      let place : s.write_position ≡ length ((hdr ++ schema) ++ recs) = omega (
        arith,
        v.position,
        length-append (old ++ schema) recs,
        length-append old schema,
        length-append (hdr ++ schema) recs,
        length-append hdr schema,
      ) in
      let room : length b.mmap ≡ s.write_position + length free =
        ap length v.bytes
        ∙ length-append _ free
        ∙ ap (λ (k : ℕ). k + length free) (sym v.position) in
      let inside : leb (add_usize s.write_position file_footer_size) (length b.mmap) ≡ true =
        le→leb _ _ (omega (arith, v.footer_room, v.small)) in
      if_true inside _ _
      ∙ ap
          (λ (k : FileHeader).
            copy_at (copy_at b.mmap 0 (Header.to_bytes (closed_header k s))) s.write_position foot)
          header
      ∙ ap₂ (λ (l : List ℕ) (k : ℕ). copy_at l k foot) counted place
      ∙ copy_at-append ((hdr ++ schema) ++ recs) free foot (omega (arith, v.footer_room))
      ∙ ap (λ (k : ℕ). ((hdr ++ schema) ++ recs) ++ (foot ++ drop k free)) f
      ∙ append_assoc (hdr ++ schema) recs (foot ++ drop file_footer_size free)

-- ===== src/Journal/Format/Packed.antt =====
-- journal/format.rs: `to_bytes` and `from_bytes` of the four packed structures.
use ai_systems_verification.Base.{◌≡◌, length}
use ai_systems_verification.Journal.Format.{
  file_header_size, schema_block_header_size, record_header_size, file_footer_size,
}
use ai_systems_verification.Journal.Format.Header
use ai_systems_verification.Journal.Format.Schema
use ai_systems_verification.Journal.Format.Record
use ai_systems_verification.Journal.Format.Footer

-- The file header, the schema block header, the record header and the footer take the bytes that
-- their size constants say, and each is read back from its bytes, where its fields are in the ranges
-- of their types.
pub packed-round_trip :
    (h : Header.FileHeader) (s : Schema.SchemaBlockHeader) (r : Record.RecordHeader)
    (f : Footer.FileFooter)
    → Header.IsTyped h
    → Schema.IsTyped s
    → Record.IsTyped r
    → Footer.IsTyped f
    → ((length (Header.to_bytes h) ≡ file_header_size)
        × (Header.from_bytes (Header.to_bytes h) ≡ h))
      × ((length (Schema.to_bytes s) ≡ schema_block_header_size)
          × (Schema.from_bytes (Schema.to_bytes s) ≡ s))
      × ((length (Record.to_bytes r) ≡ record_header_size)
          × (Record.from_bytes (Record.to_bytes r) ≡ r))
      × ((length (Footer.to_bytes f) ≡ file_footer_size)
          × (Footer.from_bytes (Footer.to_bytes f) ≡ f))
packed-round_trip h s r f th ts tr tf = (
  (Header.length-to_bytes th, Header.from_bytes-to_bytes th),
  (Schema.length-to_bytes ts, Schema.from_bytes-to_bytes ts),
  (Record.length-to_bytes tr, Record.from_bytes-to_bytes tr),
  (Footer.length-to_bytes tf, Footer.from_bytes-to_bytes tf),
)

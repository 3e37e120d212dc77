-- ===== src/Journal/Reader/Open/Accepted.antt =====
-- Opening a file that starts with a header and the schema block that the header describes.
use ai_systems_verification.Base.{
  ℕ, ◌+◌, ◌^◌, ◌≤◌, ◌<◌, ◌≡◌, refl, sym, subst, ap, ◌∙◌, inl, inr, Bool, true, false, not, ◌||◌,
  List, ◌++◌, append_assoc, none, some, arith, if◌then◌else◌, ltb, le→ltb_false, ◌==◌, ==_refl,
  length, length-append, take,
}
use ai_systems_verification.Base.Bytes.{beq_bytes_iff, take-append_of}
use ai_systems_verification.Journal.Format.{
  file_header_size, schema_block_header_size, schema_magic,
}
use ai_systems_verification.Journal.Format.Header
use ai_systems_verification.Journal.Format.Header.{FileHeader}
use ai_systems_verification.Journal.Format.Schema
use ai_systems_verification.Journal.Format.Schema.{SchemaBlock, zstd, no_compression}
use ai_systems_verification.Journal.Schema.{Codec, Embedded, serialize_block}
use ai_systems_verification.Journal.Schema.RoundTrip.{IsSound}
use ai_systems_verification.Journal.Schema.NewHeader.{
  Describes, Embeds, serialize_block_lem, length-serialize_block,
}
use ai_systems_verification.Journal.Reader.{ReaderConfig, add_usize, range, schema_decompress}
use ai_systems_verification.Journal.Reader.Open.{
  Outcome, opened, refused, extract_schema, open_with_config, or_refuse,
}
use ai_systems_verification.Journal.Reader.ReadBack.{range-middle}

or_true : (b : Bool) → (b || true) ≡ true
or_true true = refl
or_true false = refl

module _ (c : Codec) where
  abbrev decode : SchemaBlock → Outcome (List ℕ)
  decode b =
      if b.header.compression == no_compression
      then opened b.contents
      else (if b.header.compression == zstd
          then or_refuse (c.decode_all b.contents) schema_decompress
          else refused schema_decompress)

  decode_lem : {e : Embedded} {b : SchemaBlock} → Embeds c e b → decode b ≡ opened e.xml
  decode_lem {e} {b} m = elim m.decodes [ inl (k, x) ↦ rw (k, x) | inr (k, x) ↦ rw (k, x) ]

  schema_validate_lem :
      {e : Embedded} {b : SchemaBlock} → Embeds c e b → Schema.validate b.header ≡ none
  unfolding Schema.validate
  schema_validate_lem {e} {b} m = rw ((beq_bytes_iff b.header.magic schema_magic).1 m.magic)

  -- The ranges that the reader takes of a file with a block at `offset`.
  record Place (b : SchemaBlock) (mmap : List ℕ) (offset : ℕ) : Type 0 where
    head :
        range mmap offset (add_usize offset schema_block_header_size)
        ≡ some (Schema.to_bytes b.header)
    body :
        range mmap
          (add_usize offset schema_block_header_size)
          (add_usize (add_usize offset schema_block_header_size) b.header.xml_compressed)
        ≡ some b.contents
    inside :
        ltb
          (length mmap)
          (add_usize (add_usize offset schema_block_header_size) b.header.xml_compressed)
        ≡ false

  placed :
      {e : Embedded} {b : SchemaBlock} {mmap : List ℕ}
      → Embeds c e b
      → (pre rest : List ℕ) → mmap ≡ pre ++ (serialize_block c b ++ rest)
      → length mmap < 2 ^ 63
      → Place b mmap (length pre)
  placed {e} {b} {mmap} m pre rest file small =
      let hdr : List ℕ = Schema.to_bytes b.header in
      let split : mmap ≡ pre ++ (hdr ++ (b.contents ++ rest)) =
        file
        ∙ ap (λ (l : List ℕ). pre ++ l)
            (ap (λ (l : List ℕ). l ++ rest) (serialize_block_lem c b)
              ∙ append_assoc hdr b.contents rest) in
      let n : length hdr ≡ schema_block_header_size = Schema.length-to_bytes m.typed in
      let size : length mmap
          ≡ length pre + (schema_block_header_size + (length b.contents + length rest)) =
        omega (
          arith,
          ap length split,
          length-append pre (hdr ++ (b.contents ++ rest)),
          length-append hdr (b.contents ++ rest),
          length-append b.contents rest,
        ) in
      record {
        head = range-middle pre hdr (b.contents ++ rest) mmap split refl (omega arith);
        body =
            range-middle (pre ++ hdr) b.contents rest mmap
              (split ∙ sym (append_assoc pre hdr (b.contents ++ rest)))
              (omega (arith, length-append pre hdr)) (omega (arith, length-append pre hdr, m.size));
        inside = le→ltb_false _ _ (omega (arith, m.size));
      }

  extract_schema_lem :
      {e : Embedded} {b : SchemaBlock} {mmap : List ℕ} (offset size : ℕ)
      → Embeds c e b
      → c.is_utf8 e.xml ≡ true
      → Place b mmap offset
      → schema_block_header_size ≤ size
      → extract_schema c mmap offset size ≡ opened e.xml
  unfolding extract_schema
  extract_schema_lem {e} {b} {mmap} offset size m text p le =
      rw (le→ltb_false size schema_block_header_size le, p.head, Schema.from_bytes-to_bytes m.typed)
        (rw (schema_validate_lem m, p.inside, p.body, decode_lem m, text))

  -- A file that starts with a new header, its counts set or not, and the schema block opens: the
  -- reader has the embedded schema, and stands at the first record.
  pub open_with_config-opened :
      (e : Embedded) (h : FileHeader) (b : SchemaBlock) (rest mmap : List ℕ) (config : ReaderConfig)
      → IsSound c e
      → c.hash e.xml ≡ e.xml_hash
      → Describes e h b
      → Embeds c e b
      → mmap ≡ Header.to_bytes h ++ (serialize_block c b ++ rest)
      → length mmap < 2 ^ 63
      → open_with_config c mmap config
        ≡ opened (record {
          mmap = mmap;
          header = h;
          schema_xml = e.xml;
          read_position = h.first_record;
          records_read = 0;
          finished = false;
          config = config;
        })
  unfolding open_with_config
  open_with_config-opened e h b rest mmap config sound hash_eq d m file small =
      let behind : List ℕ = serialize_block c b ++ rest in
      let hdr : List ℕ = Header.to_bytes h in
      let n : length hdr ≡ file_header_size = Header.length-to_bytes d.typed in
      let k : length (serialize_block c b) ≡ schema_block_header_size + length b.contents =
        length-serialize_block c m in
      let size : length mmap
          ≡ file_header_size + ((schema_block_header_size + length b.contents) + length rest) =
        omega (
          arith,
          ap length file,
          length-append hdr behind,
          length-append (serialize_block c b) rest,
        ) in
      let large : ltb (length mmap) file_header_size ≡ false = le→ltb_false _ _ (omega arith) in
      let header : Header.from_bytes (take file_header_size mmap) ≡ h =
        ap (λ (l : List ℕ). Header.from_bytes (take file_header_size l)) file
        ∙ ap Header.from_bytes (take-append_of hdr behind n)
        ∙ Header.from_bytes-to_bytes d.typed in
      let inside : ltb (length mmap) (add_usize h.schema_offset h.schema_size) ≡ false =
        le→ltb_false _ _ (omega (arith, d.offset, d.size)) in
      let p : Place b mmap h.schema_offset =
        subst (Place b mmap) (n ∙ sym d.offset) (placed m hdr rest file small) in
      let schema : extract_schema c mmap h.schema_offset h.schema_size ≡ opened e.xml =
        extract_schema_lem h.schema_offset h.schema_size m sound.text p (omega (arith, d.size)) in
      rw (large, header)
        (rw (
          d.valid,
          inside,
          schema,
          hash_eq,
          d.schema_hash,
          ==_refl e.xml_hash,
          or_true (not config.verify_schema_hash),
        ))

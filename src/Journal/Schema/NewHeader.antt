-- ===== src/Journal/Schema/NewHeader.antt =====
-- The file header and the schema block that `create_journal_header` makes fit together.
use ai_systems_verification.Base.{
  ℕ, ◌+◌, ◌%◌, ◌^◌, ◌<◌, ◌≡◌, refl, ap, ◌∙◌, subst, ◌⊎◌, inl, inr, Bool, true, false, ◌++◌, some,
  none, arith, length, length-append,
}
use ai_systems_verification.Journal.Format.{
  schema_magic, file_header_size, schema_block_header_size,
}
use ai_systems_verification.Journal.Format.Header
use ai_systems_verification.Journal.Format.Header.{FileHeader, new_with_session_start, with_schema}
use ai_systems_verification.Journal.Format.Schema
use ai_systems_verification.Journal.Format.Schema.{
  SchemaBlock, new-IsTyped, total_size, zstd, no_compression,
}
use ai_systems_verification.Journal.Schema.{
  Codec, Embedded, Result, ok, err, create_block, create_journal_header, serialize_block, ◌>>=◌,
}
use ai_systems_verification.Journal.Schema.RoundTrip.{IsSound, create_compressed, plain_block}

-- A block that holds the embedded schema.
pub record Embeds (c : Codec) (e : Embedded) (b : SchemaBlock) : Type 0 where
  pub typed : Schema.IsTyped b.header
  pub magic : b.header.magic ≡ schema_magic
  pub size : length b.contents ≡ b.header.xml_compressed
  pub decodes :
      ((b.header.compression ≡ no_compression) × (b.contents ≡ e.xml))
      ⊎ ((b.header.compression ≡ zstd) × (c.decode_all b.contents ≡ some e.xml))

-- A file header that names the place of a schema block behind it.
pub record Describes (e : Embedded) (h : FileHeader) (b : SchemaBlock) : Type 0 where
  pub typed : Header.IsTyped h
  pub valid : Header.validate h ≡ none
  pub offset : h.schema_offset ≡ file_header_size
  pub size : h.schema_size ≡ schema_block_header_size + length b.contents
  pub first : h.first_record ≡ file_header_size + (schema_block_header_size + length b.contents)
  pub schema_hash : h.schema_hash ≡ e.xml_hash

module _ (c : Codec) where
  pub create_block-Embeds :
      (e : Embedded) (compress : Bool) (b : SchemaBlock)
      → IsSound c e
      → create_block c e compress ≡ ok b
      → Embeds c e b
  unfolding create_block Schema.new
  create_block-Embeds e true b s made =
      let (z, done, eq) = create_compressed c e b (c.encode_all e.xml) made in
      let small : length z < 2 ^ 32 = s.small z done in
      let (typed, magic) =
        new-IsTyped (length e.xml % 2 ^ 32) (length z % 2 ^ 32) zstd (omega arith) (omega arith)
          (omega arith) in
      subst (Embeds c e) eq (record {
        typed = typed;
        magic = magic;
        size = omega arith;
        decodes = inr (refl, s.lossless z done);
      })
  create_block-Embeds e false b s made =
      let (typed, magic) =
        new-IsTyped (length e.xml % 2 ^ 32) (length e.xml % 2 ^ 32) no_compression (omega arith)
          (omega arith) (omega arith) in
      let eq : plain_block c e ≡ b = cc in
      subst (Embeds c e) eq (record {
        typed = typed;
        magic = magic;
        size = omega (arith, s.xml_small);
        decodes = inl (refl, refl);
      })

  pub length-serialize_block :
      {e : Embedded} {b : SchemaBlock}
      → Embeds c e b
      → length (serialize_block c b) ≡ schema_block_header_size + length b.contents
  unfolding serialize_block
  length-serialize_block {e} {b} v =
      length-append (Schema.to_bytes b.header) b.contents
      ∙ ap (λ (n : ℕ). n + length b.contents) (Schema.length-to_bytes v.typed)

  with_schema-Describes :
      (e : Embedded) (b : SchemaBlock) (now : ℕ)
      → now < 2 ^ 64
      → e.xml_hash < 2 ^ 32
      → length b.contents < 2 ^ 32
      → Describes e (with_schema (new_with_session_start now) (total_size b) e.xml_hash) b
  unfolding with_schema new_with_session_start total_size Header.validate
  with_schema-Describes e b now now_lt hash_lt len = record {
    typed = ground arith;
    valid = refl;
    offset = refl;
    size = refl;
    first = refl;
    schema_hash = refl;
  }

  header_of :
      (e : Embedded) (now : ℕ) (h : FileHeader) (b : SchemaBlock) (made : Result SchemaBlock)
      → ◌>>=◌ {B = FileHeader × SchemaBlock} made
          (λ b. ok (with_schema (new_with_session_start now) (total_size b) e.xml_hash, b))
        ≡ ok (h, b)
      → (made ≡ ok b) × (with_schema (new_with_session_start now) (total_size b) e.xml_hash ≡ h)
  header_of e now h b (ok b') eq = (cc, cc)
  header_of e now h b (err f) eq = (cc, cc)

  -- The header and the block of a new journal: the block holds the schema, compressed or not, and the
  -- header has the block's place and size, its hash, and the place of the first record.
  pub create_journal_header-Describes :
      (e : Embedded) (compress : Bool) (now : ℕ) (h : FileHeader) (b : SchemaBlock)
      → IsSound c e
      → now < 2 ^ 64
      → e.xml_hash < 2 ^ 32
      → create_journal_header c e compress now ≡ ok (h, b)
      → Describes e h b × Embeds c e b
  unfolding create_journal_header
  create_journal_header-Describes e compress now h b s now_lt hash_lt made =
      let (done, eq) = header_of e now h b (create_block c e compress) made in
      let v : Embeds c e b = create_block-Embeds e compress b s done in
      (
        subst (λ (h : FileHeader). Describes e h b) eq
            (with_schema-Describes e b now now_lt hash_lt
              (omega (arith, v.size, v.typed.xml_compressed_lt))),
        v,
      )

  pub serialize_block_lem :
      (b : SchemaBlock) → serialize_block c b ≡ Schema.to_bytes b.header ++ b.contents
  unfolding serialize_block
  serialize_block_lem b = refl

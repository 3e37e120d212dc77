-- ===== src/Journal/Schema/RoundTrip.antt =====
-- The schema block that the writer embeds is the one that the parser reads.
use ai_systems_verification.Base.{
  ℕ, ◌+◌, ◌%◌, ◌^◌, ◌<◌, ◌≡◌, refl, subst, ap, ◌∙◌, Bool, true, false, List, ◌++◌, some, none,
  arith, if◌then◌else◌, ◌==◌, ltb, le→ltb_false, eq→==, length, length-append, append_assoc, take,
  drop, Option,
}
use ai_systems_verification.Base.Bytes.{beq_bytes, beq_bytes_iff, take-append_of, drop-append_of}
use ai_systems_verification.Journal.Format.{schema_magic, schema_block_header_size}
use ai_systems_verification.Journal.Format.Schema
use ai_systems_verification.Journal.Format.Schema.{
  new-IsTyped, SchemaBlockHeader, SchemaBlock, zstd, no_compression, IsTyped,
}
use ai_systems_verification.Journal.Schema.{
  Codec, Embedded, ok, create_block, parse_block, serialize_block, or_fail, ◌>>=◌,
  compression_failed, decompression_failed,
}

-- What zstd promises, and what a schema of ordinary size satisfies.
pub record IsSound (c : Codec) (e : Embedded) : Type 0 where
  pub lossless : (z : List ℕ) → c.encode_all e.xml ≡ some z → c.decode_all z ≡ some e.xml
  pub small : (z : List ℕ) → c.encode_all e.xml ≡ some z → length z < 2 ^ 32
  pub xml_small : length e.xml < 2 ^ 32
  pub text : c.is_utf8 e.xml ≡ true

module _ (c : Codec) where
  -- Parsing the bytes of any block whose payload decodes.
  parse_block-serialize :
      (b : SchemaBlock) (xml rest : List ℕ)
      → IsTyped b.header
      → b.header.magic ≡ schema_magic
      → length b.contents ≡ b.header.xml_compressed
      → length xml ≡ b.header.xml_uncompressed
      → c.is_utf8 xml ≡ true
      → (if b.header.compression == zstd
          then or_fail (c.decode_all b.contents) decompression_failed
          else ok b.contents)
        ≡ ok xml
      → parse_block c (serialize_block c b ++ rest) ≡ ok (b.header, xml)
  unfolding parse_block serialize_block
  parse_block-serialize b xml rest t m len ulen text dec =
      let bytes : List ℕ = Schema.to_bytes b.header in
      let size : length bytes ≡ schema_block_header_size = Schema.length-to_bytes t in
      let more : List ℕ = b.contents ++ rest in
      let total : length (bytes ++ more) ≡ length bytes + (length b.contents + length rest) =
        length-append bytes more
        ∙ ap (λ (n : ℕ). length bytes + n) (length-append b.contents rest) in
      let head : take schema_block_header_size (bytes ++ more) ≡ bytes =
        take-append_of bytes more size in
      let tail : drop schema_block_header_size (bytes ++ more) ≡ more =
        drop-append_of bytes more size in
      let payload : take b.header.xml_compressed more ≡ b.contents =
        take-append_of b.contents rest len in
      let long : ltb (length (bytes ++ more)) schema_block_header_size ≡ false =
        le→ltb_false _ _ (omega arith) in
      let longer : ltb (length (bytes ++ more)) (schema_block_header_size + b.header.xml_compressed)
          ≡ false =
        le→ltb_false _ _ (omega arith) in
      let magic : beq_bytes b.header.magic schema_magic ≡ true = (beq_bytes_iff _ _).1 m in
      let whole : (length xml == b.header.xml_uncompressed) ≡ true = eq→== _ _ ulen in
      rw append_assoc (
        rw
          (head, Schema.from_bytes-to_bytes t, tail, payload, long, magic, longer, dec, whole, text)
          refl)

  abbrev pub compressed_block : Embedded → List ℕ → SchemaBlock
  compressed_block e z = record {
    header = Schema.new (length e.xml % 2 ^ 32) (length z % 2 ^ 32) zstd;
    contents = z;
  }

  abbrev pub plain_block : Embedded → SchemaBlock
  plain_block e = record {
    header = Schema.new (length e.xml % 2 ^ 32) (length e.xml % 2 ^ 32) no_compression;
    contents = e.xml;
  }

  pub create_compressed :
      (e : Embedded) (b : SchemaBlock) (encoded : Option (List ℕ))
      → (or_fail encoded compression_failed >>= λ z. ok (compressed_block e z)) ≡ ok b
      → (z : List ℕ) × (encoded ≡ some z) × (compressed_block e z ≡ b)
  create_compressed e b none made = cc
  create_compressed e b (some z) made = (z, refl, cc)

  -- Whatever `create_block` makes, compressed or not, `parse_block` reads back from its bytes, with
  -- more bytes behind it or none: the header, and the embedded schema text.
  pub parse_block-create_block :
      (e : Embedded) (compress : Bool) (b : SchemaBlock) (rest : List ℕ)
      → IsSound c e
      → create_block c e compress ≡ ok b
      → parse_block c (serialize_block c b ++ rest) ≡ ok (b.header, e.xml)
  unfolding create_block Schema.new
  parse_block-create_block e true b rest s made =
      let (z, done, eq) = create_compressed e b (c.encode_all e.xml) made in
      let small : length z < 2 ^ 32 = s.small z done in
      let (typed, magic) =
        new-IsTyped (length e.xml % 2 ^ 32) (length z % 2 ^ 32) zstd (omega arith) (omega arith)
          (omega arith) in
      subst
        (λ (b : SchemaBlock). parse_block c (serialize_block c b ++ rest) ≡ ok (b.header, e.xml)) eq
        (parse_block-serialize (compressed_block e z) e.xml rest typed magic (omega arith)
          (omega (arith, s.xml_small)) s.text (rw (s.lossless z done)))
  parse_block-create_block e false b rest s made =
      let (typed, magic) =
        new-IsTyped (length e.xml % 2 ^ 32) (length e.xml % 2 ^ 32) no_compression (omega arith)
          (omega arith) (omega arith) in
      let eq : plain_block e ≡ b = cc in
      subst
        (λ (b : SchemaBlock). parse_block c (serialize_block c b ++ rest) ≡ ok (b.header, e.xml)) eq
        (parse_block-serialize (plain_block e) e.xml rest typed magic (omega (arith, s.xml_small))
          (omega (arith, s.xml_small)) s.text refl)

-- ===== src/Platform/RoundTrip.antt =====
-- `parse_header` of nvram_format_platform.c on what `serialize_header` writes.
use nvram.Base.{
  ℕ, ◌+◌, ◌<◌, ◌^◌, ◌≡◌, ◌≢◌, sym, ap, ◌∙◌, [], ◌++◌, arith, length, take, drop, replicate,
  length-append, length-replicate, take-append_of_length, drop-append_of_length, drop-drop,
  append_assoc, append-nil, ==_iff, ==_ne, Bytes, c_str, ok,
}
use nvram.Platform.{
  PlatformHeader, header_magic, platform_header_size, name_size, rsvd_size, letou32, letou64,
  u32tole, u64tole, fields, checksum, parse_header, body, serialize_header,
}

letou32-u32tole : (n : ℕ) (rest : Bytes) → n < 2 ^ 32 → letou32 (u32tole n ++ rest) ≡ n
unfolding letou32 u32tole
letou32-u32tole n rest h = omega arith

letou64-u64tole : (n : ℕ) (rest : Bytes) → n < 2 ^ 64 → letou64 (u64tole n ++ rest) ≡ n
unfolding letou64 u64tole
letou64-u64tole n rest h = omega arith

drop_past : (m n : ℕ) (xs ys : Bytes) → length xs ≡ m → drop (m + n) (xs ++ ys) ≡ drop n ys
drop_past m n xs ys e =
    sym (drop-drop m n (xs ++ ys)) ∙ ap (drop n) (drop-append_of_length m xs ys e)

-- The values of the members fit their types, and the name ends within its array.
pub record IsHeader (h : PlatformHeader) : Type 0 where
  pub magic_is : h.hdr_magic ≡ header_magic
  pub hdr_version_lt : h.hdr_version < 2 ^ 32
  pub name_length : length h.name ≡ name_size
  pub name_ends : length (c_str h.name) ≢ name_size
  pub ddrc_blob_offset_lt : h.ddrc_blob_offset < 2 ^ 32
  pub ddrc_blob_size_lt : h.ddrc_blob_size < 2 ^ 32
  pub ddrc_blob_type_lt : h.ddrc_blob_type < 2 ^ 32
  pub ddrc_blob_crc32_lt : h.ddrc_blob_crc32 < 2 ^ 32
  pub ddrc_size_lt : h.ddrc_size < 2 ^ 64
  pub config1_lt : h.config1 < 2 ^ 32
  pub config2_lt : h.config2 < 2 ^ 32
  pub config3_lt : h.config3 < 2 ^ 32
  pub config4_lt : h.config4 < 2 ^ 32
  pub total_size_lt : h.total_size < 2 ^ 32

-- The buffer behind `rsvd`, and behind `name`, with the bytes of the checksum at its end.
after_rsvd : PlatformHeader → Bytes → Bytes
after_rsvd h c = u32tole h.total_size ++ c

after_name : PlatformHeader → Bytes → Bytes
after_name h c =
    u32tole h.ddrc_blob_offset
    ++ (u32tole h.ddrc_blob_size
        ++ (u32tole h.ddrc_blob_type
            ++ (u32tole h.ddrc_blob_crc32
                ++ (u64tole h.ddrc_size
                    ++ (u32tole h.config1
                        ++ (u32tole h.config2
                            ++ (u32tole h.config3
                                ++ (u32tole h.config4
                                    ++ (replicate rsvd_size 0 ++ after_rsvd h c)))))))))

written : PlatformHeader → Bytes → Bytes
written h c = u32tole h.hdr_magic ++ (u32tole h.hdr_version ++ (h.name ++ after_name h c))

-- What is found from an offset on.
module _ (h : PlatformHeader) (c : Bytes) (named : length h.name ≡ name_size) where
  drop_name : drop 72 (written h c) ≡ after_name h c
  unfolding written u32tole
  drop_name = drop-append_of_length name_size h.name (after_name h c) named

  drop_rsvd : drop 944 (after_name h c) ≡ after_rsvd h c
  unfolding after_name u32tole u64tole
  drop_rsvd =
      drop-append_of_length rsvd_size (replicate rsvd_size 0) (after_rsvd h c)
        (length-replicate {A = ℕ} rsvd_size 0)

  at_name : (n : ℕ) → drop (72 + n) (written h c) ≡ drop n (after_name h c)
  at_name n = sym (drop-drop 72 n (written h c)) ∙ ap (drop n) drop_name

  at_rsvd : (n : ℕ) → drop (944 + n) (after_name h c) ≡ drop n (after_rsvd h c)
  at_rsvd n = sym (drop-drop 944 n (after_name h c)) ∙ ap (drop n) drop_rsvd

  module _ (i : IsHeader h) where
    magic_at : letou32 (written h c) ≡ h.hdr_magic
    unfolding written
    magic_at = letou32-u32tole h.hdr_magic _ (omega (arith, i.magic_is))

    version_at : letou32 (drop 4 (written h c)) ≡ h.hdr_version
    unfolding written u32tole
    version_at = letou32-u32tole h.hdr_version _ i.hdr_version_lt

    name_at : take name_size (drop 8 (written h c)) ≡ h.name
    unfolding written u32tole
    name_at = take-append_of_length name_size h.name (after_name h c) i.name_length

    ddrc_blob_offset_at : letou32 (drop 72 (written h c)) ≡ h.ddrc_blob_offset
    unfolding after_name u32tole u64tole
    ddrc_blob_offset_at =
        ap letou32 (at_name 0) ∙ letou32-u32tole h.ddrc_blob_offset _ i.ddrc_blob_offset_lt

    ddrc_blob_size_at : letou32 (drop 76 (written h c)) ≡ h.ddrc_blob_size
    unfolding after_name u32tole u64tole
    ddrc_blob_size_at =
        ap letou32 (at_name 4) ∙ letou32-u32tole h.ddrc_blob_size _ i.ddrc_blob_size_lt

    ddrc_blob_type_at : letou32 (drop 80 (written h c)) ≡ h.ddrc_blob_type
    unfolding after_name u32tole u64tole
    ddrc_blob_type_at =
        ap letou32 (at_name 8) ∙ letou32-u32tole h.ddrc_blob_type _ i.ddrc_blob_type_lt

    ddrc_blob_crc32_at : letou32 (drop 84 (written h c)) ≡ h.ddrc_blob_crc32
    unfolding after_name u32tole u64tole
    ddrc_blob_crc32_at =
        ap letou32 (at_name 12) ∙ letou32-u32tole h.ddrc_blob_crc32 _ i.ddrc_blob_crc32_lt

    ddrc_size_at : letou64 (drop 88 (written h c)) ≡ h.ddrc_size
    unfolding after_name u32tole u64tole
    ddrc_size_at = ap letou64 (at_name 16) ∙ letou64-u64tole h.ddrc_size _ i.ddrc_size_lt

    config1_at : letou32 (drop 96 (written h c)) ≡ h.config1
    unfolding after_name u32tole u64tole
    config1_at = ap letou32 (at_name 24) ∙ letou32-u32tole h.config1 _ i.config1_lt

    config2_at : letou32 (drop 100 (written h c)) ≡ h.config2
    unfolding after_name u32tole u64tole
    config2_at = ap letou32 (at_name 28) ∙ letou32-u32tole h.config2 _ i.config2_lt

    config3_at : letou32 (drop 104 (written h c)) ≡ h.config3
    unfolding after_name u32tole u64tole
    config3_at = ap letou32 (at_name 32) ∙ letou32-u32tole h.config3 _ i.config3_lt

    config4_at : letou32 (drop 108 (written h c)) ≡ h.config4
    unfolding after_name u32tole u64tole
    config4_at = ap letou32 (at_name 36) ∙ letou32-u32tole h.config4 _ i.config4_lt

    rsvd_at : take rsvd_size (drop 112 (written h c)) ≡ replicate rsvd_size 0
    unfolding after_name u32tole u64tole
    rsvd_at =
        ap (take rsvd_size) (at_name 40)
        ∙ take-append_of_length rsvd_size (replicate rsvd_size 0) (after_rsvd h c)
            (length-replicate {A = ℕ} rsvd_size 0)

    total_size_at : letou32 (drop 1016 (written h c)) ≡ h.total_size
    unfolding after_rsvd
    total_size_at =
        ap letou32 (at_name 944 ∙ at_rsvd 0) ∙ letou32-u32tole h.total_size _ i.total_size_lt

    checksum_at : drop 1020 (written h c) ≡ c
    unfolding after_rsvd u32tole
    checksum_at = at_name 948 ∙ at_rsvd 4

    -- The fields of what is written.
    fields-written :
        fields (written h c) ≡ (record h { rsvd = replicate rsvd_size 0; hdr_crc32 = letou32 c })
    unfolding fields
    fields-written = rw (
      magic_at, version_at, name_at, ddrc_blob_offset_at, ddrc_blob_size_at, ddrc_blob_type_at,
      ddrc_blob_crc32_at, ddrc_size_at, config1_at, config2_at, config3_at, config4_at, rsvd_at,
      total_size_at, checksum_at,
    )

body-written : (h : PlatformHeader) (c : Bytes) → body h ++ c ≡ written h c
unfolding body written after_name after_rsvd
body-written h c = simp append_assoc

length-body : (h : PlatformHeader) → length h.name ≡ name_size → length (body h) ≡ 1020
unfolding body u32tole u64tole
length-body h named =
    let zeros = length-replicate {A = ℕ} rsvd_size 0 in
    omega (
      arith,
      named,
      zeros,
      length-append h.name _,
      length-append (replicate rsvd_size 0) (u32tole h.total_size),
    )

module _ (crc32 : ℕ → Bytes → ℕ) where
  -- The tests of the parser, one after the other.
  parse_header-ok :
      (buf : Bytes) (header : PlatformHeader)
      → fields buf ≡ header
      → length buf ≡ platform_header_size
      → header.hdr_crc32 ≡ checksum crc32 (take 1020 buf)
      → header.hdr_magic ≡ header_magic
      → length (c_str header.name) ≢ name_size
      → parse_header crc32 buf ≡ ok header
  unfolding parse_header
  parse_header-ok buf header read sized sum magic ends = rw (
    read,
    (==_iff (length buf) platform_header_size).1 sized,
    (==_iff header.hdr_crc32 (checksum crc32 (take 1020 buf))).1 sum,
    (==_iff header.hdr_magic header_magic).1 magic,
    ==_ne (length (c_str header.name)) name_size ends,
  )

  length-serialize_header :
      (h : PlatformHeader)
      → length h.name ≡ name_size
      → length (body h ++ u32tole (checksum crc32 (body h))) ≡ platform_header_size
  unfolding u32tole
  length-serialize_header h named = length-append (body h) _ ∙ ap (λ n. n + 4) (length-body h named)

  -- Where crc32 gives 32-bit values, a valid header that is serialized is parsed to the same header,
  -- but for the reserved bytes, which are zero, and the checksum, which is that of the buffer.
  pub parse_header-serialize_header :
      (h : PlatformHeader)
      → IsHeader h
      → ((c : ℕ) (b : Bytes) → crc32 c b < 2 ^ 32)
      → parse_header crc32 (serialize_header crc32 h)
        ≡ ok (record h { rsvd = replicate rsvd_size 0; hdr_crc32 = checksum crc32 (body h) })
  unfolding serialize_header
  parse_header-serialize_header h i crc_lt =
      let sum = checksum crc32 (body h) in
      let c = u32tole sum in
      let stored : letou32 c ≡ sum =
        rw (append-nil c) at (letou32-u32tole sum [] (crc_lt (crc32 0 []) (body h))) in
      let read : fields (body h ++ c)
          ≡ (record h { rsvd = replicate rsvd_size 0; hdr_crc32 = sum }) =
        rw (body-written h c) (rw stored at (fields-written h c i.name_length i)) in
      parse_header-ok (body h ++ c) (record h { rsvd = replicate rsvd_size 0; hdr_crc32 = sum })
        read (length-serialize_header h i.name_length)
        (ap (checksum crc32)
          (sym (take-append_of_length 1020 (body h) c (length-body h i.name_length))))
        i.magic_is i.name_ends

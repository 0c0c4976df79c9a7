-- ===== src/Platform/Tests.antt =====
-- A header, and the round trip of the codec on it.
use nvram.Base.{
  ℕ, ◌+◌, ◌%◌, ◌^◌, ◌<◌, ◌≡◌, refl, [], ◌∷◌, ◌++◌, arith, replicate, Bytes, codes, c_str, ok,
}
use nvram.Platform.{
  PlatformHeader, header_magic, rsvd_size, checksum, parse_header, body, serialize_header, letou32,
  u32tole,
}
use nvram.Platform.RoundTrip.{IsHeader, parse_header-serialize_header}

little_endian :
    (u32tole 305419896 ≡ 120 ∷ 86 ∷ 52 ∷ 18 ∷ []) × (letou32 (120 ∷ 86 ∷ 52 ∷ 18 ∷ []) ≡ 305419896)
unfolding u32tole letou32
little_endian = (refl, refl)

-- A sum in place of the CRC.
abbrev sum : ℕ → Bytes → ℕ
sum c [] = c % 2 ^ 32
sum c (b ∷ bs) = sum (c + b) bs

sum_lt : (c : ℕ) (b : Bytes) → sum c b < 2 ^ 32
sum_lt c [] = omega arith
sum_lt c (b ∷ bs) = sum_lt (c + b) bs

abbrev board : PlatformHeader
board = record {
  hdr_magic = header_magic;
  hdr_version = 0;
  name = codes "board" ++ replicate 59 0;
  ddrc_blob_offset = 1024;
  ddrc_blob_size = 4096;
  ddrc_blob_type = 1;
  ddrc_blob_crc32 = 3735928559;
  ddrc_size = 8589934592;
  config1 = 1;
  config2 = 2;
  config3 = 3;
  config4 = 4;
  rsvd = replicate rsvd_size 0;
  total_size = 5120;
  hdr_crc32 = 0;
}

board-IsHeader : IsHeader board
unfolding c_str
board-IsHeader = record {
  magic_is = refl;
  hdr_version_lt = omega arith;
  name_length = refl;
  name_ends = omega arith;
  ddrc_blob_offset_lt = omega arith;
  ddrc_blob_size_lt = omega arith;
  ddrc_blob_type_lt = omega arith;
  ddrc_blob_crc32_lt = omega arith;
  ddrc_size_lt = omega arith;
  config1_lt = omega arith;
  config2_lt = omega arith;
  config3_lt = omega arith;
  config4_lt = omega arith;
  total_size_lt = omega arith;
}

parse_header-serialize_header_example :
    parse_header sum (serialize_header sum board)
    ≡ ok (record board { rsvd = replicate rsvd_size 0; hdr_crc32 = checksum sum (body board) })
parse_header-serialize_header_example =
    parse_header-serialize_header sum board board-IsHeader sum_lt

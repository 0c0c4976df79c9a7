-- ===== src/Platform/Fields/Tests.antt =====
-- Numerals that meet the laws, and the restoring of a header by its entries.
use nvram.Base.{
  ℕ, ◌+◌, ◌-◌, ◌*◌, ◌/◌, ◌%◌, ◌^◌, ◌<◌, ◌≡◌, refl, ap, false, [], ◌∷◌, ◌++◌, arith, drop, replicate,
  length, Bytes, codes, c_str, terminated, Bool, ok,
}
use nvram.Platform.{PlatformHeader, header_magic, name_size, rsvd_size}
use nvram.Platform.RoundTrip.{IsHeader}
use nvram.Platform.Fields.{Numerals, version_0_fields, fill_header}
use nvram.Platform.Fields.Find.{NumeralLaws}
use nvram.Platform.Fields.Restore.{entries, rendered, oks, fill_header-entry_of_field}

-- Eight digits in the base 256, the digit d written d + 1.
abbrev print : ℕ → Bytes
print v =
    (v % 256 + 1)
    ∷ ((v / 2 ^ 8) % 256 + 1)
    ∷ ((v / 2 ^ 16) % 256 + 1)
    ∷ ((v / 2 ^ 24) % 256 + 1)
    ∷ ((v / 2 ^ 32) % 256 + 1)
    ∷ ((v / 2 ^ 40) % 256 + 1)
    ∷ ((v / 2 ^ 48) % 256 + 1)
    ∷ ((v / 2 ^ 56) % 256 + 1)
    ∷ []

abbrev read : Bytes → ℕ × Bool
read (a ∷ b ∷ c ∷ d ∷ e ∷ f ∷ g ∷ h ∷ _) = (
  h * 2 ^ 56
      + g * 2 ^ 48
      + f * 2 ^ 40
      + e * 2 ^ 32
      + d * 2 ^ 24
      + c * 2 ^ 16
      + b * 2 ^ 8
      + a
      - 72340172838076673,
  false,
)
read _ = (0, false)

abbrev numerals : Numerals
numerals = record { print_hex = print; strtoul = read }

print_back : (v : ℕ) → v < 2 ^ 64 → (read (print v)).0 ≡ v
print_back v lt = omega arith

numerals-NumeralLaws : NumeralLaws numerals
numerals-NumeralLaws = record {
  text_lacks_null = λ v. omega arith;
  text_short = λ v lt. omega arith;
  reads = λ v lt. ap (λ (n : ℕ). (n, false)) (print_back v lt);
}

abbrev board : PlatformHeader
board = record {
  hdr_magic = header_magic;
  hdr_version = 0;
  name = codes "board" ++ replicate 59 0;
  ddrc_blob_offset = 1024;
  ddrc_blob_size = 4096;
  ddrc_blob_type = 1;
  ddrc_blob_crc32 = 3735928559;
  ddrc_size = 8589934592;
  config1 = 1;
  config2 = 2;
  config3 = 3;
  config4 = 4;
  rsvd = replicate rsvd_size 0;
  total_size = 5120;
  hdr_crc32 = 7;
}

board-IsHeader : IsHeader board
unfolding c_str
board-IsHeader = record {
  magic_is = refl;
  hdr_version_lt = omega arith;
  name_length = refl;
  name_ends = omega arith;
  ddrc_blob_offset_lt = omega arith;
  ddrc_blob_size_lt = omega arith;
  ddrc_blob_type_lt = omega arith;
  ddrc_blob_crc32_lt = omega arith;
  ddrc_size_lt = omega arith;
  config1_lt = omega arith;
  config2_lt = omega arith;
  config3_lt = omega arith;
  config4_lt = omega arith;
  total_size_lt = omega arith;
}

abbrev empty : PlatformHeader
empty = record board { name = replicate name_size 0; ddrc_size = 0; config1 = 0; hdr_crc32 = 0 }

fill_header-entry_of_field_example :
    (rendered numerals board version_0_fields ≡ oks (entries numerals board))
    × (fill_header numerals empty (entries numerals board)
        ≡ ok (record board {
          hdr_magic = empty.hdr_magic;
          hdr_version = empty.hdr_version;
          name =
              terminated (c_str board.name)
              ++ drop (length (terminated (c_str board.name))) empty.name;
          rsvd = empty.rsvd;
          hdr_crc32 = empty.hdr_crc32;
        }))
fill_header-entry_of_field_example =
    fill_header-entry_of_field numerals numerals-NumeralLaws board empty board-IsHeader

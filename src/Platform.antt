-- ===== src/Platform.antt =====
-- The header of the platform format, nvram_format_platform.c, and its codec. The crc32 of
-- zlib is a parameter.
pub mod RoundTrip
pub mod Fields
pub mod Calls
mod Tests
use nvram.Base.{
  ℕ, ◌+◌, ◌*◌, ◌/◌, ◌%◌, ◌^◌, not, List, [], ◌∷◌, ◌++◌, ◌==◌, if◌then◌else◌, length, take, drop,
  replicate, Bytes, c_str, Result, ok, err, einval,
}

abbrev pub header_magic : ℕ
header_magic = 1413565520

-- `PLATFORM_HEADER_SIZE`, and the sizes of the members `name` and `rsvd`.
abbrev pub platform_header_size : ℕ
platform_header_size = 1024

abbrev pub name_size : ℕ
name_size = 64

abbrev pub rsvd_size : ℕ
rsvd_size = 904

-- `struct platform_header`; the arrays are their bytes.
pub record PlatformHeader : Type 0 where
  pub hdr_magic : ℕ
  pub hdr_version : ℕ
  pub name : Bytes
  pub ddrc_blob_offset : ℕ
  pub ddrc_blob_size : ℕ
  pub ddrc_blob_type : ℕ
  pub ddrc_blob_crc32 : ℕ
  pub ddrc_size : ℕ
  pub config1 : ℕ
  pub config2 : ℕ
  pub config3 : ℕ
  pub config4 : ℕ
  pub rsvd : Bytes
  pub total_size : ℕ
  pub hdr_crc32 : ℕ

-- The bytes are below 256, so that the disjunction of the shifted bytes is their sum. The code reads
-- no shorter buffer.
pub letou32 : Bytes → ℕ
letou32 (a ∷ b ∷ c ∷ d ∷ _) = d * 2 ^ 24 + c * 2 ^ 16 + b * 2 ^ 8 + a
letou32 _ = 0

pub letou64 : Bytes → ℕ
letou64 (a ∷ b ∷ c ∷ d ∷ e ∷ f ∷ g ∷ h ∷ _) =
    h * 2 ^ 56 + g * 2 ^ 48 + f * 2 ^ 40 + e * 2 ^ 32 + d * 2 ^ 24 + c * 2 ^ 16 + b * 2 ^ 8 + a
letou64 _ = 0

pub u32tole : ℕ → Bytes
u32tole host =
    host % 256 ∷ (host / 2 ^ 8) % 256 ∷ (host / 2 ^ 16) % 256 ∷ (host / 2 ^ 24) % 256 ∷ []

pub u64tole : ℕ → Bytes
u64tole host =
    host % 256
    ∷ (host / 2 ^ 8) % 256
    ∷ (host / 2 ^ 16) % 256
    ∷ (host / 2 ^ 24) % 256
    ∷ (host / 2 ^ 32) % 256
    ∷ (host / 2 ^ 40) % 256
    ∷ (host / 2 ^ 48) % 256
    ∷ (host / 2 ^ 56) % 256
    ∷ []

-- What `parse_header` copies, each field from its offset.
pub fields : Bytes → PlatformHeader
fields buf = record {
  hdr_magic = letou32 buf;
  hdr_version = letou32 (drop 4 buf);
  name = take name_size (drop 8 buf);
  ddrc_blob_offset = letou32 (drop 72 buf);
  ddrc_blob_size = letou32 (drop 76 buf);
  ddrc_blob_type = letou32 (drop 80 buf);
  ddrc_blob_crc32 = letou32 (drop 84 buf);
  ddrc_size = letou64 (drop 88 buf);
  config1 = letou32 (drop 96 buf);
  config2 = letou32 (drop 100 buf);
  config3 = letou32 (drop 104 buf);
  config4 = letou32 (drop 108 buf);
  rsvd = take rsvd_size (drop 112 buf);
  total_size = letou32 (drop 1016 buf);
  hdr_crc32 = letou32 (drop 1020 buf);
}

-- The buffer up to `hdr_crc32`: the fields in the order of their offsets, with no gap between them,
-- and the zeros of `memset` where the code writes none.
pub body : PlatformHeader → Bytes
body h =
    u32tole h.hdr_magic
    ++ (u32tole h.hdr_version
        ++ (h.name
            ++ (u32tole h.ddrc_blob_offset
                ++ (u32tole h.ddrc_blob_size
                    ++ (u32tole h.ddrc_blob_type
                        ++ (u32tole h.ddrc_blob_crc32
                            ++ (u64tole h.ddrc_size
                                ++ (u32tole h.config1
                                    ++ (u32tole h.config2
                                        ++ (u32tole h.config3
                                            ++ (u32tole h.config4
                                                ++ (replicate rsvd_size 0
                                                    ++ u32tole h.total_size))))))))))))

module _ (crc32 : ℕ → Bytes → ℕ) where
  abbrev pub checksum : Bytes → ℕ
  checksum = crc32 (crc32 0 [])

  pub parse_header : Bytes → Result PlatformHeader
  parse_header buf =
      let header = fields buf in
      if not (length buf == platform_header_size)
      then err einval
      else if not (header.hdr_crc32 == checksum (take 1020 buf))
      then err einval
      else if not (header.hdr_magic == header_magic)
      then err einval
      else if length (c_str header.name) == name_size
      then err einval
      else ok header

  pub serialize_header : PlatformHeader → Bytes
  serialize_header h = body h ++ u32tole (checksum (body h))

-- ===== src/Platform/Calls.antt =====
-- The calls of the platform format, nvram_format_platform.c, over an interface.
use nvram.Base.{
  ℕ, Bool, true, not, List, [], ◌∷◌, ltb, leb, ◌==◌, if◌then◌else◌, length, replicate, Bytes,
  Option, none, some, Result, ok, err, Io, pure, fail, ◌>>=◌, ◌>>◌, require, einval, enomem,
  enotsup,
}
use nvram.Entry.{Entries, Runtime, allocate}
use nvram.Device.{Device}
use nvram.Format.{Format}
use nvram.Platform.{
  PlatformHeader, header_magic, platform_header_size, name_size, rsvd_size, parse_header,
  serialize_header,
}
use nvram.Platform.Fields.{
  FieldName, version_0_fields, field_of, Numerals, entry_of_field, fill_header,
}

-- NVRAM_PLATFORM_VERSION and NVRAM_PLATFORM_WRITE, what `snprintf` and `strtoul` do, and the crc32 of
-- zlib.
pub record Platform : Type 0 where
  pub header_version : ℕ
  pub allow_write : Bool
  pub numerals : Numerals
  pub crc32 : ℕ → Bytes → ℕ

-- `memset(&header, 0, sizeof(header))`
abbrev pub zero_header : PlatformHeader
zero_header = record {
  hdr_magic = 0;
  hdr_version = 0;
  name = replicate name_size 0;
  ddrc_blob_offset = 0;
  ddrc_blob_size = 0;
  ddrc_blob_type = 0;
  ddrc_blob_crc32 = 0;
  ddrc_size = 0;
  config1 = 0;
  config2 = 0;
  config3 = 0;
  config4 = 0;
  rsvd = replicate rsvd_size 0;
  total_size = 0;
  hdr_crc32 = 0;
}

abbrev is_unset : Option Bytes → Bool
is_unset none = true
is_unset (some s) = ltb (length s) 1

abbrev path : Option Bytes → Bytes
path none = []
path (some s) = s

-- `sizeof(struct nvram)`, two pointers.
abbrev nvram_size : ℕ
nvram_size = 16

-- The `switch` on the version stands in the loop, so that an empty list passes in every version.
pub list_to_header : Platform → Entries → Result PlatformHeader
list_to_header P [] =
    ok (record zero_header { hdr_magic = header_magic; hdr_version = P.header_version })
list_to_header P (e ∷ es) =
    let header = record zero_header { hdr_magic = header_magic; hdr_version = P.header_version } in
    if P.header_version == 0 then fill_header P.numerals header (e ∷ es) else err einval

module _ {World : Type 0} (R : Runtime World) (P : Platform) where
  -- A failed `libnvram_list_set` is reported as -ENOMEM.
  pub value_to_list : PlatformHeader → FieldName → Entries → Io World Entries
  value_to_list h n list w = elim (entry_of_field P.numerals h n (field_of n)) [
    | err c ↦ (err c, w)
    | ok entry ↦
        let (r, w') = R.list_set list entry w in (elim r [ ok l ↦ ok l | err _ ↦ err enomem ], w')
  ]

  pub header_to_list_version_iterator : PlatformHeader → List FieldName → Entries → Io World Entries
  unfolding value_to_list
  header_to_list_version_iterator h [] list = pure list
  header_to_list_version_iterator h (n ∷ ns) list = do
    l ← value_to_list h n list
    header_to_list_version_iterator h ns l

  pub header_to_list : PlatformHeader → Entries → Io World Entries
  unfolding header_to_list_version_iterator
  header_to_list h list =
      if h.hdr_version == 0
      then header_to_list_version_iterator h version_0_fields list
      else fail einval

  module _ (D : Device World) where
    -- `platform_close` on the error paths of `platform_init`, where `interface_priv` is set.
    closing : {A : Type 0} → D.Priv → Io World A → Io World A
    closing priv m w = let (r, w') = m w in (r, elim r [ ok _ ↦ w' | err _ ↦ D.destroy priv w' ])

    -- A header that does not parse leaves the list as it is.
    read_header : Bytes → Entries → Io World Entries
    unfolding header_to_list
    read_header buf list = elim (parse_header P.crc32 buf) [
      | err _ ↦ pure list
      | ok header ↦
          if ltb P.header_version header.hdr_version
          then fail einval
          else header_to_list header list
    ]

    -- What `platform_init` does once the interface is initialized.
    read_list : D.Priv → Entries → Io World Entries
    unfolding read_header
    read_list priv list = do
      size ← D.size priv
      if leb platform_header_size size
          then (do
            allocate R platform_header_size
            buf ← D.read priv platform_header_size
            read_header buf list)
          else pure list

    pub platform_init : Option Bytes → Option Bytes → Entries → Io World (D.Priv × Entries)
    unfolding closing read_list
    platform_init section_a section_b list = do
      require (not (is_unset section_a)) einval
      require (is_unset section_b) einval
      allocate R nvram_size
      priv ← D.init (path section_a)
      closing priv (do filled ← read_list priv list; pure (priv, filled))

    pub platform_commit : D.Priv → Entries → Io World D.Priv
    unfolding list_to_header
    platform_commit priv list =
        if not P.allow_write then fail enotsup else elim (list_to_header P list) [
          | err c ↦ fail c
          | ok header ↦ do
            allocate R platform_header_size
            D.write priv (serialize_header P.crc32 header)
            pure priv
        ]

    -- `platform_close` after a successful `platform_init`.
    pub platform_close : D.Priv → World → World
    platform_close priv w = D.destroy priv w

    -- `nvram_platform_format`
    abbrev pub nvram_platform_format : Format World
    nvram_platform_format = record {
      Nvram = D.Priv;
      init = platform_init;
      commit = platform_commit;
      close = platform_close;
    }

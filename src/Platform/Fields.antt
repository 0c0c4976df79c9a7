-- ===== src/Platform/Fields.antt =====
-- The fields of the platform header as entries of a list, nvram_format_platform.c. What `snprintf`
-- and `strtoul` do are parameters.
pub mod Find
pub mod Restore
mod Tests
use nvram.Base.{
  ℕ, zero, suc, ◌-◌, ◌^◌, Bool, true, false, ◌&&◌, ◌||◌, not, List, [], ◌∷◌, ◌++◌, ◌==◌, ltb,
  if◌then◌else◌, length, drop, replicate, Bytes, codes, c_str, terminated, Result, ok, err, Io,
  pure, fail, ◌>>=◌, einval, enomem, ebadf, Option, none, some,
}
use nvram.Entry.{Entry, Entries, Runtime}
use nvram.Platform.{PlatformHeader, header_magic, name_size, rsvd_size}

-- `enum field_name`
pub data FieldName : Type 0 where
  name_field ddrc_blob_offset_field ddrc_blob_size_field ddrc_blob_type_field : FieldName
  ddrc_blob_crc32_field ddrc_size_field : FieldName
  config1_field config2_field config3_field config4_field total_size_field : FieldName

-- `enum field_type`
pub data FieldType : Type 0 where
  u32_type u64_type string_type : FieldType

-- `struct field`
pub record Field : Type 0 where
  pub key : Bytes
  pub type : FieldType

-- The table `fields`.
pub field_of : FieldName → Field
field_of name_field = record { key = codes "name"; type = string_type }
field_of ddrc_blob_offset_field = record { key = codes "ddrc_blob_offset"; type = u32_type }
field_of ddrc_blob_size_field = record { key = codes "ddrc_blob_size"; type = u32_type }
field_of ddrc_blob_type_field = record { key = codes "ddrc_blob_type"; type = u32_type }
field_of ddrc_blob_crc32_field = record { key = codes "ddrc_blob_crc32"; type = u32_type }
field_of ddrc_size_field = record { key = codes "ddrc_size"; type = u64_type }
field_of config1_field = record { key = codes "config1"; type = u32_type }
field_of config2_field = record { key = codes "config2"; type = u32_type }
field_of config3_field = record { key = codes "config3"; type = u32_type }
field_of config4_field = record { key = codes "config4"; type = u32_type }
field_of total_size_field = record { key = codes "total_size"; type = u32_type }

abbrev pub version_0_fields : List FieldName
version_0_fields =
    name_field ∷ ddrc_blob_offset_field ∷ ddrc_blob_size_field ∷ ddrc_blob_type_field
    ∷ ddrc_blob_crc32_field ∷ ddrc_size_field ∷ config1_field ∷ config2_field ∷ config3_field
    ∷ config4_field ∷ total_size_field ∷ []

-- `union data`, with the member that was set.
pub data Data : Type 0 where
  u32 : ℕ → Data
  u64 : ℕ → Data
  str : Bytes → Data

-- The first `switch` of `value_to_list`.
pub data_of : PlatformHeader → FieldName → FieldType → Result Data
data_of h name_field string_type = ok (str (c_str h.name))
data_of h ddrc_blob_offset_field u32_type = ok (u32 h.ddrc_blob_offset)
data_of h ddrc_blob_size_field u32_type = ok (u32 h.ddrc_blob_size)
data_of h ddrc_blob_type_field u32_type = ok (u32 h.ddrc_blob_type)
data_of h ddrc_blob_crc32_field u32_type = ok (u32 h.ddrc_blob_crc32)
data_of h ddrc_size_field u64_type = ok (u64 h.ddrc_size)
data_of h config1_field u32_type = ok (u32 h.config1)
data_of h config2_field u32_type = ok (u32 h.config2)
data_of h config3_field u32_type = ok (u32 h.config3)
data_of h config4_field u32_type = ok (u32 h.config4)
data_of h total_size_field u32_type = ok (u32 h.total_size)
data_of h _ _ = err ebadf

-- The second `switch` of `value_to_header`, on the length of the entry's value.
pub store_data : PlatformHeader → FieldName → Data → ℕ → Result PlatformHeader
store_data h name_field (str s) value_len =
    if ltb name_size value_len
    then err einval
    else ok (record h { name = s ++ drop value_len h.name })
store_data h ddrc_blob_offset_field (u32 v) _ = ok (record h { ddrc_blob_offset = v })
store_data h ddrc_blob_size_field (u32 v) _ = ok (record h { ddrc_blob_size = v })
store_data h ddrc_blob_type_field (u32 v) _ = ok (record h { ddrc_blob_type = v })
store_data h ddrc_blob_crc32_field (u32 v) _ = ok (record h { ddrc_blob_crc32 = v })
store_data h ddrc_size_field (u64 v) _ = ok (record h { ddrc_size = v })
store_data h config1_field (u32 v) _ = ok (record h { config1 = v })
store_data h config2_field (u32 v) _ = ok (record h { config2 = v })
store_data h config3_field (u32 v) _ = ok (record h { config3 = v })
store_data h config4_field (u32 v) _ = ok (record h { config4 = v })
store_data h total_size_field (u32 v) _ = ok (record h { total_size = v })
store_data h _ _ _ = err ebadf

-- `strncmp(key, other, n) == 0`, where `key` is a string and `other` a buffer.
pub starts_same : ℕ → Bytes → Bytes → Bool
starts_same zero key other = true
starts_same (suc n) (a ∷ key) (b ∷ other) = a == b && starts_same n key other
starts_same (suc n) [] (b ∷ other) = b == 0
starts_same (suc n) key [] = false

-- `value[value_len - 1] != '\0'`
pub ends_null : Bytes → Bool
ends_null [] = false
ends_null (b ∷ []) = b == 0
ends_null (b ∷ c ∷ bs) = ends_null (c ∷ bs)

-- What `snprintf` prints with "0x%x", and what `strtoul` with base 0 reads: the value, and whether
-- `errno` is ERANGE behind the call, where it was not before.
pub record Numerals : Type 0 where
  pub print_hex : ℕ → Bytes
  pub strtoul : Bytes → ℕ × Bool

module _ (N : Numerals) where
  -- The buffer of an entry's value; a number fits the 64 bytes of `buf` or is refused.
  pub render : Data → Result Bytes
  render (u32 v) =
      let text = N.print_hex v in if ltb 63 (length text) then err einval else ok (terminated text)
  render (u64 v) =
      let text = N.print_hex v in if ltb 63 (length text) then err einval else ok (terminated text)
  render (str s) = ok (terminated s)

  -- The first `switch` of `value_to_header`. The test of `endptr` against NULL never holds.
  pub read_data : FieldType → Bytes → Result Data
  read_data u32_type value =
      let (v, out_of_range) = N.strtoul (c_str value) in
      if v == 2 ^ 64 - 1 && out_of_range || ltb (2 ^ 32 - 1) v then err einval else ok (u32 v)
  read_data u64_type value =
      let (v, out_of_range) = N.strtoul (c_str value) in
      if v == 2 ^ 64 - 1 && out_of_range || ltb (2 ^ 64 - 1) v then err einval else ok (u64 v)
  read_data string_type value = ok (str value)

  -- The entry that `value_to_list` sets.
  pub entry_of_field : PlatformHeader → FieldName → Field → Result Entry
  entry_of_field h n field = elim (data_of h n field.type) [
    | err c ↦ err c
    | ok d ↦ elim (render d) [
      | err c ↦ err c
      | ok value ↦ ok (record { key = terminated field.key; value = value })
    ]
  ]

  pub value_to_header : PlatformHeader → FieldName → Field → Entry → Result PlatformHeader
  value_to_header h n field entry =
      if not (ends_null entry.value) then err einval else elim (read_data field.type entry.value) [
        | err c ↦ err c
        | ok d ↦ store_data h n d (length entry.value)
      ]

  -- `none` where no field has the key.
  pub list_to_header_version_iterator :
      PlatformHeader → List FieldName → Entry → Result (Option PlatformHeader)
  unfolding field_of starts_same value_to_header
  list_to_header_version_iterator h [] entry = ok none
  list_to_header_version_iterator h (n ∷ ns) entry =
      let rest = list_to_header_version_iterator h ns entry in
      if starts_same (length entry.key) (field_of n).key entry.key
      then elim (value_to_header h n (field_of n) entry) [ err c ↦ err c | ok h' ↦ ok (some h') ]
      else rest

  -- The loop of `list_to_header`, in a build with HEADER_VERSION 0.
  pub fill_header : PlatformHeader → Entries → Result PlatformHeader
  unfolding list_to_header_version_iterator
  fill_header h [] = ok h
  fill_header h (entry ∷ es) = elim (list_to_header_version_iterator h version_0_fields entry) [
    | err c ↦ err c
    | ok none ↦ err einval
    | ok (some h') ↦ fill_header h' es
  ]

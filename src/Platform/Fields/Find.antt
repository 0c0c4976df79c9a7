-- ===== src/Platform/Fields/Find.antt =====
-- The field of the platform header that a key names, and the number that it takes.
use nvram.Base.{
  ℕ, ◌^◌, ◌<◌, ◌≤◌, ◌≡◌, refl, true, false, [], ◌∷◌, ◌++◌, arith, le→ltb_false, length, drop, Bytes,
  codes, c_str-terminated, terminated, Lacks, ok, some,
}
use nvram.Entry.{Entry, Entries}
use nvram.Platform.{PlatformHeader, name_size}
use nvram.Platform.Fields.{
  FieldName, ddrc_blob_offset_field, ddrc_blob_size_field, ddrc_blob_type_field,
  ddrc_blob_crc32_field, ddrc_size_field, config1_field, config2_field, config3_field,
  config4_field, total_size_field, u32_type, u64_type, field_of, version_0_fields, u32, u64,
  store_data, starts_same, ends_null, Numerals, read_data, value_to_header,
  list_to_header_version_iterator, fill_header,
}

-- What is relied on of `snprintf` and `strtoul`: "0x%x" is short text that is read back.
pub record NumeralLaws (N : Numerals) : Type 0 where
  pub text_lacks_null : (v : ℕ) → Lacks 0 (N.print_hex v)
  pub text_short : (v : ℕ) → v < 2 ^ 64 → length (N.print_hex v) ≤ 63
  pub reads : (v : ℕ) → v < 2 ^ 64 → N.strtoul (N.print_hex v) ≡ (v, false)

ends_null-terminated : (s : Bytes) → ends_null (terminated s) ≡ true
unfolding ends_null
ends_null-terminated [] = refl
ends_null-terminated (b ∷ []) = refl
ends_null-terminated (b ∷ c ∷ s) = ends_null-terminated (c ∷ s)

abbrev pub number : Numerals → Bytes → ℕ → Entry
number N key v = record { key = terminated key; value = terminated (N.print_hex v) }

module _ (N : Numerals) (laws : NumeralLaws N) where
  read_data-u32 :
      (v : ℕ) → v < 2 ^ 32 → read_data N u32_type (terminated (N.print_hex v)) ≡ ok (u32 v)
  unfolding read_data
  read_data-u32 v h =
      rw (c_str-terminated (N.print_hex v) [] (laws.text_lacks_null v), laws.reads v (omega arith))
        (ground (arith, h))

  read_data-u64 :
      (v : ℕ) → v < 2 ^ 64 → read_data N u64_type (terminated (N.print_hex v)) ≡ ok (u64 v)
  unfolding read_data
  read_data-u64 v h =
      rw (c_str-terminated (N.print_hex v) [] (laws.text_lacks_null v), laws.reads v h)
        (ground (arith, h))

  value_to_header-u32 :
      (h : PlatformHeader) (n : FieldName) (key : Bytes) (v : ℕ)
      → v < 2 ^ 32
      → value_to_header N h n (record { key = key; type = u32_type }) (number N key v)
        ≡ store_data h n (u32 v) (length (terminated (N.print_hex v)))
  unfolding value_to_header
  value_to_header-u32 h n key v lt = rw (ends_null-terminated (N.print_hex v), read_data-u32 v lt)

  value_to_header-u64 :
      (h : PlatformHeader) (n : FieldName) (key : Bytes) (v : ℕ)
      → v < 2 ^ 64
      → value_to_header N h n (record { key = key; type = u64_type }) (number N key v)
        ≡ store_data h n (u64 v) (length (terminated (N.print_hex v)))
  unfolding value_to_header
  value_to_header-u64 h n key v lt = rw (ends_null-terminated (N.print_hex v), read_data-u64 v lt)

  -- Each field is found by its key, and takes the value.
  pub name_found :
      (h : PlatformHeader) (s : Bytes)
      → length (terminated s) ≤ name_size
      → list_to_header_version_iterator N h version_0_fields
          (record { key = terminated (codes "name"); value = terminated s })
        ≡ ok (some (record h { name = terminated s ++ drop (length (terminated s)) h.name }))
  unfolding list_to_header_version_iterator field_of starts_same value_to_header read_data
      store_data
  name_found h s short =
      rw (ends_null-terminated s, le→ltb_false name_size (length (terminated s)) short)

  pub ddrc_blob_offset_found :
      (h : PlatformHeader) (v : ℕ)
      → v < 2 ^ 32
      → list_to_header_version_iterator N h version_0_fields (number N (codes "ddrc_blob_offset") v)
        ≡ ok (some (record h { ddrc_blob_offset = v }))
  unfolding list_to_header_version_iterator field_of starts_same store_data
  ddrc_blob_offset_found h v lt =
      rw (value_to_header-u32 h ddrc_blob_offset_field (codes "ddrc_blob_offset") v lt)

  pub ddrc_blob_size_found :
      (h : PlatformHeader) (v : ℕ)
      → v < 2 ^ 32
      → list_to_header_version_iterator N h version_0_fields (number N (codes "ddrc_blob_size") v)
        ≡ ok (some (record h { ddrc_blob_size = v }))
  unfolding list_to_header_version_iterator field_of starts_same store_data
  ddrc_blob_size_found h v lt =
      rw (value_to_header-u32 h ddrc_blob_size_field (codes "ddrc_blob_size") v lt)

  pub ddrc_blob_type_found :
      (h : PlatformHeader) (v : ℕ)
      → v < 2 ^ 32
      → list_to_header_version_iterator N h version_0_fields (number N (codes "ddrc_blob_type") v)
        ≡ ok (some (record h { ddrc_blob_type = v }))
  unfolding list_to_header_version_iterator field_of starts_same store_data
  ddrc_blob_type_found h v lt =
      rw (value_to_header-u32 h ddrc_blob_type_field (codes "ddrc_blob_type") v lt)

  pub ddrc_blob_crc32_found :
      (h : PlatformHeader) (v : ℕ)
      → v < 2 ^ 32
      → list_to_header_version_iterator N h version_0_fields (number N (codes "ddrc_blob_crc32") v)
        ≡ ok (some (record h { ddrc_blob_crc32 = v }))
  unfolding list_to_header_version_iterator field_of starts_same store_data
  ddrc_blob_crc32_found h v lt =
      rw (value_to_header-u32 h ddrc_blob_crc32_field (codes "ddrc_blob_crc32") v lt)

  pub ddrc_size_found :
      (h : PlatformHeader) (v : ℕ)
      → v < 2 ^ 64
      → list_to_header_version_iterator N h version_0_fields (number N (codes "ddrc_size") v)
        ≡ ok (some (record h { ddrc_size = v }))
  unfolding list_to_header_version_iterator field_of starts_same store_data
  ddrc_size_found h v lt = rw (value_to_header-u64 h ddrc_size_field (codes "ddrc_size") v lt)

  pub config1_found :
      (h : PlatformHeader) (v : ℕ)
      → v < 2 ^ 32
      → list_to_header_version_iterator N h version_0_fields (number N (codes "config1") v)
        ≡ ok (some (record h { config1 = v }))
  unfolding list_to_header_version_iterator field_of starts_same store_data
  config1_found h v lt = rw (value_to_header-u32 h config1_field (codes "config1") v lt)

  pub config2_found :
      (h : PlatformHeader) (v : ℕ)
      → v < 2 ^ 32
      → list_to_header_version_iterator N h version_0_fields (number N (codes "config2") v)
        ≡ ok (some (record h { config2 = v }))
  unfolding list_to_header_version_iterator field_of starts_same store_data
  config2_found h v lt = rw (value_to_header-u32 h config2_field (codes "config2") v lt)

  pub config3_found :
      (h : PlatformHeader) (v : ℕ)
      → v < 2 ^ 32
      → list_to_header_version_iterator N h version_0_fields (number N (codes "config3") v)
        ≡ ok (some (record h { config3 = v }))
  unfolding list_to_header_version_iterator field_of starts_same store_data
  config3_found h v lt = rw (value_to_header-u32 h config3_field (codes "config3") v lt)

  pub config4_found :
      (h : PlatformHeader) (v : ℕ)
      → v < 2 ^ 32
      → list_to_header_version_iterator N h version_0_fields (number N (codes "config4") v)
        ≡ ok (some (record h { config4 = v }))
  unfolding list_to_header_version_iterator field_of starts_same store_data
  config4_found h v lt = rw (value_to_header-u32 h config4_field (codes "config4") v lt)

  pub total_size_found :
      (h : PlatformHeader) (v : ℕ)
      → v < 2 ^ 32
      → list_to_header_version_iterator N h version_0_fields (number N (codes "total_size") v)
        ≡ ok (some (record h { total_size = v }))
  unfolding list_to_header_version_iterator field_of starts_same store_data
  total_size_found h v lt = rw (value_to_header-u32 h total_size_field (codes "total_size") v lt)

  pub fill_header-cons :
      (h h' : PlatformHeader) (e : Entry) (es : Entries)
      → list_to_header_version_iterator N h version_0_fields e ≡ ok (some h')
      → fill_header N h (e ∷ es) ≡ fill_header N h' es
  unfolding fill_header
  fill_header-cons h h' e es found = rw (found, fill_header)

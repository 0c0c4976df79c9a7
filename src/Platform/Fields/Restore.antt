-- ===== src/Platform/Fields/Restore.antt =====
-- The entries that stand for a header, and the header made of them.
use nvram.Base.{
  ℕ, ◌^◌, ◌<◌, ◌≤◌, ◌≡◌, refl, ◌∙◌, List, [], ◌∷◌, ◌++◌, arith, le→ltb_false, length, drop, Bytes,
  codes, c_str, terminated, length-append, Result, ok,
}
use nvram.Entry.{Entry, Entries}
use nvram.Platform.{PlatformHeader, name_size}
use nvram.Platform.RoundTrip.{IsHeader}
use nvram.Platform.Fields.{
  FieldName, name_field, ddrc_blob_offset_field, ddrc_blob_size_field, ddrc_blob_type_field,
  ddrc_blob_crc32_field, ddrc_size_field, config1_field, config2_field, config3_field,
  config4_field, total_size_field, field_of, version_0_fields, Data, u32, u64, str, data_of,
  Numerals, render, entry_of_field, fill_header,
}
use nvram.Platform.Fields.Find.{
  NumeralLaws, number, name_found, ddrc_blob_offset_found, ddrc_blob_size_found,
  ddrc_blob_type_found, ddrc_blob_crc32_found, ddrc_size_found, config1_found, config2_found,
  config3_found, config4_found, total_size_found, fill_header-cons,
}

-- The entries that stand for a header, in the order of the fields.
unfoldable pub entries : Numerals → PlatformHeader → Entries
entries N h =
    record { key = terminated (codes "name"); value = terminated (c_str h.name) }
    ∷ number N (codes "ddrc_blob_offset") h.ddrc_blob_offset
    ∷ number N (codes "ddrc_blob_size") h.ddrc_blob_size
    ∷ number N (codes "ddrc_blob_type") h.ddrc_blob_type
    ∷ number N (codes "ddrc_blob_crc32") h.ddrc_blob_crc32
    ∷ number N (codes "ddrc_size") h.ddrc_size
    ∷ number N (codes "config1") h.config1
    ∷ number N (codes "config2") h.config2
    ∷ number N (codes "config3") h.config3
    ∷ number N (codes "config4") h.config4
    ∷ number N (codes "total_size") h.total_size
    ∷ []

fill_header-nil : (N : Numerals) (h : PlatformHeader) → fill_header N h [] ≡ ok h
unfolding fill_header
fill_header-nil N h = refl

-- What `value_to_list` makes of each field.
abbrev pub rendered : Numerals → PlatformHeader → List FieldName → List (Result Entry)
rendered N h [] = []
rendered N h (n ∷ ns) = entry_of_field N h n (field_of n) ∷ rendered N h ns

abbrev pub oks : Entries → List (Result Entry)
oks [] = []
oks (e ∷ es) = ok e ∷ oks es

render_str : (N : Numerals) (s : Bytes) → render N (str s) ≡ ok (terminated s)
unfolding render
render_str N s = refl

length-c_str : (s : Bytes) → length (c_str s) ≤ length s
unfolding c_str
length-c_str [] = omega arith
length-c_str (b ∷ s) = ground (arith, length-c_str s)

module _ (N : Numerals) (laws : NumeralLaws N) where
  render-u32 : (v : ℕ) → v < 2 ^ 32 → render N (u32 v) ≡ ok (terminated (N.print_hex v))
  unfolding render
  render-u32 v lt = rw (le→ltb_false 63 (length (N.print_hex v)) (laws.text_short v (omega arith)))

  render-u64 : (v : ℕ) → v < 2 ^ 64 → render N (u64 v) ≡ ok (terminated (N.print_hex v))
  unfolding render
  render-u64 v lt = rw (le→ltb_false 63 (length (N.print_hex v)) (laws.text_short v lt))

  entry_of_field-ok :
      (h : PlatformHeader) (n : FieldName) {d : Data} {value : Bytes}
      → data_of h n (field_of n).type ≡ ok d
      → render N d ≡ ok value
      → entry_of_field N h n (field_of n)
        ≡ ok (record { key = terminated (field_of n).key; value = value })
  unfolding entry_of_field
  entry_of_field-ok h n a b = rw (a, b, entry_of_field)

  -- The fields of a valid header are rendered with no error.
  rendered-entries :
      (h : PlatformHeader) → IsHeader h → rendered N h version_0_fields ≡ oks (entries N h)
  unfolding entries field_of data_of
  rendered-entries h i = rw (
    entry_of_field-ok h name_field refl (render_str N (c_str h.name)),
    entry_of_field-ok h ddrc_blob_offset_field refl
        (render-u32 h.ddrc_blob_offset i.ddrc_blob_offset_lt),
    entry_of_field-ok h ddrc_blob_size_field refl (render-u32 h.ddrc_blob_size i.ddrc_blob_size_lt),
    entry_of_field-ok h ddrc_blob_type_field refl (render-u32 h.ddrc_blob_type i.ddrc_blob_type_lt),
    entry_of_field-ok h ddrc_blob_crc32_field refl
        (render-u32 h.ddrc_blob_crc32 i.ddrc_blob_crc32_lt),
    entry_of_field-ok h ddrc_size_field refl (render-u64 h.ddrc_size i.ddrc_size_lt),
    entry_of_field-ok h config1_field refl (render-u32 h.config1 i.config1_lt),
    entry_of_field-ok h config2_field refl (render-u32 h.config2 i.config2_lt),
    entry_of_field-ok h config3_field refl (render-u32 h.config3 i.config3_lt),
    entry_of_field-ok h config4_field refl (render-u32 h.config4 i.config4_lt),
    entry_of_field-ok h total_size_field refl (render-u32 h.total_size i.total_size_lt),
  )

  fill_header-entries :
      (h h₀ : PlatformHeader)
      → IsHeader h
      → fill_header N h₀ (entries N h)
        ≡ ok (record h {
          hdr_magic = h₀.hdr_magic;
          hdr_version = h₀.hdr_version;
          name = terminated (c_str h.name) ++ drop (length (terminated (c_str h.name))) h₀.name;
          rsvd = h₀.rsvd;
          hdr_crc32 = h₀.hdr_crc32;
        })
  unfolding entries
  fill_header-entries h h₀ i =
      let short : length (terminated (c_str h.name)) ≤ name_size = omega (
        arith,
        length-append (c_str h.name) (0 ∷ []),
        length-c_str h.name,
        i.name_length,
        i.name_ends,
      ) in
      fill_header-cons N laws h₀ _ _ _ (name_found N laws h₀ (c_str h.name) short)
      ∙ (fill_header-cons N laws _ _ _ _
            (ddrc_blob_offset_found N laws _ h.ddrc_blob_offset i.ddrc_blob_offset_lt)
          ∙ (fill_header-cons N laws _ _ _ _
                (ddrc_blob_size_found N laws _ h.ddrc_blob_size i.ddrc_blob_size_lt)
              ∙ (fill_header-cons N laws _ _ _ _
                    (ddrc_blob_type_found N laws _ h.ddrc_blob_type i.ddrc_blob_type_lt)
                  ∙ (fill_header-cons N laws _ _ _ _
                        (ddrc_blob_crc32_found N laws _ h.ddrc_blob_crc32 i.ddrc_blob_crc32_lt)
                      ∙ (fill_header-cons N laws _ _ _ _
                            (ddrc_size_found N laws _ h.ddrc_size i.ddrc_size_lt)
                          ∙ (fill_header-cons N laws _ _ _ _
                                (config1_found N laws _ h.config1 i.config1_lt)
                              ∙ (fill_header-cons N laws _ _ _ _
                                    (config2_found N laws _ h.config2 i.config2_lt)
                                  ∙ (fill_header-cons N laws _ _ _ _
                                        (config3_found N laws _ h.config3 i.config3_lt)
                                      ∙ (fill_header-cons N laws _ _ _ _
                                            (config4_found N laws _ h.config4 i.config4_lt)
                                          ∙ (fill_header-cons N laws _ _ _ _ (
                                                total_size_found N laws _ h.total_size
                                                  i.total_size_lt)
                                              ∙ fill_header-nil N _))))))))))

  -- Where numbers that are printed are read back, each field of a valid header is made an entry, and
  -- these entries, put into any other header, give it all of the data with no error: the name up to
  -- its end, and the ten numbers.
  pub fill_header-entry_of_field :
      (h h₀ : PlatformHeader)
      → IsHeader h
      → (rendered N h version_0_fields ≡ oks (entries N h))
        × (fill_header N h₀ (entries N h)
            ≡ ok (record h {
              hdr_magic = h₀.hdr_magic;
              hdr_version = h₀.hdr_version;
              name = terminated (c_str h.name) ++ drop (length (terminated (c_str h.name))) h₀.name;
              rsvd = h₀.rsvd;
              hdr_crc32 = h₀.hdr_crc32;
            }))
  fill_header-entry_of_field h h₀ i = (rendered-entries h i, fill_header-entries h h₀ i)

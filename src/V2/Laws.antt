-- ===== src/V2/Laws.antt =====
-- What the v2 format relies on of libnvram and of its device.
use nvram.Base.{
  ℕ, ◌+◌, ◌≤◌, ◌<◌, ◌≡◌, ◌⊎◌, true, Option, some, none, [], leb, if◌then◌else◌, take, drop, length,
  Bytes, ok, err, enomem,
}
use nvram.Entry.{Entries, Runtime}
use nvram.Device.{Device, Storage}
use nvram.V2.{Libnvram}

-- What libnvram promises of a buffer that it has serialized, an image of the list: it starts with
-- the completed header, which is valid and gives the length of the rest; the rest is deserialized to
-- a list with the same values, or the memory runs out. The active section of a transaction is an
-- image, and there is one if either buffer is an image.
pub record LibnvramLaws {World : Type 0} (R : Runtime World) (N : Libnvram World) : Type 1 where
  pub Image : Entries → Bytes → N.Header → Type 0
  pub serialize-Image :
      (list : Entries) (n : ℕ) (hdr hdr' : N.Header) (buf : Bytes)
      → N.serialize list n hdr ≡ some (buf, hdr')
      → Image list buf hdr'
  -- the buffer has the size that was asked for, so `v2_commit` writes it whole
  pub length-serialize :
      (list : Entries) (hdr hdr' : N.Header) (buf : Bytes)
      → N.serialize list (N.serialize_size list) hdr ≡ some (buf, hdr')
      → length buf ≡ N.serialize_size list
  pub header_valid :
      {list : Entries} {buf : Bytes} {hdr : N.Header}
      → Image list buf hdr
      → N.validate_header (take N.header_len buf) ≡ some hdr
  pub length_is :
      {list : Entries} {buf : Bytes} {hdr : N.Header}
      → Image list buf hdr
      → length buf ≡ N.header_len + N.len hdr
  pub same_values :
      {list list' : Entries} {buf : Bytes} {hdr hdr' : N.Header}
      → Image list buf hdr
      → Image list' buf hdr'
      → (k : Bytes) → (R.list_get list k ≡ R.list_get list' k)
  pub active_a_sound :
      (oa ob : Option Bytes)
      → N.active_a (N.init_transaction oa ob) ≡ true
      → (buf : Bytes) × (list : Entries) × (oa ≡ some buf)
        × Image list buf (N.header_a (N.init_transaction oa ob))
  pub active_b_sound :
      (oa ob : Option Bytes)
      → N.active_b (N.init_transaction oa ob) ≡ true
      → (buf : Bytes) × (list : Entries) × (ob ≡ some buf)
        × Image list buf (N.header_b (N.init_transaction oa ob))
  pub some_active :
      {list : Entries} {buf : Bytes} {hdr : N.Header} (oa ob : Option Bytes)
      → Image list buf hdr
      → (oa ≡ some buf) ⊎ (ob ≡ some buf)
      → (N.active_a (N.init_transaction oa ob) ≡ true)
        ⊎ (N.active_b (N.init_transaction oa ob) ≡ true)
  pub deserialize-Image :
      {list : Entries} {buf : Bytes} {hdr : N.Header} (w : World)
      → Image list buf hdr
      → ((filled : Entries) × (v : World) × (N.deserialize [] (drop N.header_len buf) hdr w
            ≡ (ok filled, v))
          × ((k : Bytes) → (R.list_get filled k ≡ R.list_get list k)))
        ⊎ ((v : World) × (N.deserialize [] (drop N.header_len buf) hdr w ≡ (err enomem, v)))

-- What is only read is kept, in every section.
pub record Steady {World : Type 0} {R : Runtime World} {D : Device World} (S : Storage R D)
    : Type 0 where
  pub init_keeps :
      (section s x : Bytes) (w : World) → S.Holds s x w → S.Holds s x (D.init section w).1
  pub size_keeps :
      (p : D.Priv) (s x : Bytes) (w : World) → S.Holds s x w → S.Holds s x (D.size p w).1
  pub read_keeps :
      (p : D.Priv) (n : ℕ) (s x : Bytes) (w : World) → S.Holds s x w → S.Holds s x (D.read p n w).1

module _ {World : Type 0} (N : Libnvram World) where
  abbrev header_of : Bytes → Option N.Header
  header_of x =
      if leb N.header_len (length x) then N.validate_header (take N.header_len x) else none

  abbrev pub behind : Bytes → Option N.Header → Option Bytes
  behind x none = none
  behind x (some hdr) = some (take (N.header_len + N.len hdr) x)

  -- What `read_section` gives of a section that holds `x`.
  unfoldable pub contents : Bytes → Option Bytes
  contents x = behind x (header_of x)

  -- A header that is valid does not claim more than the section holds.
  pub record Readable (x : Bytes) : Type 0 where
    pub enough :
        (hdr : N.Header)
        → N.header_len ≤ length x
        → N.validate_header (take N.header_len x) ≡ some hdr
        → N.header_len + N.len hdr ≤ length x

  -- A section that has a name, with what it holds.
  pub record Named (s x : Bytes) : Type 0 where
    pub name_pos : 0 < length s
    pub readable : Readable x

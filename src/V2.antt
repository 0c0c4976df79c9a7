-- ===== src/V2.antt =====
-- The v2 format, nvram_format_v2.c: one or two sections, with transactions by libnvram. The calls of
-- that library are parameters.
pub mod PowerFail
pub mod Laws
pub mod Restart
pub mod Slots
pub mod Recovery
pub mod Outage
pub mod Release
pub mod Balance
pub mod Tracked
pub mod Agreement
pub mod Untracked
pub mod Released
mod Sample
mod Tests
use nvram.Base.{
  ℕ, ◌+◌, Bool, true, false, ◌&&◌, Option, none, some, List, [], leb, ltb, if◌then◌else◌, length,
  drop, Bytes, Result, ok, err, Io, pure, fail, ◌>>=◌, ◌>>◌,
}
use nvram.Entry.{Entries, Runtime, allocate}
use nvram.Device.{Device}
use nvram.Format.{Format}

-- What the code uses of libnvram. A buffer that is NULL is `none`.
pub record Libnvram (World : Type 0) : Type 1 where
  -- `struct libnvram_header`, with its field `len`
  pub Header : Type 0
  pub len : Header → ℕ
  -- `struct libnvram_transaction`: the bits of `active`, and the headers of its sections
  pub Transaction : Type 0
  pub active_a : Transaction → Bool
  pub active_b : Transaction → Bool
  pub header_a : Transaction → Header
  pub header_b : Transaction → Header
  -- `enum libnvram_operation`, by the bits that are tested
  pub Operation : Type 0
  pub writes_a : Operation → Bool
  pub resets_counter : Operation → Bool
  pub header_len : ℕ
  -- the header, where it is valid
  pub validate_header : Bytes → Option Header
  pub init_transaction : Option Bytes → Option Bytes → Transaction
  pub deserialize : Entries → Bytes → Header → Io World Entries
  pub serialize_size : Entries → ℕ
  pub next_transaction : Transaction → Operation × Header
  -- the buffer of that size, as it is filled, and the header that is completed, or `none` for 0 bytes
  pub serialize : Entries → ℕ → Header → Option (Bytes × Header)
  pub update_transaction : Transaction → Operation → Header → Transaction

-- `sizeof(struct nvram)` does not matter to what is modelled.
abbrev nvram_size : ℕ
nvram_size = 128

-- EFAULT stands for a write through NULL, where neither section has a name.
abbrev efault : ℕ
efault = 14

module _ {World : Type 0} (R : Runtime World) (N : Libnvram World) (D : Device World) where
  -- `struct nvram`
  pub record Nvram : Type 0 where
    pub trans : N.Transaction
    pub priv_a : Option D.Priv
    pub priv_b : Option D.Priv

  destroy : Option D.Priv → World → World
  destroy none w = w
  destroy (some priv) w = D.destroy priv w

  pub close_sections : Option D.Priv → Option D.Priv → World → World
  unfolding destroy
  close_sections priv_a priv_b w = destroy priv_b (destroy priv_a w)

  pub v2_close : Nvram → World → World
  unfolding close_sections
  v2_close nvram w = close_sections nvram.priv_a nvram.priv_b w

  pub read_header : D.Priv → Io World (Option N.Header)
  read_header priv = do
    allocate R N.header_len
    buf ← D.read priv N.header_len
    pure (N.validate_header buf)

  -- The data behind a valid header, with the header.
  read_valid : D.Priv → Option N.Header → Io World (Option Bytes)
  read_valid priv none = pure none
  read_valid priv (some hdr) = do
    allocate R (N.header_len + N.len hdr)
    buf ← D.read priv (N.header_len + N.len hdr)
    pure (some buf)

  pub read_section : D.Priv → Io World (Option Bytes)
  unfolding read_header read_valid
  read_section priv = do
    total_size ← D.size priv
    if leb N.header_len total_size then read_header priv >>= read_valid priv else pure none

  -- What an initialization has left in `*priv`, and its result. A section with no name is left out.
  pub init_and_read : Option Bytes → World → (Option D.Priv × Result (Option Bytes)) × World
  unfolding read_section
  init_and_read none w = ((none, ok none), w)
  init_and_read (some section) w =
      if ltb 0 (length section)
      then (let (r, w') = D.init section w in
          elim r [
            | err c ↦ ((none, err c), w')
            | ok priv ↦ let (q, w'') = read_section priv w' in ((some priv, q), w'')
          ])
      else ((none, ok none), w)

  -- `buf + libnvram_header_len()`
  data_of : Option Bytes → Bytes
  data_of none = []
  data_of (some buf) = drop N.header_len buf

  deserialize_active : N.Transaction → Option Bytes → Option Bytes → Entries → Io World Entries
  unfolding data_of
  deserialize_active trans buf_a buf_b list =
      if N.active_a trans
      then N.deserialize list (data_of buf_a) (N.header_a trans)
      else if N.active_b trans
      then N.deserialize list (data_of buf_b) (N.header_b trans)
      else pure list

  -- From `libnvram_init_transaction` on.
  load :
      Option D.Priv
      → Option D.Priv
      → Option Bytes
      → Option Bytes
      → Entries
      → Io World (Nvram × Entries)
  unfolding deserialize_active close_sections
  load priv_a priv_b buf_a buf_b list w =
      let trans = N.init_transaction buf_a buf_b in
      let (r, w') = deserialize_active trans buf_a buf_b list w in
      elim r [
        | err c ↦ (err c, close_sections priv_a priv_b w')
        | ok filled ↦ (ok (record { trans = trans; priv_a = priv_a; priv_b = priv_b }, filled), w')
      ]

  -- From section B on.
  init_b : Option D.Priv → Option Bytes → Option Bytes → Entries → Io World (Nvram × Entries)
  unfolding init_and_read load close_sections
  init_b priv_a buf_a section_b list w =
      let ((priv_b, r), w') = init_and_read section_b w in
      elim r [
        | err c ↦ (err c, close_sections priv_a priv_b w')
        | ok buf_b ↦ load priv_a priv_b buf_a buf_b list w'
      ]

  init_a : Option Bytes → Option Bytes → Entries → Io World (Nvram × Entries)
  unfolding init_and_read init_b close_sections
  init_a section_a section_b list w =
      let ((priv_a, r), w') = init_and_read section_a w in
      elim r [
        | err c ↦ (err c, close_sections priv_a none w')
        | ok buf_a ↦ init_b priv_a buf_a section_b list w'
      ]

  pub v2_init : Option Bytes → Option Bytes → Entries → Io World (Nvram × Entries)
  unfolding init_a
  v2_init section_a section_b list = do allocate R nvram_size; init_a section_a section_b list

  -- Without two sections there is one write, to A if there is an A; with two, one write, and one to
  -- the other section where the counter is reset.
  pub write_sections : Option D.Priv → Option D.Priv → N.Operation → Bytes → Io World (Unit {0})
  write_sections none none op buf = fail efault
  write_sections (some a) none op buf = D.write a buf
  write_sections none (some b) op buf = D.write b buf
  write_sections (some a) (some b) op buf =
      let is_write_a = N.writes_a op in
      do
        D.write (if is_write_a then a else b) buf
        if N.resets_counter op then D.write (if is_write_a then b else a) buf else pure tt

  -- A list that serializes to 0 bytes is not written, and the result is 0.
  commit_serialized : Nvram → N.Operation → Option (Bytes × N.Header) → Io World Nvram
  unfolding write_sections
  commit_serialized nvram op none = pure nvram
  commit_serialized nvram op (some (buf, hdr)) = do
    write_sections nvram.priv_a nvram.priv_b op buf
    pure (record nvram { trans = N.update_transaction nvram.trans op hdr })

  pub v2_commit : Nvram → Entries → Io World Nvram
  unfolding commit_serialized
  v2_commit nvram list = do
    let size = N.serialize_size list
    allocate R size
    let (op, hdr) = N.next_transaction nvram.trans
    commit_serialized nvram op (N.serialize list size hdr)

  -- `nvram_v2_format`
  abbrev pub nvram_v2_format : Format World
  nvram_v2_format = record { Nvram = Nvram; init = v2_init; commit = v2_commit; close = v2_close }

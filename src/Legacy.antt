-- ===== src/Legacy.antt =====
-- The legacy text format, nvram_format_legacy.c. `NPOS` is `none`, and a position is a number of
-- bytes from the start of the buffer that the call gets.
pub mod Scan
pub mod Text
pub mod Accept
pub mod Commit
pub mod RoundTrip
pub mod Lookup
pub mod Storage
pub mod Sample
mod Tests
use mathlib.Core.Option
use nvram.Base.{
  ℕ, zero, suc, ◌+◌, ◌-◌, ◌^◌, Bool, true, false, not, ◌&&◌, ◌||◌, Option, none, some, List, [],
  ◌∷◌, ◌++◌, ltb, leb, ◌==◌, if◌then◌else◌, length, take, drop, Bytes, c_str, terminated, Result,
  ok, err, Io, pure, fail, ◌>>=◌, ◌>>◌, require, einval, enomem,
}
use nvram.Entry.{Entry, Entries, Runtime, allocate}
use nvram.Device.{Device}
use nvram.Format.{Format}

pub find : Bytes → ℕ → Option ℕ
find [] key = none
find (b ∷ bs) key = if b == key then some 0 else Option.map suc (find bs key)

abbrev pub is_npos : Option ℕ → Bool
is_npos none = true
is_npos (some _) = false

-- An entry of the buffer, and the position behind it.
pub record Found : Type 0 where
  pub entry : Entry
  pub next : ℕ

-- The value that begins at `value_start`, when `r` is the position of a newline in what is left.
abbrev value_end : Bytes → ℕ → Option ℕ → ℕ
value_end buf value_start none = length buf
value_end buf value_start (some r) = value_start + r

abbrev found : Bytes → ℕ → ℕ → ℕ → Found
found buf key_end value_start stop = record {
  entry = record {
    key = take key_end buf;
    value = take (stop - value_start) (drop value_start buf);
  };
  next = if ltb stop (length buf) then stop + 1 else stop;
}

abbrev is_start : Option ℕ → Bool
is_start none = false
is_start (some n) = n == 0

-- The tests behind the position of `=`.
find_value : Bytes → ℕ → Option Found
find_value buf key_end =
    let value_start = key_end + 1 in
    let r = find (drop value_start buf) b'\n' in
    if key_end == 0
    then none
    else if not (is_npos (find (take key_end buf) b'\n'))
    then none
    else if leb (length buf) value_start
    then none
    else if is_start r
    then none
    else some (found buf key_end value_start (value_end buf value_start r))

-- `none` is the return of 0, no entry found.
pub find_entry : Bytes → Option Found
unfolding find_value
find_entry buf = elim (find buf b'=') [ none ↦ none | some key_end ↦ find_value buf key_end ]

abbrev pub is_blank : ℕ → Bool
is_blank c = c == b' ' || c == b'\t' || c == b'\n'

-- `INT_MAX`, above which `snprintf` fails.
abbrev pub int_max : ℕ
int_max = 2 ^ 31 - 1

-- What `"%s=%s\n"` prints for an entry.
pub row : Entry → Bytes
row e = c_str e.key ++ b'=' ∷ (c_str e.value ++ b'\n' ∷ [])

-- The checks of the first loop on one entry, and the length that `snprintf` returns.
row_size : Entry → Result ℕ
row_size e =
    if not (is_npos (find e.key b'='))
    then err einval
    else if not (is_npos (find e.key b'\n'))
    then err einval
    else if not (is_npos (find e.value b'\n'))
    then err einval
    else if ltb int_max (length (row e))
    then err einval
    else ok (length (row e))

-- The first loop; `buf_size` is the sum so far.
needed : Entries → ℕ → Result ℕ
needed [] buf_size = ok buf_size
needed (e ∷ es) buf_size = elim (row_size e) [ ok r ↦ needed es (buf_size + r) | err c ↦ err c ]

-- The second loop: `out` is what stands in the buffer, where a row is cut at its end.
put_rows : ℕ → Entries → ℕ → Bytes → Result Bytes
put_rows buf_size [] pos out = ok out
put_rows buf_size (e ∷ es) pos out = elim (ltb int_max (length (row e))) [
  | true ↦ err einval
  | false ↦ put_rows buf_size es (pos + length (row e)) (out ++ take (buf_size - pos - 1) (row e))
]

abbrev pub returning : {World A : Type 0} → Result A → Io World A
returning r w = (r, w)

-- `!section || strlen(section) < 1`
abbrev pub is_unset : Option Bytes → Bool
is_unset none = true
is_unset (some s) = ltb (length s) 1

abbrev path : Option Bytes → Bytes
path none = []
path (some s) = s

-- `sizeof(struct nvram)`, two pointers.
abbrev nvram_size : ℕ
nvram_size = 16

module _ {World : Type 0} (R : Runtime World) where
  append_null_terminator : Entry → Io World Entry
  append_null_terminator from = do
    allocate R (length from.key + 1)
    allocate R (length from.value + 1)
    pure (record { key = terminated from.key; value = terminated from.value })

  -- A failed `libnvram_list_set` is reported as -ENOMEM.
  pub add_new : Entries → Entry → Io World Entries
  add_new list new w =
      let (r, w') = R.list_set list new w in (elim r [ ok l ↦ ok l | err _ ↦ err enomem ], w')

  -- One entry of the text, copied and set in the list.
  pub add_found : Entry → Entries → Io World Entries
  add_found entry list = do new ← append_null_terminator entry; add_new list new

  -- The loop at `buf + pos`, after a number of bytes that `pos` is still to pass over.
  pub populate_from : ℕ → Bytes → Entries → Io World Entries
  populate_from skip [] list = pure list
  populate_from zero (b ∷ bs) list = elim (is_blank b) [
    | true ↦ populate_from zero bs list
    | false ↦ elim (find_entry (b ∷ bs)) [
      | none ↦ fail einval
      | some f ↦ do new ← add_found f.entry list; populate_from (f.next - 1) bs new
    ]
  ]
  populate_from (suc skip) (b ∷ bs) list = populate_from skip bs list

  pub populate_list : Bytes → Entries → Io World Entries
  populate_list buf list = populate_from 0 buf list

module _ {World : Type 0} (R : Runtime World) (D : Device World) where
  -- `legacy_close` on the error paths of `legacy_init`, where `interface_priv` is set.
  closing : {A : Type 0} → D.Priv → Io World A → Io World A
  closing priv m w = let (r, w') = m w in (r, elim r [ ok _ ↦ w' | err _ ↦ D.destroy priv w' ])

  read_sized : D.Priv → Entries → ℕ → Io World Entries
  read_sized priv list buf_size =
      if ltb 0 buf_size
      then (do allocate R buf_size; buf ← D.read priv buf_size; populate_list R buf list)
      else pure list

  -- What `legacy_init` does once the interface is initialized.
  read_list : D.Priv → Entries → Io World Entries
  read_list priv list = do buf_size ← D.size priv; read_sized priv list buf_size

  pub legacy_init : Option Bytes → Option Bytes → Entries → Io World (D.Priv × Entries)
  legacy_init section_a section_b list = do
    require (not (is_unset section_a)) einval
    require (is_unset section_b) einval
    allocate R nvram_size
    priv ← D.init (path section_a)
    closing priv (do filled ← read_list priv list; pure (priv, filled))

  -- The second loop and the write.
  write_rows : D.Priv → Entries → ℕ → Io World D.Priv
  write_rows priv list buf_size = do
    buf ← returning (put_rows buf_size list 0 [])
    D.write priv (take (buf_size - 1) buf)
    pure priv

  pub legacy_commit : D.Priv → Entries → Io World D.Priv
  legacy_commit priv list = do
    rows_size ← returning (needed list 0)
    let buf_size = rows_size + 1
    allocate R buf_size
    write_rows priv list buf_size

  -- `legacy_close` after a successful `legacy_init`.
  pub legacy_close : D.Priv → World → World
  legacy_close priv w = D.destroy priv w

  -- `nvram_legacy_format`
  abbrev pub nvram_legacy_format : Format World
  nvram_legacy_format = record {
    Nvram = D.Priv;
    init = legacy_init;
    commit = legacy_commit;
    close = legacy_close;
  }

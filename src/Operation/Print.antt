-- ===== src/Operation/Print.antt =====
-- Printing of entries, main.c. The bytes that go to stdout are returned.
use nvram.Base.{
  ℕ, ◌+◌, ◌-◌, ◌^◌, ◌/◌, ◌%◌, Bool, true, false, ◌&&◌, ◌||◌, not, none, some, [], ◌∷◌, ◌++◌, ltb,
  ◌==◌, if◌then◌else◌, length, Bytes, c_str, Result, ok, err, einval, enoent,
}
use nvram.Entry.{Entry, Entries, Runtime}

-- `INT_MAX`
abbrev pub int_max : ℕ
int_max = 2 ^ 31 - 1

-- `enum print_options`, by its bits.
pub record PrintOptions : Type 0 where
  pub key : Bool
  pub value : Bool

abbrev pub print_value : PrintOptions
print_value = record { key = false; value = true }

abbrev pub print_key_and_value : PrintOptions
print_key_and_value = record { key = true; value = true }

-- `data[size - 1] == '\0'`. Of an empty buffer the code reads the byte in front; no such byte is
-- modelled, and the buffer counts as no string.
pub is_string : Bytes → Bool
is_string [] = false
is_string (b ∷ []) = b == 0
is_string (b ∷ c ∷ bs) = is_string (c ∷ bs)

hex_digit : ℕ → ℕ
hex_digit d = if ltb d 10 then b'0' + d else b'a' + (d - 10)

-- `"%02x"` of each byte.
hex_bytes : Bytes → Bytes
unfolding hex_digit
hex_bytes [] = []
hex_bytes (b ∷ bs) = hex_digit (b / 16) ∷ hex_digit (b % 16) ∷ hex_bytes bs

unfoldable pub print_arr_u8 : Bytes → Bytes
unfolding is_string hex_bytes
print_arr_u8 bytes = if is_string bytes then c_str bytes else b'0' ∷ b'x' ∷ hex_bytes bytes

unfoldable pub print_entry : Entry → PrintOptions → Result Bytes
print_entry entry opts =
    if ltb int_max (length entry.key) || ltb int_max (length entry.value)
    then err einval
    else if not (opts.key || opts.value)
    then err einval
    else ok (
        (if opts.key then print_arr_u8 entry.key else [])
        ++ (if opts.key && opts.value then b'=' ∷ [] else [])
        ++ (if opts.value then print_arr_u8 entry.value else [])
        ++ b'\n' ∷ [])

-- The text of an entry, and nothing where printing it fails.
abbrev pub printed : Result Bytes → Bytes
printed (ok text) = text
printed (err _) = []

unfoldable pub print_list : Entries → Bytes
print_list [] = []
print_list (e ∷ es) = printed (print_entry e print_key_and_value) ++ print_list es

module _ {World : Type 0} (R : Runtime World) where
  -- The key is a C string, looked up with its null byte.
  unfoldable pub print_list_entry : Entries → Bytes → Result Bytes
  print_list_entry list key = elim (R.list_get list (key ++ 0 ∷ [])) [
    | none ↦ err enoent
    | some entry ↦ print_entry entry print_value
  ]

-- ===== src/Legacy/Sample.antt =====
-- Concrete settings for the tests.
use nvram.Base.{
  ◌≡◌, refl, [], ◌∷◌, arith, Bytes, codes, length, terminated, All, Lacks, ne-nil_of_length, ◌<◌,
  ◌≤◌, c_str,
}
use nvram.Entry.{Entry, Entries}
use nvram.Legacy.{int_max, row}
use nvram.Legacy.Scan.{row_text}
use nvram.Legacy.Text.{IsStart}
use nvram.Legacy.Commit.{rows, IsPlain}
use nvram.Legacy.RoundTrip.{IsHighting, row-terminated, IsHighting-IsPlain}
use Prim.Native.String.{String}

abbrev pub setting : String → String → Entry
setting k v = record { key = terminated (codes k); value = terminated (codes v) }

abbrev pub settings : Entries
settings = setting "a" "1" ∷ setting "b" "22" ∷ setting "a" "3" ∷ []

abbrev pub Fits : Bytes → Bytes → Type 0
Fits name text =
    Lacks 0 name
    × Lacks 0 text
    × (0 < length name)
    × Lacks b'=' name
    × Lacks b'\n' name
    × (0 < length text)
    × Lacks b'\n' text
    × IsStart name
    × (length (row_text name text []) ≤ int_max)

pub setting-IsHighting : (k v : String) → Fits (codes k) (codes v) → IsHighting (setting k v)
setting-IsHighting k v f = record {
  name = codes k;
  text = codes v;
  key_is = refl;
  value_is = refl;
  name_lacks_null = f.0;
  text_lacks_null = f.1;
  row_ok = record {
    name_ne_nil = ne-nil_of_length (codes k) f.2;
    name_lacks_eq = f.3;
    name_lacks_newline = f.4;
    text_ne_nil = ne-nil_of_length (codes v) f.5;
    text_lacks_newline = f.6;
  };
  start_ok = f.7;
  row_le = rw (row-terminated (setting k v) (codes k) (codes v) refl refl f.0 f.1) f.8;
}

pub settings-IsHighting : All IsHighting settings
settings-IsHighting = (
  setting-IsHighting "a" "1" (ground arith),
  (setting-IsHighting "b" "22" (ground arith), (setting-IsHighting "a" "3" (ground arith), tt)),
)

pub rows-settings : rows settings ≡ codes "a=1\nb=22\na=3\n"
unfolding rows row c_str
rows-settings = refl

pub settings-IsPlain : All IsPlain settings
settings-IsPlain = (
  IsHighting-IsPlain (setting "a" "1") settings-IsHighting.0,
  (
    IsHighting-IsPlain (setting "b" "22") settings-IsHighting.1.0,
    (IsHighting-IsPlain (setting "a" "3") settings-IsHighting.1.1.0, tt),
  ),
)

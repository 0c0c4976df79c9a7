-- ===== src/Legacy/Tests.antt =====
-- Runs of the legacy format, and its theorems at concrete data.
use nvram.Base.{
  ◌+◌, ◌≡◌, refl, some, none, [], ◌∷◌, ◌++◌, arith, Bytes, codes, Result, ok, err, length, All,
  einval, ne-nil_of_length, same, c_str, pure, fail, ◌>>=◌, ◌>>◌,
}
use nvram.Entry.{Entries, allocate}
use nvram.Samples.{Sections, runtime, runtime-ListLaws, memory, memory-Storage}
use nvram.Legacy.{
  find_entry, populate_list, populate_from, find, find_value, row, legacy_commit, legacy_init,
  add_found, add_new, append_null_terminator, write_rows, put_rows, needed, row_size,
}
use nvram.Legacy.Scan.{IsRow, entry_of}
use nvram.Legacy.Text.{Text, blank, line, last, add_all, populate_list-Text}
use nvram.Legacy.Accept.{populate_list_sound}
use nvram.Legacy.Commit.{rows, IsPlain, legacy_commit-rows, legacy_commit_refused}
use nvram.Legacy.RoundTrip.{IsEmptySetting, restore_all, populate_list-rows, populate_list-empty}
use nvram.Legacy.Storage.{Filled, legacy_init-legacy_commit}
use nvram.Legacy.Sample.{setting, settings, settings-IsHighting, settings-IsPlain}

abbrev world : Sections
world = λ s. []

abbrev user_a : Bytes
user_a = codes "user_a"

read : Bytes → Entries → Sections → Result Entries × Sections
unfolding populate_list populate_from find_entry find_value find add_found add_new
    append_null_terminator same
read = populate_list (runtime {World = Sections})

read_file :
    (read (codes "\n a=1\nb=22\na=3") [] world
      ≡ (ok (setting "a" "3" ∷ setting "b" "22" ∷ []), world))
    × (read (codes "a=1\n=2\n") [] world ≡ (err einval, world))
    × (read (codes "a=1\nb=\n") [] world ≡ (err einval, world))
unfolding read
read_file = (refl, refl, refl)

empty-IsEmptySetting : IsEmptySetting (setting "c" "")
unfolding row c_str
empty-IsEmptySetting = record {
  name = codes "c";
  key_is = refl;
  value_is = refl;
  name_lacks_null = omega arith;
  name_ne_nil = ne-nil_of_length (codes "c") (omega arith);
  name_lacks_eq = omega arith;
  name_lacks_newline = omega arith;
  start_ok = refl;
  row_le = omega arith;
}

accepted :
    Text
      (codes "\n a=1\nb=22")
      (entry_of (codes "a") (codes "1") ∷ entry_of (codes "b") (codes "22") ∷ [])
accepted = blank refl (
    blank refl (
      line (codes "a") (codes "1") (codes "b=22") first refl refl
        (last (codes "b") (codes "22") second refl refl)))
  where
    first : IsRow (codes "a") (codes "1")
    first = record {
      name_ne_nil = ne-nil_of_length (codes "a") (omega arith);
      name_lacks_eq = omega arith;
      name_lacks_newline = omega arith;
      text_ne_nil = ne-nil_of_length (codes "1") (omega arith);
      text_lacks_newline = omega arith;
    }

    second : IsRow (codes "b") (codes "22")
    second = record {
      name_ne_nil = ne-nil_of_length (codes "b") (omega arith);
      name_lacks_eq = omega arith;
      name_lacks_newline = omega arith;
      text_ne_nil = ne-nil_of_length (codes "22") (omega arith);
      text_lacks_newline = omega arith;
    }

populate_list-Text_example :
    populate_list runtime (codes "\n a=1\nb=22") [] world
    ≡ add_all runtime
        (entry_of (codes "a") (codes "1") ∷ entry_of (codes "b") (codes "22") ∷ [])
        []
        world
populate_list-Text_example = populate_list-Text runtime [] world accepted

populate_list_sound_example :
    (es : Entries) × Text (codes "a=1\nb=2") es
    × (add_all runtime es [] world ≡ (ok (setting "a" "1" ∷ setting "b" "2" ∷ []), world))
unfolding read
populate_list_sound_example = populate_list_sound runtime (codes "a=1\nb=2") [] world refl

populate_list-rows_example :
    populate_list runtime (rows settings) [] world ≡ restore_all runtime settings [] world
populate_list-rows_example = populate_list-rows runtime settings [] world settings-IsHighting

populate_list-empty_example :
    populate_list runtime (rows (settings ++ setting "c" "" ∷ [])) [] world
    ≡ (restore_all runtime settings [] >>= λ _. fail einval) world
populate_list-empty_example =
    populate_list-empty runtime settings (setting "c" "") [] [] world settings-IsHighting
      empty-IsEmptySetting

legacy_commit-rows_example :
    legacy_commit runtime memory user_a settings world
    ≡ (do
      allocate runtime (length (rows settings) + 1)
      memory.write user_a (rows settings)
      pure user_a)
        world
legacy_commit-rows_example =
    legacy_commit-rows runtime memory user_a settings world settings-IsPlain

two_lines-refused : ¬ All IsPlain (setting "a" "1\n2" ∷ [])
two_lines-refused (p, _) = p.value_lacks_newline.1.0 refl

legacy_commit_refused_example :
    legacy_commit runtime memory user_a (setting "a" "1\n2" ∷ []) world ≡ (err einval, world)
legacy_commit_refused_example =
    legacy_commit_refused runtime memory user_a (setting "a" "1\n2" ∷ []) world two_lines-refused

committed : Sections
unfolding legacy_commit write_rows put_rows needed row_size row c_str find
committed = (legacy_commit runtime memory user_a settings world).1

legacy_init-legacy_commit_example :
    Filled runtime (λ r. r.1) settings (legacy_init runtime memory (some user_a) none [] committed)
unfolding committed
legacy_init-legacy_commit_example =
    legacy_init-legacy_commit runtime runtime-ListLaws memory memory-Storage user_a settings world
      settings-IsHighting (omega arith) refl

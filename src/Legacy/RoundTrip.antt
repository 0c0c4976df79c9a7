-- ===== src/Legacy/RoundTrip.antt =====
-- `populate_list` on the text that `legacy_commit` writes.
use nvram.Base.{
  ℕ, ◌+◌, ◌≤◌, ◌≡◌, ◌≢◌, refl, sym, ap, ◌∙◌, none, [], ◌∷◌, ◌++◌, arith, length, length-append,
  append_assoc, append-nil, Bytes, err, Io, pure, fail, ◌>>=◌, ◌>>◌, >>=-assoc, >>=-cong, >>=-first,
  >>=-pure, All, All-append, Lacks, einval, terminated, c_str-terminated,
}
use nvram.Entry.{Entry, Entries, Runtime, allocate}
use nvram.Legacy.{
  row, add_new, add_found, append_null_terminator, populate_from, populate_list, find_entry,
  find_value, find, int_max,
}
use nvram.Legacy.Scan.{IsRow, entry_of, row_text, find-append, drop_past}
use nvram.Legacy.Text.{IsStart, populate_from-line}
use nvram.Legacy.Commit.{rows, IsPlain}

-- A string setting that the format keeps: a null-terminated key that can begin a line and a
-- null-terminated value that is not empty.
pub record IsHighting (e : Entry) : Type 0 where
  pub name : Bytes
  pub text : Bytes
  pub key_is : e.key ≡ terminated name
  pub value_is : e.value ≡ terminated text
  pub name_lacks_null : Lacks 0 name
  pub text_lacks_null : Lacks 0 text
  pub row_ok : IsRow name text
  pub start_ok : IsStart name
  pub row_le : length (row e) ≤ int_max

pub row-terminated :
    (e : Entry) (name text : Bytes)
    → e.key ≡ terminated name
    → e.value ≡ terminated text
    → Lacks 0 name
    → Lacks 0 text
    → row e ≡ row_text name text []
unfolding row
row-terminated e name text k v hn ht =
    rw (k, v, c_str-terminated name [] hn, c_str-terminated text [] ht)

row-IsHighting : (e : Entry) (s : IsHighting e) → row e ≡ row_text s.name s.text []
row-IsHighting e s =
    row-terminated e s.name s.text s.key_is s.value_is s.name_lacks_null s.text_lacks_null

module _ {World : Type 0} (R : Runtime World) where
  -- The buffers of one entry are allocated, and it is set as it is.
  unfoldable pub restore : Entry → Entries → Io World Entries
  restore e list = do allocate R (length e.key); allocate R (length e.value); add_new R list e

  unfoldable pub restore_all : Entries → Entries → Io World Entries
  restore_all [] list = pure list
  restore_all (e ∷ es) list = restore e list >>= restore_all es

  add_found-restore :
      (e : Entry) (name text : Bytes) (list : Entries) (w : World)
      → e.key ≡ terminated name
      → e.value ≡ terminated text
      → add_found R (entry_of name text) list w ≡ restore e list w
  unfolding add_found restore append_null_terminator
  add_found-restore e name text list w k v =
      let ek : length e.key ≡ length name + 1 =
        ap (λ (l : Bytes). length l) k ∙ length-append name (0 ∷ []) in
      let ev : length e.value ≡ length text + 1 =
        ap (λ (l : Bytes). length l) v ∙ length-append text (0 ∷ []) in
      rw (ek, ev) (ground arith)

  populate_from-rows :
      (es : Entries) (rest : Bytes) (list : Entries) (w : World)
      → All IsHighting es
      → populate_from R 0 (rows es ++ rest) list w
        ≡ (restore_all es list >>= populate_from R 0 rest) w
  unfolding restore_all rows
  populate_from-rows [] rest list w s = refl
  populate_from-rows (e ∷ es) rest list w (s, ss) =
      let later : Entries → Io World Entries = λ l. restore_all es l >>= populate_from R 0 rest in
      let text_is : row e ++ rows es ++ rest ≡ row_text s.name s.text (rows es ++ rest) =
        rw (row-IsHighting e s) (simp append_assoc) in
      populate_from-line R later s.name s.text (rows es ++ rest) list w s.row_ok s.start_ok text_is
        (λ l v. populate_from-rows es rest l v ss)
      ∙ >>=-first (add_found R (entry_of s.name s.text) list) (restore e list) later w
          (add_found-restore e s.name s.text list w s.key_is s.value_is)
      ∙ sym (>>=-assoc (restore e list) (restore_all es) (populate_from R 0 rest) w)

  -- The rows of settings are read back as the same entries, set in the same order.
  pub populate_list-rows :
      (es : Entries) (list : Entries) (w : World)
      → All IsHighting es
      → populate_list R (rows es) list w ≡ restore_all es list w
  unfolding populate_list populate_from
  populate_list-rows es list w s =
      rw (← append-nil (rows es))
        (populate_from-rows es [] list w s ∙ >>=-pure (restore_all es list) w)

-- A setting with an empty value.
pub record IsEmptySetting (e : Entry) : Type 0 where
  pub name : Bytes
  pub key_is : e.key ≡ terminated name
  pub value_is : e.value ≡ terminated []
  pub name_lacks_null : Lacks 0 name
  pub name_ne_nil : name ≢ []
  pub name_lacks_eq : Lacks b'=' name
  pub name_lacks_newline : Lacks b'\n' name
  pub start_ok : IsStart name
  pub row_le : length (row e) ≤ int_max

row-IsEmptySetting : (e : Entry) (x : IsEmptySetting e) → row e ≡ x.name ++ b'=' ∷ b'\n' ∷ []
row-IsEmptySetting e x = row-terminated e x.name [] x.key_is x.value_is x.name_lacks_null tt

rows-append : (xs ys : Entries) → rows (xs ++ ys) ≡ rows xs ++ rows ys
unfolding rows
rows-append [] ys = refl
rows-append (x ∷ xs) ys = rw (rows-append xs ys, append_assoc)

find_value-empty :
    (name rest : Bytes) → find_value (name ++ b'=' ∷ b'\n' ∷ rest) (length name) ≡ none
unfolding find_value find
find_value-empty name rest = rw (drop_past b'=' name (b'\n' ∷ rest)) (ground arith)

find_entry-empty :
    (name rest : Bytes) → Lacks b'=' name → find_entry (name ++ b'=' ∷ b'\n' ∷ rest) ≡ none
unfolding find_entry
find_entry-empty name rest h =
    rw (find-append b'=' name (b'\n' ∷ rest) h, find_entry) (find_value-empty name rest)

module _ {World : Type 0} (R : Runtime World) where
  populate_from-none :
      (name tail : Bytes) (list : Entries) (w : World)
      → name ≢ []
      → IsStart name
      → find_entry (name ++ tail) ≡ none
      → populate_from R 0 (name ++ tail) list w ≡ (err einval, w)
  unfolding populate_from
  populate_from-none [] tail list w ne s h = absurd (ne refl)
  populate_from-none (b ∷ name) tail list w ne s h = rw (s, populate_from) (rw (h, populate_from))

  populate_from-empty :
      (e : Entry) (rest : Bytes) (list : Entries) (w : World)
      → IsEmptySetting e
      → populate_from R 0 (row e ++ rest) list w ≡ (err einval, w)
  populate_from-empty e rest list w x =
      rw (row-IsEmptySetting e x, append_assoc)
        (populate_from-none x.name (b'=' ∷ b'\n' ∷ rest) list w x.name_ne_nil x.start_ok
          (find_entry-empty x.name rest x.name_lacks_eq))

  -- Once an empty value is among the settings, the rows are refused by the reader at that
  -- row.
  pub populate_list-empty :
      (es : Entries) (e : Entry) (more list : Entries) (w : World)
      → All IsHighting es
      → IsEmptySetting e
      → populate_list R (rows (es ++ e ∷ more)) list w
        ≡ (restore_all R es list >>= λ _. fail einval) w
  unfolding populate_list rows
  populate_list-empty es e more list w s x = rw (rows-append es (e ∷ more)) (
      populate_from-rows R es (rows (e ∷ more)) list w s
      ∙ >>=-cong (restore_all R es list) (populate_from R 0 (rows (e ∷ more))) (λ _. fail einval) w
          (λ l v. populate_from-empty e (rows more) l v x))

Lacks-terminated : (c : ℕ) (s : Bytes) → 0 ≢ c → Lacks c s → Lacks c (terminated s)
Lacks-terminated c s ne h = All-append (λ b. b ≢ c) s (0 ∷ []) h (ne, tt)

-- A setting can be written.
pub IsHighting-IsPlain : (e : Entry) → IsHighting e → IsPlain e
IsHighting-IsPlain e s = record {
  key_lacks_eq = rw s.key_is (Lacks-terminated b'=' s.name (omega arith) s.row_ok.name_lacks_eq);
  key_lacks_newline =
      rw s.key_is (Lacks-terminated b'\n' s.name (omega arith) s.row_ok.name_lacks_newline);
  value_lacks_newline =
      rw s.value_is (Lacks-terminated b'\n' s.text (omega arith) s.row_ok.text_lacks_newline);
  row_le = s.row_le;
}

-- So can one with an empty value.
pub IsEmptySetting-IsPlain : (e : Entry) → IsEmptySetting e → IsPlain e
IsEmptySetting-IsPlain e x = record {
  key_lacks_eq = rw x.key_is (Lacks-terminated b'=' x.name (omega arith) x.name_lacks_eq);
  key_lacks_newline =
      rw x.key_is (Lacks-terminated b'\n' x.name (omega arith) x.name_lacks_newline);
  value_lacks_newline = rw x.value_is (omega arith);
  row_le = x.row_le;
}

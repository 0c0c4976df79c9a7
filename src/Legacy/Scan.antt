-- ===== src/Legacy/Scan.antt =====
-- `find` and `find_entry` on text of a known shape.
use nvram.Base.{
  ℕ, zero, suc, ◌+◌, ◌-◌, ◌<◌, ◌≡◌, ◌≢◌, ◌⊎◌, inl, inr, refl, ap, ◌∙◌, false, none, some, [], ◌∷◌,
  ◌++◌, arith, length, take, drop, Bytes, Lacks, take-append, length-pos, length-append,
  Option-cases, lt→ltb, ne-nil_of_length, take_all, length-drop, drop-drop, drop_all,
}
use native.Mathlib.Numerals.{add-one}
use nvram.Entry.{Entry}
use nvram.Legacy.{find, find_entry, find_value, Found, found, is_start, value_end}

module _ (c : ℕ) where
  pub find-absent : (xs : Bytes) → Lacks c xs → find xs c ≡ none
  unfolding find
  find-absent [] h = refl
  find-absent (x ∷ xs) h = ground (arith, find-absent xs h.1)

  pub find-append : (xs ys : Bytes) → Lacks c xs → find (xs ++ c ∷ ys) c ≡ some (length xs)
  unfolding find
  find-append [] ys h = ground arith
  find-append (x ∷ xs) ys h = ground (arith, find-append xs ys h.1)

  find_split :
      (xs : Bytes) (n : ℕ)
      → find xs c ≡ some n
      → Lacks c (take n xs)
        × (xs ≡ take n xs ++ c ∷ drop (suc n) xs)
        × (length (take n xs) ≡ n)
        × (n < length xs)
  unfolding find
  find_split [] n h = cc
  find_split (x ∷ xs) zero h = ground arith
  find_split (x ∷ xs) (suc n) h = ground (arith, find_split xs n, Option-cases (find xs c))

  -- Where the byte is found, none stands before it.
  pub find_sound :
      (xs : Bytes) (n : ℕ)
      → find xs c ≡ some n
      → Lacks c (take n xs)
        × (xs ≡ take n xs ++ c ∷ drop (n + 1) xs)
        × (length (take n xs) ≡ n)
        × (n < length xs)
  find_sound xs n h = rw add-one (find_split xs n h)

  pub find-none : (xs : Bytes) → find xs c ≡ none → Lacks c xs
  unfolding find
  find-none [] h = tt
  find-none (x ∷ xs) h = ground (arith, find-none xs)

-- The text of one row: a name, `=`, and a value.
pub record IsRow (name text : Bytes) : Type 0 where
  pub name_ne_nil : name ≢ []
  pub name_lacks_eq : Lacks b'=' name
  pub name_lacks_newline : Lacks b'\n' name
  pub text_ne_nil : text ≢ []
  pub text_lacks_newline : Lacks b'\n' text

abbrev pub entry_of : Bytes → Bytes → Entry
entry_of name text = record { key = name; value = text }

abbrev pub row_text : Bytes → Bytes → Bytes → Bytes
row_text name text rest = name ++ b'=' ∷ (text ++ b'\n' ∷ rest)

pub drop_past : (c : ℕ) (xs ys : Bytes) → drop (length xs + 1) (xs ++ c ∷ ys) ≡ ys
drop_past c [] ys = refl
drop_past c (x ∷ xs) ys =
    let e : suc (length xs) + 1 ≡ suc (length xs + 1) = omega arith in rw e (drop_past c xs ys)

find_value-row :
    (name text rest : Bytes)
    → IsRow name text
    → find_value (row_text name text rest) (length name)
      ≡ some (record { entry = entry_of name text; next = length name + 1 + length text + 1 })
unfolding find_value
find_value-row name text rest r =
    rw
      (
        drop_past b'=' name (text ++ b'\n' ∷ rest),
        take-append name (b'=' ∷ (text ++ b'\n' ∷ rest)),
        find-absent b'\n' name r.name_lacks_newline,
        find-append b'\n' text rest r.text_lacks_newline,
        length-append,
        length-append,
      )
      (let e : length name + 1 + length text - (length name + 1) ≡ length text = omega arith in
        rw (e, take-append text (b'\n' ∷ rest))
          (ground (arith, length-pos name r.name_ne_nil, length-pos text r.text_ne_nil)))

pub find_entry-row :
    (name text rest : Bytes)
    → IsRow name text
    → find_entry (row_text name text rest)
      ≡ some (record { entry = entry_of name text; next = length name + 1 + length text + 1 })
unfolding find_entry
find_entry-row name text rest r =
    rw (find-append b'=' name (text ++ b'\n' ∷ rest) r.name_lacks_eq, find_entry)
      (find_value-row name text rest r)

find_value_last :
    (name text : Bytes)
    → IsRow name text
    → find_value (name ++ b'=' ∷ text) (length name)
      ≡ some (record { entry = entry_of name text; next = length name + 1 + length text })
unfolding find_value
find_value_last name text r =
    rw
      (
        drop_past b'=' name text,
        take-append name (b'=' ∷ text),
        find-absent b'\n' name r.name_lacks_newline,
        find-absent b'\n' text r.text_lacks_newline,
        length-append,
      )
      (let e : length name + suc (length text) - (length name + 1) ≡ length text = omega arith in
        rw (e, take_all (length text) text (omega arith))
          (ground (arith, length-pos name r.name_ne_nil, length-pos text r.text_ne_nil)))

-- A last row with no newline runs to the end of the buffer.
pub find_entry_last :
    (name text : Bytes)
    → IsRow name text
    → find_entry (name ++ b'=' ∷ text)
      ≡ some (record { entry = entry_of name text; next = length name + 1 + length text })
unfolding find_entry
find_entry_last name text r =
    rw (find-append b'=' name text r.name_lacks_eq, find_entry) (find_value_last name text r)

find_value-shape :
    (buf : Bytes) (n : ℕ) (f : Found)
    → find_value buf n ≡ some f
    → (n ≢ 0)
      × (find (take n buf) b'\n' ≡ none)
      × (n + 1 < length buf)
      × (is_start (find (drop (n + 1) buf) b'\n') ≡ false)
      × (f ≡ found buf n (n + 1) (value_end buf (n + 1) (find (drop (n + 1) buf) b'\n')))
unfolding find_value
find_value-shape buf n f h = ground (arith, Option-cases (find (take n buf) b'\n'))

-- What a found entry says of the buffer: a row at its start, or a last row with no newline.
abbrev pub FoundIn : Bytes → Found → Type 0
FoundIn buf f =
    IsRow f.entry.key f.entry.value
    × ((buf ≡ row_text f.entry.key f.entry.value (drop f.next buf))
        ⊎ ((buf ≡ f.entry.key ++ b'=' ∷ f.entry.value) × (drop f.next buf ≡ [])))

module _ (buf : Bytes) (n : ℕ) (at_eq : find buf b'=' ≡ some n) (nz : n ≢ 0)
    (one_line : find (take n buf) b'\n' ≡ none) where
  found-row :
      (m : ℕ)
      → m ≢ 0
      → find (drop (n + 1) buf) b'\n' ≡ some m
      → FoundIn buf (found buf n (n + 1) (n + 1 + m))
  found-row m mz at_newline =
      let key = find_sound b'=' buf n at_eq in
      let val = find_sound b'\n' (drop (n + 1) buf) m at_newline in
      let inside : n + 1 + m < length buf = omega (arith, length-drop (n + 1) buf) in
      let stop : n + 1 + m - (n + 1) ≡ m = omega arith in
      rw (stop, lt→ltb (n + 1 + m) (length buf) inside)
        (
          record {
            name_ne_nil = ne-nil_of_length (take n buf) (omega arith);
            name_lacks_eq = key.0;
            name_lacks_newline = find-none b'\n' (take n buf) one_line;
            text_ne_nil = ne-nil_of_length (take m (drop (n + 1) buf)) (omega arith);
            text_lacks_newline = val.0;
          },
          inl (
              key.1
              ∙ ap (λ t. take n buf ++ b'=' ∷ t)
                  (val.1
                    ∙ ap (λ t. take m (drop (n + 1) buf) ++ b'\n' ∷ t)
                        (let e : n + 1 + (m + 1) ≡ n + 1 + m + 1 = omega arith in
                          rw (← e) (drop-drop (n + 1) (m + 1) buf)))),
        )

  found_last :
      n + 1 < length buf
      → find (drop (n + 1) buf) b'\n' ≡ none
      → FoundIn buf (found buf n (n + 1) (length buf))
  found_last more no_newline =
      let key = find_sound b'=' buf n at_eq in
      let whole : take (length buf - (n + 1)) (drop (n + 1) buf) ≡ drop (n + 1) buf =
        take_all (length buf - (n + 1)) (drop (n + 1) buf)
          (omega (arith, length-drop (n + 1) buf)) in
      rw whole (
        record {
          name_ne_nil = ne-nil_of_length (take n buf) (omega arith);
          name_lacks_eq = key.0;
          name_lacks_newline = find-none b'\n' (take n buf) one_line;
          text_ne_nil =
              ne-nil_of_length (drop (n + 1) buf) (omega (arith, length-drop (n + 1) buf));
          text_lacks_newline = find-none b'\n' (drop (n + 1) buf) no_newline;
        },
        inr (key.1, ground (arith, drop_all buf)),
      )

start_ne : (m : ℕ) → is_start (some m) ≡ false → m ≢ 0
start_ne m h = ground arith

pub find_entry_sound : (buf : Bytes) (f : Found) → find_entry buf ≡ some f → FoundIn buf f
unfolding find_entry
find_entry_sound buf f h = elim (Option-cases (find buf b'=')) [
  | inl absent ↦ cc
  | inr (n, at_eq) ↦
      let s = find_value-shape buf n f (rw (at_eq, find_entry) at h) in
      elim (Option-cases (find (drop (n + 1) buf) b'\n')) [
        | inl no_newline ↦ rw (s.4, no_newline) (found_last buf n at_eq s.0 s.1 s.2 no_newline)
        | inr (m, at_newline) ↦
            rw (s.4, at_newline)
              (found-row buf n at_eq s.0 s.1 m (start_ne m (rw at_newline at (s.3))) at_newline)
      ]
]

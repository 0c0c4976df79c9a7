-- ===== src/Legacy/Text.antt =====
-- The text that the format accepts, as a grammar, and `populate_list` against it.
use nvram.Base.{
  ℕ, suc, ◌+◌, ◌-◌, ◌≡◌, refl, ap, ◌∙◌, true, false, some, [], ◌∷◌, ◌++◌, arith, length,
  length-append, append_assoc, append-nil, Bytes, Io, pure, ◌>>=◌, >>=-cong,
}
use nvram.Entry.{Entries, Runtime}
use nvram.Legacy.{Found, find_entry, is_blank, add_found, populate_from, populate_list}
use nvram.Legacy.Scan.{IsRow, entry_of, row_text, find_entry-row, find_entry_last}

-- The first byte is no space, tab or newline.
abbrev pub IsStart : Bytes → Type 0
IsStart [] = Unit
IsStart (b ∷ _) = is_blank b ≡ false

-- Rows `name=text`, each but the last ended by a newline, with blanks in front of a row and at
-- the end.
pub data Text : Bytes → Entries → Type 0 where
  done : Text [] []
  blank : {b : ℕ} {bs : Bytes} {es : Entries} → is_blank b ≡ true → Text bs es → Text (b ∷ bs) es
  line :
      {buf : Bytes} {es : Entries} (name text rest : Bytes)
      → IsRow name text
      → IsStart name
      → buf ≡ row_text name text rest
      → Text rest es
      → Text buf (entry_of name text ∷ es)
  last :
      {buf : Bytes} (name text : Bytes)
      → IsRow name text
      → IsStart name
      → buf ≡ name ++ b'=' ∷ text
      → Text buf (entry_of name text ∷ [])

-- A row's text behind the first byte of its name, and its length.
row_head : Bytes → Bytes → Bytes
row_head name text = name ++ b'=' ∷ (text ++ b'\n' ∷ [])

row_end : (name text rest : Bytes) → row_text name text rest ≡ row_head name text ++ rest
unfolding row_head
row_end name text rest = simp append_assoc

row_length :
    (name text : Bytes) → suc (length name) + 1 + length text + 1 - 1 ≡ length (row_head name text)
unfolding row_head
row_length name text =
    omega (arith, length-append name (b'=' ∷ (text ++ b'\n' ∷ [])), length-append text (b'\n' ∷ []))

last_length :
    (name text : Bytes) → suc (length name) + 1 + length text - 1 ≡ length (name ++ b'=' ∷ text)
last_length name text = omega (arith, length-append name (b'=' ∷ text))

module _ {World : Type 0} (R : Runtime World) where
  -- The entries set one after the other.
  unfoldable pub add_all : Entries → Entries → Io World Entries
  add_all [] list = pure list
  add_all (e ∷ es) list = add_found R e list >>= add_all es

  populate_from-skip :
      (xs rest : Bytes) (list : Entries)
      → populate_from R (length xs) (xs ++ rest) list ≡ populate_from R 0 rest list
  unfolding populate_from
  populate_from-skip [] rest list = refl
  populate_from-skip (x ∷ xs) rest list = populate_from-skip xs rest list

  populate_from-past :
      (n : ℕ) (xs rest : Bytes) (list : Entries)
      → n ≡ length xs
      → populate_from R n (xs ++ rest) list ≡ populate_from R 0 rest list
  populate_from-past n xs rest list e = rw e (populate_from-skip xs rest list)

  pub populate_from-found :
      (b : ℕ) (bs : Bytes) (list : Entries) (w : World) (f : Found)
      → is_blank b ≡ false
      → find_entry (b ∷ bs) ≡ some f
      → populate_from R 0 (b ∷ bs) list w
        ≡ (add_found R f.entry list >>= populate_from R (f.next - 1) bs) w
  unfolding populate_from
  populate_from-found b bs list w f h k = rw (h, populate_from) (rw (k, populate_from))

  past_line :
      (name text rest : Bytes) (l : Entries) (v : World)
      → populate_from R (suc (length name) + 1 + length text + 1 - 1) (row_text name text rest) l v
        ≡ populate_from R 0 rest l v
  past_line name text rest l v = rw (row_end name text rest) (
      ap (λ (m : Io World Entries). m v)
        (populate_from-past _ (row_head name text) rest l (row_length name text)))

  past_last :
      (name text : Bytes) (l : Entries) (v : World)
      → populate_from R (suc (length name) + 1 + length text - 1) (name ++ b'=' ∷ text) l v
        ≡ populate_from R 0 [] l v
  past_last name text l v = rw (← append-nil (name ++ b'=' ∷ text)) (
      ap (λ (m : Io World Entries). m v)
        (populate_from-past _ (name ++ b'=' ∷ text) [] l (last_length name text)))

  -- A row in front of text that is read by `later`.
  pub populate_from-line :
      {buf : Bytes} (later : Entries → Io World Entries) (name text rest : Bytes) (list : Entries)
      (w : World)
      → IsRow name text
      → IsStart name
      → buf ≡ row_text name text rest
      → ((l : Entries) (v : World) → populate_from R 0 rest l v ≡ later l v)
      → populate_from R 0 buf list w ≡ (add_found R (entry_of name text) list >>= later) w
  populate_from-line later [] text rest list w r s e h = absurd (r.name_ne_nil refl)
  populate_from-line later (b ∷ name) text rest list w r s e h = rw e (
      populate_from-found b (row_text name text rest) list w _ s
        (find_entry-row (b ∷ name) text rest r)
      ∙ >>=-cong (add_found R (entry_of (b ∷ name) text) list)
          (populate_from R (suc (length name) + 1 + length text + 1 - 1) (row_text name text rest))
          later w (λ l v. past_line name text rest l v ∙ h l v))

  populate_from-last :
      {buf : Bytes} (name text : Bytes) (list : Entries) (w : World)
      → IsRow name text
      → IsStart name
      → buf ≡ name ++ b'=' ∷ text
      → populate_from R 0 buf list w ≡ add_all (entry_of name text ∷ []) list w
  unfolding add_all populate_from
  populate_from-last [] text list w r s e = absurd (r.name_ne_nil refl)
  populate_from-last (b ∷ name) text list w r s e = rw e (
      populate_from-found b (name ++ b'=' ∷ text) list w _ s (find_entry_last (b ∷ name) text r)
      ∙ >>=-cong (add_found R (entry_of (b ∷ name) text) list)
          (populate_from R (suc (length name) + 1 + length text - 1) (name ++ b'=' ∷ text))
          (add_all []) w (λ l v. past_last name text l v))

  populate_from-Text :
      {buf : Bytes} {es : Entries} (list : Entries) (w : World)
      → Text buf es
      → populate_from R 0 buf list w ≡ add_all es list w
  unfolding add_all populate_from
  populate_from-Text list w done = refl
  populate_from-Text list w (blank h t) = rw (h, populate_from) (populate_from-Text list w t)
  populate_from-Text list w (line {es = es} name text rest r s e t) =
      populate_from-line (add_all es) name text rest list w r s e (λ l v. populate_from-Text l v t)
  populate_from-Text list w (last name text r s e) = populate_from-last name text list w r s e

  -- Reading text of the grammar does the same as setting its entries, in order.
  pub populate_list-Text :
      {buf : Bytes} {es : Entries} (list : Entries) (w : World)
      → Text buf es
      → populate_list R buf list w ≡ add_all es list w
  unfolding populate_list
  populate_list-Text = populate_from-Text

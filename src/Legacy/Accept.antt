-- ===== src/Legacy/Accept.antt =====
-- Which text `populate_list` accepts.
use nvram.Base.{
  ℕ, zero, suc, ◌-◌, ◌<◌, ◌≡◌, ◌≢◌, inl, inr, refl, sym, ap, ◌∙◌, false, [], ◌∷◌, ◌++◌, arith,
  length, length-append, drop, Bytes, ok, >>=-eq-ok, >>=-ok, Bool-cases, Option-cases,
}
use nvram.Entry.{Entries, Runtime}
use nvram.Legacy.{Found, find_entry, is_blank, add_found, populate_from, populate_list}
use nvram.Legacy.Scan.{row_text, FoundIn, find_entry_sound}
use nvram.Legacy.Text.{IsStart, Text, done, blank, line, last, add_all, populate_from-found}

-- No row is empty text.
row_ne_nil : (name tail : Bytes) → ◌++◌ {A = ℕ} name (b'=' ∷ tail) ≢ []
row_ne_nil name tail e =
    absurd (omega (arith, length-append name (b'=' ∷ tail), ap (λ (l : Bytes). length l) e))

Text-nil : {buf : Bytes} {es : Entries} → Text buf es → buf ≡ [] → es ≡ []
Text-nil done e = refl
Text-nil (blank h t) e = cc
Text-nil (line name text rest r s b t) e = absurd (row_ne_nil name _ (sym b ∙ e))
Text-nil (last name text r s b) e = absurd (row_ne_nil name text (sym b ∙ e))

-- A name that begins the buffer begins with its first byte.
IsStart-append :
    (b : ℕ) (bs name tail : Bytes)
    → name ≢ []
    → b ∷ bs ≡ name ++ tail
    → is_blank b ≡ false
    → IsStart name
IsStart-append b bs [] tail ne e h = absurd (ne refl)
IsStart-append b bs (x ∷ name) tail ne e h = let same_byte : x ≡ b = cc in rw same_byte h

-- A row is longer than the text behind it.
row_longer : (name text rest : Bytes) → rest ≢ row_text name text rest
row_longer name text rest e = absurd (
    omega (
      arith,
      length-append name (b'=' ∷ (text ++ b'\n' ∷ rest)),
      length-append text (b'\n' ∷ rest),
      ap (λ (l : Bytes). length l) e,
    ))

-- Every entry that is found is passed over.
next_pos : (b : ℕ) (bs : Bytes) (f : Found) → FoundIn (b ∷ bs) f → 0 < f.next
next_pos b bs f s = pos f.next refl
  where
    pos : (n : ℕ) → f.next ≡ n → 0 < n
    pos (suc n) e = omega arith
    pos zero e = elim s.1 [
      | inl row ↦ absurd (row_longer f.entry.key f.entry.value (b ∷ bs) (rw e at row))
      | inr (_, empty) ↦ cc (rw e at empty)
    ]

drop-pred : (n : ℕ) (b : ℕ) (bs : Bytes) → 0 < n → drop n (b ∷ bs) ≡ drop (n - 1) bs
drop-pred zero b bs h = absurd (omega arith)
drop-pred (suc n) b bs h = let e : suc n - 1 ≡ n = omega arith in rw e

module _ {World : Type 0} (R : Runtime World) where
  -- An entry found at the start, and what the text behind it holds.
  cons_found :
      (b : ℕ) (bs : Bytes) (f : Found) (es : Entries) (list : Entries) (w : World)
      {new list' : Entries} {u w' : World}
      → is_blank b ≡ false
      → FoundIn (b ∷ bs) f
      → Text (drop (f.next - 1) bs) es
      → add_found R f.entry list w ≡ (ok new, u)
      → add_all R es new u ≡ (ok list', w')
      → (es' : Entries) × Text (b ∷ bs) es' × (add_all R es' list w ≡ (ok list', w'))
  unfolding add_all
  cons_found b bs f es list w start (r, shape) t a later =
      let t' : Text (drop f.next (b ∷ bs)) es =
        rw (drop-pred f.next b bs (next_pos b bs f (r, shape))) t in
      elim shape [
        | inl row ↦ (
          f.entry ∷ es,
          line f.entry.key f.entry.value (drop f.next (b ∷ bs)) r
              (IsStart-append b bs f.entry.key _ r.name_ne_nil row start) row t',
          >>=-ok (add_found R f.entry list) (add_all R es) w a ∙ later,
        )
        | inr (row, empty) ↦
            let none_left : es ≡ [] = Text-nil t' empty in
            (
              f.entry ∷ [],
              last f.entry.key f.entry.value r
                  (IsStart-append b bs f.entry.key _ r.name_ne_nil row start) row,
              >>=-ok (add_found R f.entry list) (add_all R []) w a ∙ (rw none_left at later),
            )
      ]

  populate_from_sound :
      (k : ℕ) (buf : Bytes) (list : Entries) (w : World) {list' : Entries} {w' : World}
      → populate_from R k buf list w ≡ (ok list', w')
      → (es : Entries) × Text (drop k buf) es × (add_all R es list w ≡ (ok list', w'))
  unfolding populate_from add_all
  populate_from_sound zero [] list w h = ([], done, h)
  populate_from_sound (suc k) [] list w h = ([], done, h)
  populate_from_sound (suc k) (b ∷ bs) list w h = populate_from_sound k bs list w h
  populate_from_sound zero (b ∷ bs) list w h = elim (Bool-cases (is_blank b)) [
    | inl skipped ↦
        let (es, t, e) = populate_from_sound zero bs list w (rw (skipped, populate_from) at h) in
        (es, blank skipped t, e)
    | inr start ↦ elim (Option-cases (find_entry (b ∷ bs))) [
      | inl absent ↦ cc (rw (absent, populate_from) at (rw (start, populate_from) at h))
      | inr (f, at_start) ↦
          let (new, u, a, later) =
            >>=-eq-ok (add_found R f.entry list) (populate_from R (f.next - 1) bs) w
              (sym (populate_from-found R b bs list w f start at_start) ∙ h) in
          let (es, t, e) = populate_from_sound (f.next - 1) bs new u later in
          cons_found b bs f es list w start (find_entry_sound (b ∷ bs) f at_start) t a e
    ]
  ]

  -- Whatever `populate_list` accepts is text of the grammar, and the entries it has set are those
  -- of that text, in order.
  pub populate_list_sound :
      (buf : Bytes) (list : Entries) (w : World) {list' : Entries} {w' : World}
      → populate_list R buf list w ≡ (ok list', w')
      → (es : Entries) × Text buf es × (add_all R es list w ≡ (ok list', w'))
  unfolding populate_list
  populate_list_sound = populate_from_sound 0

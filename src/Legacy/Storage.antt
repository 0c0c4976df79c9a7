-- ===== src/Legacy/Storage.antt =====
-- `legacy_commit` and `legacy_init` over a device that keeps what is written.
use nvram.Base.{
  take_all, ℕ, ◌≡◌, ◌<◌, refl, ap, ◌∙◌, false, ltb, some, none, [], ◌∷◌, arith, Bytes, Result, ok,
  err, Io, pure, ◌>>=◌, ◌>>◌, >>=-eq-ok, >>=-ok, >>=-err, All, length, nil_of_length, sym, inl, inr,
  Io-cases, ◌+◌, Bool-cases, enomem,
}
use mathlib.Core.Path.{subst}
use nvram.Entry.{Entry, Entries, Runtime, ListLaws, allocate, allocate-ok, allocate-err}
use nvram.Device.{Device, Storage}
use nvram.Legacy.{
  nvram_size, add_new, populate_list, closing, read_sized, read_list, populate_from, legacy_init,
  legacy_commit,
}
use nvram.Legacy.Commit.{rows, IsPlain, legacy_commit-rows}
use nvram.Legacy.RoundTrip.{
  IsHighting, IsHighting-IsPlain, restore, restore_all, populate_list-rows,
}
use nvram.Legacy.Lookup.{last_with, populate_list-get}

All-map : (es : Entries) → All IsHighting es → All IsPlain es
All-map [] s = tt
All-map (e ∷ es) (s, ss) = (IsHighting-IsPlain e s, All-map es ss)

module _ {World : Type 0} (R : Runtime World) (D : Device World) {A : Type 0} (priv : D.Priv) where
  -- After a failure the device is closed, and only then.
  closing-ok :
      (m : Io World A) (w : World) {a : A} {u : World}
      → m w ≡ (ok a, u)
      → closing R D priv m w ≡ (ok a, u)
  unfolding closing
  closing-ok m w e = ap (λ p. closing R D priv (λ _. p) w) e

  closing-err :
      (m : Io World A) (w : World) {c : ℕ} {u : World}
      → m w ≡ (err c, u)
      → closing R D priv m w ≡ (err c, D.destroy priv u)
  unfolding closing
  closing-err m w e = ap (λ p. closing R D priv (λ _. p) w) e

module _ {World : Type 0} (R : Runtime World) where
  restore-enomem :
      (e : Entry) (l : Entries) (w : World) {c : ℕ} {v : World}
      → restore R e l w ≡ (err c, v)
      → c ≡ enomem
  unfolding restore add_new
  restore-enomem e l w h = ground arith

  restore_all-enomem :
      (es : Entries) (l : Entries) (w : World) {c : ℕ} {v : World}
      → restore_all R es l w ≡ (err c, v)
      → c ≡ enomem
  unfolding restore_all
  restore_all-enomem [] l w h = cc
  restore_all-enomem (e ∷ es) l w {c} h = elim (Io-cases (restore R e l) w) [
    | inl (m, u, done) ↦
        restore_all-enomem es m u (sym (>>=-ok (restore R e l) (restore_all R es) w done) ∙ h)
    | inr (c', u, failed) ↦
        let same_code : c ≡ c' = cc (>>=-err (restore R e l) (restore_all R es) w failed) in
        same_code ∙ restore-enomem e l w failed
  ]

  -- The list holds the last setting of each key, or the memory ran out.
  pub Filled : {A : Type 0} → (A → Entries) → Entries → Result A × World → Type 0
  Filled list_of es (ok a, v) = (k : Bytes) → R.list_get (list_of a) k ≡ last_with k es
  Filled list_of es (err c, v) = c ≡ enomem

  module _ {A : Type 0} (list_of : A → Entries) (es : Entries) where
    -- Running out of memory is one of the two outcomes.
    Filled-enomem :
        {B : Type 0} (m : Io World B) (f : B → Io World A) (w : World) {v : World}
        → m w ≡ (err enomem, v)
        → Filled list_of es ((m >>= f) w)
    unfolding Filled
    Filled-enomem m f w failed = rw (>>=-err m f w failed) refl

    Filled-allocate :
        (n : ℕ) (m : Io World A) (w : World)
        → Filled list_of es (m (R.malloc n w).1)
        → Filled list_of es ((allocate R n >> m) w)
    unfolding Filled
    Filled-allocate n m w h = elim (Bool-cases (R.malloc n w).0) [
      | inl done ↦ rw (>>=-ok (allocate R n) (λ _. m) w (allocate-ok R n w done)) h
      | inr failed ↦ rw (>>=-err (allocate R n) (λ _. m) w (allocate-err R n w failed)) refl
    ]

  module _ (laws : ListLaws R) where
    populate_list-Filled :
        (es : Entries) (w : World)
        → All IsHighting es
        → Filled (λ l. l) es (populate_list R (rows es) [] w)
    unfolding Filled
    populate_list-Filled es w s = elim (Io-cases (populate_list R (rows es) []) w) [
      | inl (l, u, done) ↦ rw done (populate_list-get R laws es w s done)
      | inr (c, u, failed) ↦
          rw failed (restore_all-enomem es [] w (sym (populate_list-rows R es [] w s) ∙ failed))
    ]

module _ {World : Type 0} (R : Runtime World) (laws : ListLaws R) (D : Device World)
    (S : Storage R D) where
  -- A setting's row is not empty text.
  read_sized-Filled :
      (priv : D.Priv) (es : Entries) (w : World)
      → All IsHighting es
      → S.Holds (D.section priv) (rows es) w
      → Filled R (λ l. l) es (read_sized R D priv [] (length (rows es)) w)
  unfolding read_sized populate_list populate_from
  read_sized-Filled priv es w s h = elim (Bool-cases (ltb 0 (length (rows es)))) [
    | inl some_text ↦ rw some_text (
        Filled-allocate R (λ l. l) es (length (rows es))
          (do buf ← D.read priv (length (rows es)); populate_list R buf []) w
          (elim (S.read-ok priv (rows es) (length (rows es)) _ (omega arith)
            (S.malloc-Holds (length (rows es)) _ _ w h)) [
              | inl (v, got, _) ↦
                  let whole = take_all (length (rows es)) (rows es) (omega arith) in
                  rw
                    (>>=-ok (D.read priv (length (rows es))) (λ buf. populate_list R buf []) _
                      (rw whole at got))
                    (populate_list-Filled R laws es v s)
              | inr (v, failed) ↦
                  Filled-enomem R (λ l. l) es (D.read priv (length (rows es)))
                    (λ buf. populate_list R buf []) _ failed
            ]))
    | inr empty ↦
        let no_text : rows es ≡ [] = nil_of_length (rows es) (ground arith) in
        rw (empty) (rw no_text at (populate_list-Filled R laws es w s))
  ]

  read_list-Filled :
      (priv : D.Priv) (es : Entries) (w : World)
      → All IsHighting es
      → S.Holds (D.section priv) (rows es) w
      → Filled R (λ l. l) es (read_list R D priv [] w)
  unfolding read_list
  read_list-Filled priv es w s h =
      let (v, sized, h') = S.size-ok priv (rows es) w h in
      rw (>>=-ok (D.size priv) (read_sized R D priv []) w sized) (read_sized-Filled priv es v s h')

  -- The last step of `legacy_init`.
  closing_list : D.Priv → Io World (D.Priv × Entries)
  closing_list priv = closing R D priv (do filled ← read_list R D priv []; pure (priv, filled))

  closing-Filled :
      (priv : D.Priv) (es : Entries) (w : World)
      → Filled R (λ l. l) es (read_list R D priv [] w)
      → Filled R (λ r. r.1) es (closing_list priv w)
  unfolding closing_list Filled
  closing-Filled priv es w h =
      let keep : Entries → Io World (D.Priv × Entries) = λ filled. pure (priv, filled) in
      let m : Io World (D.Priv × Entries) = read_list R D priv [] >>= keep in
      elim (Io-cases (read_list R D priv []) w) [
        | inl (l, u, done) ↦
            rw (closing-ok R D priv m w (>>=-ok (read_list R D priv []) keep w done)) (rw done at h)
        | inr (c, u, failed) ↦
            rw (closing-err R D priv m w (>>=-err (read_list R D priv []) keep w failed))
              (rw failed at h)
      ]

  legacy_init-Filled :
      (section : Bytes) (es : Entries) (w : World)
      → 0 < length section
      → All IsHighting es
      → S.Holds section (rows es) w
      → Filled R (λ r. r.1) es (legacy_init R D (some section) none [] w)
  unfolding legacy_init closing_list
  legacy_init-Filled section es w pos s h =
      let long : ltb (length section) 1 ≡ false = ground arith in
      rw long (
        Filled-allocate R (λ r. r.1) es nvram_size (do priv ← D.init section; closing_list priv) w
          (elim (S.init-ok section (rows es) _ (S.malloc-Holds nvram_size section _ w h)) [
            | inl (p, v, opened, is_open, h') ↦ rw (>>=-ok (D.init section) closing_list _ opened) (
                closing-Filled p es v
                  (read_list-Filled p es v s (subst (λ x. S.Holds x (rows es) v) (sym is_open) h')))
            | inr (v, failed) ↦ Filled-enomem R (λ r. r.1) es (D.init section) closing_list _ failed
          ]))

  -- Over a device that keeps what is written, settings that a commit has written to a named section
  -- are read back after a restart: the list holds the last setting of each key, or the memory ran
  -- out.
  pub legacy_init-legacy_commit :
      (priv : D.Priv) (es : Entries) (w : World) {priv' : D.Priv} {v : World}
      → All IsHighting es
      → 0 < length (D.section priv)
      → legacy_commit R D priv es w ≡ (ok priv', v)
      → Filled R (λ r. r.1) es (legacy_init R D (some (D.section priv)) none [] (D.destroy priv' v))
  legacy_init-legacy_commit priv es w {priv'} {v} s pos h =
      let (_, u, a, b) =
        >>=-eq-ok (allocate R (length (rows es) + 1)) (λ _. do D.write priv (rows es); pure priv) w
          (sym (legacy_commit-rows R D priv es w (All-map es s)) ∙ h) in
      let (_, t, c, d) = >>=-eq-ok (D.write priv (rows es)) (λ _. pure priv) u b in
      legacy_init-Filled (D.section priv) es (D.destroy priv' v) pos s (
        S.destroy-Holds priv' (D.section priv) (rows es) v (
          subst (S.Holds (D.section priv) (rows es)) (ap (λ (p : _ × World). p.1) d)
            (S.write-Holds priv (rows es) u t c)))

-- ===== src/Legacy/Lookup.antt =====
-- The settings that a list holds after its text was read back.
use nvram.Base.{
  ◌≡◌, ◌∙◌, Option, some, none, [], ◌∷◌, arith, Bytes, ok, ◌>>◌, >>=-eq-ok, All, length, sym, inl,
  inr, same, if◌then◌else◌, Result-cases,
}
use nvram.Entry.{Entry, Entries, Runtime, ListLaws, allocate}
use nvram.Legacy.{add_new, populate_list}
use nvram.Legacy.Commit.{rows}
use nvram.Legacy.RoundTrip.{IsHighting, restore, restore_all, populate_list-rows}

-- The last entry of that key.
abbrev pub last_with : Bytes → Entries → Option Entry
last_with k [] = none
last_with k (e ∷ es) = elim (last_with k es) [
  | some x ↦ some x
  | none ↦ if same e.key k then some e else none
]

abbrev or_else : Option Entry → Option Entry → Option Entry
or_else (some e) other = some e
or_else none other = other

module _ {World : Type 0} (R : Runtime World) (laws : ListLaws R) where
  add_new-ok :
      (l : Entries) (e : Entry) (w : World) {l' : Entries} {w' : World}
      → add_new R l e w ≡ (ok l', w')
      → R.list_set l e w ≡ (ok l', w')
  unfolding add_new
  add_new-ok l e w {l'} {w'} h = elim (Result-cases (R.list_set l e w).0) [
    | inl (m, done) ↦ ground (arith, done)
    | inr (c, failed) ↦ ground (arith, failed)
  ]

  restore-get :
      (e : Entry) (l : Entries) (w : World) {l' : Entries} {w' : World}
      → restore R e l w ≡ (ok l', w')
      → (k : Bytes) → R.list_get l' k ≡ (if same e.key k then some e else R.list_get l k)
  unfolding restore
  restore-get e l w h k =
      let (_, u, _, a) =
        >>=-eq-ok (allocate R (length e.key)) (λ _. allocate R (length e.value) >> add_new R l e) w
          h in
      let (_, v, _, b) = >>=-eq-ok (allocate R (length e.value)) (λ _. add_new R l e) u a in
      laws.get-set l e v _ _ (add_new-ok l e v b) k

  restore_all-get :
      (es : Entries) (l : Entries) (w : World) {l' : Entries} {w' : World}
      → restore_all R es l w ≡ (ok l', w')
      → (k : Bytes) → R.list_get l' k ≡ or_else (last_with k es) (R.list_get l k)
  unfolding restore_all
  restore_all-get [] l w h k = ground arith
  restore_all-get (e ∷ es) l w h k =
      let (m, u, a, b) = >>=-eq-ok (restore R e l) (restore_all R es) w h in
      restore_all-get es m u b k ∙ ground (arith, restore-get e l w a k)

  -- A list filled from the rows of settings holds, for each key, the last setting of that key.
  pub populate_list-get :
      (es : Entries) (w : World) {l : Entries} {w' : World}
      → All IsHighting es
      → populate_list R (rows es) [] w ≡ (ok l, w')
      → (k : Bytes) → R.list_get l k ≡ last_with k es
  populate_list-get es w s h k =
      restore_all-get es [] w (sym (populate_list-rows R es [] w s) ∙ h) k
      ∙ ground (arith, laws.get-nil k)

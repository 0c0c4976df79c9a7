-- ===== src/Operation/Unperformed.antt =====
-- `write_performed`, which decides whether the program commits.
use nvram.Base.{
  ◌≡◌, ◌⊎◌, inl, inr, ap, ◌∙◌, Bool, true, false, List, [], ◌∷◌, arith, Bytes, ok, pure, terminated,
  Io-cases, >>=-eq-ok, Bool-cases,
}
use nvram.Entry.{Entries, Runtime, ListLaws}
use nvram.Operation.{
  Mode, Operation, list, set, get, del, Session, has_value, execute, execute_all, exec_list,
  exec_set, exec_get, exec_del, add_list_entry, remove_list_entry,
}
use nvram.Operation.Store.{target, store}

module _ {World : Type 0} (R : Runtime World) where
  -- An entry that is there already leaves the list as it is.
  add_list_entry-same :
      (l : Entries) (key value : Bytes) (w : World) {l' : Entries} {w' : World}
      → add_list_entry R l key value w ≡ (ok (false, l'), w')
      → l' ≡ l
  unfolding add_list_entry
  add_list_entry-same l key value w {l'} {w'} h =
      elim (Bool-cases (has_value (R.list_get l (terminated key)) (terminated value))) [
        | inl there ↦ cc (rw there at h)
        | inr new ↦
            let (l'', v, e, f) =
              >>=-eq-ok (R.list_set l (record { key = terminated key; value = terminated value }))
                (λ l''. pure (true, l'')) w (rw new at h) in
            cc f
      ]

  module _ (laws : ListLaws R) (mode : Mode)
      (writes : (mode.system_write ≡ true) ⊎ (mode.user_write ≡ true)) where
    execute-unperformed :
        (op : Operation) (s : Session World) (k : Bytes) {t : Session World}
        → execute R mode op s ≡ (ok tt, t)
        → t.write_performed ≡ false
        → (s.write_performed ≡ false) × (store R (target mode t) k ≡ store R (target mode s) k)
    unfolding execute exec_list exec_get exec_set exec_del remove_list_entry
    execute-unperformed list s k h n = ground arith
    execute-unperformed (set key value) s k h n =
        elim (Io-cases (add_list_entry R (target mode s) key value) s.world) [
          | inl ((true, l), w, e) ↦ ground (arith, e)
          | inl ((false, l), w, e) ↦
              ground (arith, e, add_list_entry-same (target mode s) key value s.world e)
          | inr (c, w, e) ↦ ground (arith, e)
        ]
    execute-unperformed (get key) s k h n = ground arith
    execute-unperformed (del key) s k h n =
        let r = R.list_remove (target mode s) (terminated key) s.world in
        elim (Bool-cases r.0.0) [
          | inl gone ↦ ground (arith, gone)
          | inr kept ↦ ground (
            arith,
            kept,
            laws.remove_absent (target mode s) (terminated key) s.world r.0.1 r.1
                (ap (λ (b : Bool). ((b, r.0.1), r.1)) kept) (terminated k),
          )
        ]

    -- Where the list calls keep their laws and the mode writes a section, a run that succeeds with
    -- no write noted has changed no value of the section, and none was noted before.
    pub execute_all-unperformed :
        (ops : List Operation) (s : Session World) (k : Bytes) {t : Session World}
        → execute_all R mode ops s ≡ (ok tt, t)
        → t.write_performed ≡ false
        → (s.write_performed ≡ false) × (store R (target mode t) k ≡ store R (target mode s) k)
    unfolding execute_all
    execute_all-unperformed [] s k h n = ground arith
    execute_all-unperformed (op ∷ ops) s k h n =
        let (_, u, a, b) = >>=-eq-ok (execute R mode op) (λ _. execute_all R mode ops) s h in
        let later = execute_all-unperformed ops u k b n in
        let first = execute-unperformed op s k a later.0 in (first.0, later.1 ∙ first.1)

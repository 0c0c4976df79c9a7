-- ===== src/Operation/Failures.antt =====
-- The error numbers of the operations.
use nvram.Base.{
  ◌≢◌, inl, inr, sym, ◌∙◌, List, [], ◌∷◌, arith, Bytes, err, terminated, Io-cases, Bool-cases,
  >>=-ok, >>=-err,
}
use nvram.Entry.{Entry, Entries, Runtime}
use nvram.Operation.{
  Mode, Operation, list, set, get, del, Session, has_value, execute, execute_all, add_list_entry,
  exec_list, exec_set, exec_get, exec_del,
}
use nvram.Operation.Print.{print_list_entry, print_entry}
use nvram.Operation.Store.{target}

abbrev pub SetHasErrors : {World : Type 0} → Runtime World → Type 0
SetHasErrors {World} R = (l : Entries) (e : Entry) (w w' : World) → R.list_set l e w ≢ (err 0, w')

module _ {World : Type 0} (R : Runtime World) (mode : Mode) (errors : SetHasErrors R) where
  add_list_entry-HasErrors :
      (l : Entries) (key value : Bytes) (w w' : World)
      → add_list_entry R l key value w ≢ (err 0, w')
  unfolding add_list_entry
  add_list_entry-HasErrors l key value w w' h =
      let e : Entry = record { key = terminated key; value = terminated value } in
      elim (Bool-cases (has_value (R.list_get l (terminated key)) (terminated value))) [
        | inl there ↦ cc (rw there at h)
        | inr new ↦ elim (Io-cases (R.list_set l e) w) [
          | inl (l', u, s) ↦ ground (arith, h, new, s)
          | inr (c, u, s) ↦ ground (arith, h, new, s, errors l e w u)
        ]
      ]

  execute-HasErrors : (op : Operation) (s t : Session World) → execute R mode op s ≢ (err 0, t)
  unfolding execute exec_list exec_set exec_get exec_del print_list_entry print_entry
  execute-HasErrors list s t h = cc
  execute-HasErrors (set key value) s t h =
      elim (Io-cases (add_list_entry R (target mode s) key value) s.world) [
        | inl (_, w, e) ↦ ground (arith, e)
        | inr (c, w, e) ↦
            ground (arith, e, add_list_entry-HasErrors (target mode s) key value s.world w)
      ]
  execute-HasErrors (get key) s t h = ground arith
  execute-HasErrors (del key) s t h = ground arith

  -- Where no failed `list_set` has the error number 0, neither has a failed run.
  pub execute_all-HasErrors :
      (ops : List Operation) (s t : Session World) → execute_all R mode ops s ≢ (err 0, t)
  unfolding execute_all
  execute_all-HasErrors [] s t h = cc
  execute_all-HasErrors (op ∷ ops) s t h = elim (Io-cases (execute R mode op) s) [
    | inl (_, u, e) ↦
        execute_all-HasErrors ops u t
          (sym (>>=-ok (execute R mode op) (λ _. execute_all R mode ops) s e) ∙ h)
    | inr (c, u, e) ↦
        let f = sym (>>=-err (execute R mode op) (λ _. execute_all R mode ops) s e) ∙ h in
        execute-HasErrors op s t (e ∙ f)
  ]

-- ===== src/Operation/Store.antt =====
-- The operations against an abstract store of values by key.
use nvram.Base.{
  ◌≡◌, ◌⊎◌, inl, inr, refl, ap, ◌∙◌, Bool, true, false, List, [], ◌∷◌, arith, Bytes, ok, All,
  if◌then◌else◌, Io-cases, >>=-eq-ok, Option, some, none, terminated, same, same_iff, Lacks,
  same-terminated, Bool-cases, Option-cases, pure,
}
use nvram.Entry.{Entry, Entries, Runtime, ListLaws}
use nvram.Operation.{
  Mode, Operation, list, set, get, del, Session, has_value, execute, execute_all, exec_list,
  exec_set, exec_get, exec_del, add_list_entry, remove_list_entry,
}

-- The value of each key, with its null byte.
abbrev pub Store : Type 0
Store = Bytes → Option Bytes

-- What an operation means for the section that is written.
abbrev pub effect : Operation → Store → Store
effect list m k = m k
effect (set key value) m k = if same key k then some (terminated value) else m k
effect (get _) m k = m k
effect (del key) m k = if same key k then none else m k

abbrev pub effects : List Operation → Store → Store
effects [] m = m
effects (op ∷ ops) m = effects ops (effect op m)

-- The keys that the operations name are C strings.
abbrev pub IsString : Operation → Type 0
IsString list = Unit
IsString (set key _) = Lacks 0 key
IsString (get key) = Lacks 0 key
IsString (del key) = Lacks 0 key

-- The list that the mode writes.
abbrev pub target : {World : Type 0} → Mode → Session World → Entries
target mode s = if mode.system_write then s.system else s.user

abbrev entry_value : Option Entry → Option Bytes
entry_value none = none
entry_value (some e) = some e.value

has_value_sound :
    (o : Option Entry) (value : Bytes) → has_value o value ≡ true → entry_value o ≡ some value
has_value_sound none value h = cc
has_value_sound (some e) value h = ap some ((same_iff e.value value).0 h)

-- The meaning of the operations at a key depends on the store at that key.
effect-cong : (op : Operation) (m n : Store) (k : Bytes) → m k ≡ n k → effect op m k ≡ effect op n k
effect-cong list m n k h = h
effect-cong (set key value) m n k h = ground arith
effect-cong (get key) m n k h = h
effect-cong (del key) m n k h = ground arith

effects-cong :
    (ops : List Operation) (m n : Store) (k : Bytes) → m k ≡ n k → effects ops m k ≡ effects ops n k
effects-cong [] m n k h = h
effects-cong (op ∷ ops) m n k h =
    effects-cong ops (effect op m) (effect op n) k (effect-cong op m n k h)

module _ {World : Type 0} (R : Runtime World) where
  abbrev pub store : Entries → Store
  store l k = entry_value (R.list_get l (terminated k))

  module _ (laws : ListLaws R) where
    add_list_entry-store :
        (l : Entries) (key value : Bytes) (w : World) {done : Bool} {l' : Entries} {w' : World}
        → Lacks 0 key
        → add_list_entry R l key value w ≡ (ok (done, l'), w')
        → (k : Bytes) → Lacks 0 k
        → store l' k ≡ effect (set key value) (store l) k
    unfolding add_list_entry
    add_list_entry-store l key value w {done} {l'} {w'} hk h k hl =
        elim (Bool-cases (has_value (R.list_get l (terminated key)) (terminated value))) [
          | inl there ↦ ground (
            arith,
            rw there at h,
            there,
            same_iff key k,
            Option-cases (R.list_get l (terminated key)),
            has_value_sound (R.list_get l (terminated key)) (terminated value) there,
          )
          | inr new ↦
              let (l'', v, e, f) =
                >>=-eq-ok (R.list_set l (record { key = terminated key; value = terminated value }))
                  (λ l''. pure (true, l'')) w (rw new at h) in
              let same_list : l'' ≡ l' = cc in
              rw
                (
                  ← same_list,
                  laws.get-set l _ w l'' v e (terminated k),
                  same-terminated key k hk hl,
                )
                (ground arith)
        ]

    remove_list_entry-store :
        (l : Entries) (key : Bytes) (w : World) {done : Bool} {l' : Entries} {w' : World}
        → Lacks 0 key
        → remove_list_entry R l key w ≡ ((done, l'), w')
        → (k : Bytes) → Lacks 0 k
        → store l' k ≡ effect (del key) (store l) k
    unfolding remove_list_entry
    remove_list_entry-store l key w {done = true} {l'} {w'} hk h k hl =
        rw
          (laws.get-remove l (terminated key) w l' w' h (terminated k), same-terminated key k hk hl)
          (ground arith)
    remove_list_entry-store l key w {done = false} {l'} {w'} hk h k hl =
        rw (laws.remove_absent l (terminated key) w l' w' h (terminated k))
          (ground (arith, same_iff key k, laws.remove_finds l (terminated key) w l' w' h))

    module _ (mode : Mode) (writes : (mode.system_write ≡ true) ⊎ (mode.user_write ≡ true)) where
      exec_set-store :
          (key value : Bytes) (s : Session World) {t : Session World}
          → Lacks 0 key
          → exec_set R mode key value s ≡ (ok tt, t)
          → (k : Bytes) → Lacks 0 k
          → store (target mode t) k ≡ effect (set key value) (store (target mode s)) k
      unfolding exec_set
      exec_set-store key value s hk h k hl =
          elim (Io-cases (add_list_entry R (target mode s) key value) s.world) [
            | inl ((done, l), w, e) ↦
                ground (arith, e, add_list_entry-store (target mode s) key value s.world hk e k hl)
            | inr (c, w, e) ↦ ground (arith, e)
          ]

      exec_del-store :
          (key : Bytes) (s : Session World) {t : Session World}
          → Lacks 0 key
          → exec_del R mode key s ≡ (ok tt, t)
          → (k : Bytes) → Lacks 0 k
          → store (target mode t) k ≡ effect (del key) (store (target mode s)) k
      unfolding exec_del
      exec_del-store key s hk h k hl =
          let r = remove_list_entry R (target mode s) key s.world in
          ground (
            arith,
            remove_list_entry-store (target mode s) key s.world {done = r.0.0} {l' = r.0.1}
                {w' = r.1} hk refl k hl,
          )

      execute-store :
          (op : Operation) (s : Session World) {t : Session World}
          → IsString op
          → execute R mode op s ≡ (ok tt, t)
          → (k : Bytes) → Lacks 0 k
          → store (target mode t) k ≡ effect op (store (target mode s)) k
      unfolding execute exec_list exec_get
      execute-store list s i h k hl = ground arith
      execute-store (set key value) s i h k hl = exec_set-store key value s i h k hl
      execute-store (get key) s i h k hl = ground arith
      execute-store (del key) s i h k hl = exec_del-store key s i h k hl

      -- Where the list calls keep their laws, the mode writes a section and the keys are C strings,
      -- a run that succeeds gives the written section the value that the operations, taken in
      -- order, give each key.
      pub execute_all-store :
          (ops : List Operation) (s : Session World) {t : Session World}
          → All IsString ops
          → execute_all R mode ops s ≡ (ok tt, t)
          → (k : Bytes) → Lacks 0 k
          → store (target mode t) k ≡ effects ops (store (target mode s)) k
      unfolding execute_all
      execute_all-store [] s i h k hl = ground arith
      execute_all-store (op ∷ ops) s {t} (i, is) h k hl =
          let (_, u, a, b) = >>=-eq-ok (execute R mode op) (λ _. execute_all R mode ops) s h in
          execute_all-store ops u is b k hl
          ∙ effects-cong ops (store (target mode u)) (effect op (store (target mode s))) k
              (execute-store op s i a k hl)

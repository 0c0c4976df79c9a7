-- ===== src/Operation/Frame.antt =====
-- What the operations leave alone.
use nvram.Base.{
  ◌≡◌, ◌⊎◌, inl, inr, true, false, List, [], ◌∷◌, arith, All, Io-cases, >>=-ok, >>=-err,
}
use nvram.Entry.{Runtime}
use nvram.Operation.{
  Mode, Operation, list, set, get, del, Session, execute, execute_all, exec_list, exec_set,
  exec_get, exec_del,
}
use nvram.Operation.Validate.{IsGet, IsList}

-- Only the text on stdout has grown.
pub record OnlyPrinted {World : Type 0} (s t : Session World) : Type 0 where
  pub system_same : t.system ≡ s.system
  pub user_same : t.user ≡ s.user
  pub performed_same : t.write_performed ≡ s.write_performed
  pub world_same : t.world ≡ s.world

abbrev pub IsRead : Operation → Type 0
IsRead op = IsGet op ⊎ IsList op

-- Of each section only the one that the mode writes may change.
pub record Isolated {World : Type 0} (mode : Mode) (s t : Session World) : Type 0 where
  pub system_kept : mode.system_write ≡ false → t.system ≡ s.system
  pub user_kept : (mode.system_write ≡ true) ⊎ (mode.user_write ≡ false) → t.user ≡ s.user
  pub performed_kept :
      mode.system_write ≡ false → mode.user_write ≡ false → t.write_performed ≡ s.write_performed

module _ {World : Type 0} (R : Runtime World) (mode : Mode) where
  execute-OnlyPrinted :
      (op : Operation) (s : Session World) → IsRead op → OnlyPrinted s (execute R mode op s).1
  unfolding execute exec_list exec_get
  execute-OnlyPrinted list s r = ground arith
  execute-OnlyPrinted (set key value) s r = ground arith
  execute-OnlyPrinted (get key) s r = ground arith
  execute-OnlyPrinted (del key) s r = ground arith

  execute-Isolated : (op : Operation) (s : Session World) → Isolated mode s (execute R mode op s).1
  unfolding execute exec_list exec_get exec_set exec_del
  execute-Isolated list s = ground arith
  execute-Isolated (set key value) s = ground arith
  execute-Isolated (get key) s = ground arith
  execute-Isolated (del key) s = ground arith

  -- Reads change no list, no flag and nothing outside, whatever they return.
  pub execute_all-OnlyPrinted :
      (ops : List Operation) (s : Session World)
      → All IsRead ops
      → OnlyPrinted s (execute_all R mode ops s).1
  unfolding execute_all
  execute_all-OnlyPrinted [] s r = ground arith
  execute_all-OnlyPrinted (op ∷ ops) s (r, rs) = elim (Io-cases (execute R mode op) s) [
    | inl (a, t, done) ↦
        rw (>>=-ok (execute R mode op) (λ _. execute_all R mode ops) s done) (
          grind
            (arith, (rw done at (execute-OnlyPrinted op s r)), execute_all-OnlyPrinted ops t rs))
    | inr (c, t, failed) ↦
        rw (>>=-err (execute R mode op) (λ _. execute_all R mode ops) s failed)
          (rw failed at (execute-OnlyPrinted op s r))
  ]

  -- A run changes the system list only in a mode that writes it, and the user list only in a mode
  -- that writes it and not the system list; in a mode that writes neither no write is
  -- noted.
  pub execute_all-Isolated :
      (ops : List Operation) (s : Session World) → Isolated mode s (execute_all R mode ops s).1
  unfolding execute_all
  execute_all-Isolated [] s = ground arith
  execute_all-Isolated (op ∷ ops) s = elim (Io-cases (execute R mode op) s) [
    | inl (a, t, done) ↦
        rw (>>=-ok (execute R mode op) (λ _. execute_all R mode ops) s done)
          (ground (arith, rw done at (execute-Isolated op s), execute_all-Isolated ops t))
    | inr (c, t, failed) ↦
        rw (>>=-err (execute R mode op) (λ _. execute_all R mode ops) s failed)
          (rw failed at (execute-Isolated op s))
  ]

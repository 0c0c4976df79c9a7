-- ===== src/Program/Saved.antt =====
-- What status 0 says of the section that a run writes.
use nvram.Base.{
  ℕ, ◌≡◌, ◌⊎◌, inl, inr, refl, sym, ◌∙◌, true, Option, some, none, List, ◌≢◌, arith, Bytes, ok, err,
  Lacks, All, if◌then◌else◌, Io-cases, Bool-cases,
}
use nvram.Entry.{Entries, Runtime, ListLaws}
use nvram.Format.{Format}
use nvram.Operation.{Mode, Operation, Session, execute_all}
use nvram.Operation.Failures.{SetHasErrors, execute_all-HasErrors}
use nvram.Operation.Store.{IsString, target, store, effects, execute_all-store}
use nvram.Operation.Unperformed.{execute_all-unperformed}
use nvram.Program.{commit_to, commit_changes, execute_operations}

-- The handle of the section that the mode writes.
abbrev pub handle : {Nvram : Type 0} → Mode → Option Nvram → Option Nvram → Option Nvram
handle mode system user = if mode.system_write then system else user

module _ {World : Type 0} (R : Runtime World) (F : Format World) (mode : Mode) where
  -- A list with the values that the operations give was committed.
  pub record Committed (ops : List Operation) (system user : Option F.Nvram) (s : Session World)
      (w : World) : Type 0 where
    pub nvram : F.Nvram
    pub nvram' : F.Nvram
    pub list : Entries
    pub before : World
    pub is_handle : handle mode system user ≡ some nvram
    pub commits : F.commit nvram list before ≡ (ok nvram', w)
    pub holds : (k : Bytes) → Lacks 0 k → store R list k ≡ effects ops (store R (target mode s)) k

  -- The section has the values that the operations give already.
  abbrev pub Unchanged : List Operation → Session World → Type 0
  Unchanged ops s =
      (k : Bytes) → Lacks 0 k → effects ops (store R (target mode s)) k ≡ store R (target mode s) k

  -- No failed call of the two that a write makes has the error number 0.
  pub record HasErrors : Type 0 where
    pub commit_fails : (n : F.Nvram) (l : Entries) (w w' : World) → F.commit n l w ≢ (err 0, w')
    pub set_fails : SetHasErrors R

  module _ (errors : HasErrors) where
    commit_to-ok :
        (h : Option F.Nvram) (l : Entries) (w : World)
        → (commit_to R F h l w).0.0 ≡ 0
        → (nvram : F.Nvram) × (nvram' : F.Nvram) × (h ≡ some nvram)
          × (F.commit nvram l w ≡ (ok nvram', (commit_to R F h l w).1))
    unfolding commit_to
    commit_to-ok none l w z = ground arith
    commit_to-ok (some nvram) l w z = elim (Io-cases (F.commit nvram l) w) [
      | inl (nvram', w', e) ↦ (nvram, nvram', refl, ground (arith, e))
      | inr (c, w', e) ↦ ground (arith, e, errors.commit_fails nvram l w w')
    ]

    commit_changes-ok :
        (system user : Option F.Nvram) (t : Session World)
        → (mode.system_write ≡ true) ⊎ (mode.user_write ≡ true)
        → t.write_performed ≡ true
        → (commit_changes R F mode system user t).status ≡ 0
        → (nvram : F.Nvram) × (nvram' : F.Nvram) × (handle mode system user ≡ some nvram)
          × (F.commit nvram (target mode t) t.world
              ≡ (ok nvram', (commit_changes R F mode system user t).world))
    unfolding commit_changes
    commit_changes-ok system user t writes p h = elim (Bool-cases mode.system_write) [
      | inl sys ↦ rw (p, sys) (commit_to-ok system t.system t.world (rw (p, sys) at h))
      | inr no_sys ↦
          let usr : mode.user_write ≡ true = ground (arith, writes, no_sys) in
          rw (p, no_sys, usr) (commit_to-ok user t.user t.world (rw (p, no_sys, usr) at h))
    ]

    execute_operations-ok :
        (ops : List Operation) (system user : Option F.Nvram) (s : Session World)
        {t : Session World}
        → execute_all R mode ops s ≡ (ok tt, t)
        → execute_operations R F mode ops system user s ≡ commit_changes R F mode system user t
    unfolding execute_operations
    execute_operations-ok ops system user s e = ground (arith, e)

    execute_operations-err :
        (ops : List Operation) (system user : Option F.Nvram) (s : Session World) {c : ℕ}
        {t : Session World}
        → execute_all R mode ops s ≡ (err c, t)
        → (execute_operations R F mode ops system user s).status ≡ c
    unfolding execute_operations
    execute_operations-err ops system user s e = ground (arith, e)

    module _ (laws : ListLaws R)
        (writes : (mode.system_write ≡ true) ⊎ (mode.user_write ≡ true)) where
      -- Where the loop returns 0.
      executed :
          (ops : List Operation) (system user : Option F.Nvram) (s : Session World)
          {t : Session World}
          → All IsString ops
          → execute_all R mode ops s ≡ (ok tt, t)
          → (commit_changes R F mode system user t).status ≡ 0
          → Committed ops system user s (commit_changes R F mode system user t).world
            ⊎ Unchanged ops s
      executed ops system user s {t} i e h = elim (Bool-cases t.write_performed) [
        | inl p ↦
            let (nvram, nvram', handled, c) = commit_changes-ok system user t writes p h in
            inl (record {
              nvram = nvram;
              nvram' = nvram';
              list = target mode t;
              before = t.world;
              is_handle = handled;
              commits = c;
              holds = execute_all-store R laws mode writes ops s i e;
            })
        | inr n ↦ inr λ k l.
            sym (execute_all-store R laws mode writes ops s i e k l)
            ∙ (execute_all-unperformed R laws mode writes ops s k e n).1
      ]

      -- Where the list calls keep their laws, no failed call has the error number 0, the mode writes
      -- a section and the keys are C strings, a run with status 0 has committed to that section, as its last act, a list with
      -- the values that the operations give, or the section has these values already.
      pub execute_operations-Saved :
          (ops : List Operation) (system user : Option F.Nvram) (s : Session World)
          → All IsString ops
          → (execute_operations R F mode ops system user s).status ≡ 0
          → Committed ops system user s (execute_operations R F mode ops system user s).world
            ⊎ Unchanged ops s
      execute_operations-Saved ops system user s i h = elim (Io-cases (execute_all R mode ops) s) [
        | inl (_, t, e) ↦
            rw (execute_operations-ok ops system user s e)
              (executed ops system user s i e (rw (execute_operations-ok ops system user s e) at h))
        | inr (c, t, e) ↦
            let zero_code : c ≡ 0 = sym (execute_operations-err ops system user s e) ∙ h in
            elim (execute_all-HasErrors R mode errors.set_fails ops s t (rw zero_code at e)) [ ]
      ]

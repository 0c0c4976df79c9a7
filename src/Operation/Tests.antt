-- ===== src/Operation/Tests.antt =====
-- Runs of the operations, and their theorems at concrete data.
use nvram.Base.{
  ◌≡◌, ◌↔◌, inl, inr, refl, true, false, none, some, List, [], ◌∷◌, arith, Bytes, codes, ok, err,
  eacces, einval, All, terminated, same, Result,
}
use nvram.Entry.{Entry}
use nvram.Samples.{Sections, runtime, runtime-ListLaws}
use nvram.Operation.{
  Settings, Mode, Operation, list, set, get, del, Session, validate_operations, validate_from,
  validate, validate_set, validate_del, check_types, system_unlocked, sysprefix_enforced,
  starts_with_sysprefix, execute_all, execute, exec_set, exec_del, exec_get, exec_list,
  add_list_entry, remove_list_entry,
}
use nvram.Operation.Validate.{Allowed, Unmixed, validate_operations_iff}
use nvram.Operation.Frame.{OnlyPrinted, Isolated, execute_all-OnlyPrinted, execute_all-Isolated}
use nvram.Operation.Store.{IsString, store, effects, target, execute_all-store}
use nvram.Operation.Unperformed.{execute_all-unperformed}

abbrev locked : Settings
locked = record { system_prefix = codes "SYS_"; getenv = λ _. none }

abbrev unlocked : Settings
unlocked = record { system_prefix = codes "SYS_"; getenv = λ _. some (codes "16440") }

abbrev system_mode : Mode
system_mode = record {
  user_read = false;
  user_write = false;
  system_read = true;
  system_write = true;
}

abbrev user_mode : Mode
user_mode = record {
  user_read = true;
  user_write = true;
  system_read = false;
  system_write = false;
}

abbrev entry : Bytes → Bytes → Entry
entry k v = record { key = terminated k; value = terminated v }

abbrev session : Session Sections
session = record {
  system = entry (codes "SYS_id") (codes "7") ∷ [];
  user = entry (codes "a") (codes "1") ∷ [];
  write_performed = false;
  out = [];
  world = λ _. [];
}

abbrev writes : List Operation
writes = set (codes "b") (codes "2") ∷ del (codes "a") ∷ []

abbrev reads : List Operation
reads = get (codes "a") ∷ list ∷ []

-- A write that changes nothing.
abbrev idle : List Operation
idle = set (codes "a") (codes "1") ∷ del (codes "c") ∷ []

validated :
    (validate_operations locked system_mode (set (codes "SYS_x") (codes "1") ∷ []) ≡ err eacces)
    × (validate_operations unlocked system_mode (set (codes "x") (codes "1") ∷ []) ≡ err einval)
    × (validate_operations unlocked user_mode (set (codes "SYS_x") (codes "1") ∷ []) ≡ err einval)
    × (validate_operations unlocked user_mode (list ∷ get (codes "a") ∷ []) ≡ err einval)
unfolding validate_operations validate_from validate validate_set validate_del check_types
    system_unlocked sysprefix_enforced starts_with_sysprefix same
validated = (refl, refl, refl, refl)

run : List Operation → Result (Unit {0}) × Session Sections
unfolding execute_all execute exec_set exec_del exec_get exec_list add_list_entry remove_list_entry
    same
run ops = execute_all runtime user_mode ops session

written : (run writes).1.user ≡ entry (codes "b") (codes "2") ∷ []
unfolding run
written = refl

writes-IsString : All IsString writes
writes-IsString = (omega arith, (omega arith, tt))

validate_operations_iff_example :
    (validate_operations unlocked system_mode writes ≡ ok tt)
    ↔ (All (Allowed unlocked system_mode) writes × Unmixed writes)
validate_operations_iff_example = validate_operations_iff unlocked system_mode writes

execute_all-OnlyPrinted_example :
    OnlyPrinted session (execute_all runtime user_mode reads session).1
execute_all-OnlyPrinted_example =
    execute_all-OnlyPrinted runtime user_mode reads session (inl tt, (inr tt, tt))

execute_all-Isolated_example :
    Isolated system_mode session (execute_all runtime system_mode writes session).1
execute_all-Isolated_example = execute_all-Isolated runtime system_mode writes session

execute_all-store_example :
    store {World = Sections} runtime (target user_mode (run writes).1) (codes "b")
    ≡ effects writes (store {World = Sections} runtime (target user_mode session)) (codes "b")
unfolding run
execute_all-store_example =
    execute_all-store {World = Sections} runtime runtime-ListLaws user_mode (inr refl) writes
      session writes-IsString refl (codes "b") (omega arith)

execute_all-unperformed_example :
    (session.write_performed ≡ false)
    × (store {World = Sections} runtime (target user_mode (run idle).1) (codes "a")
        ≡ store {World = Sections} runtime (target user_mode session) (codes "a"))
unfolding run
execute_all-unperformed_example =
    execute_all-unperformed runtime runtime-ListLaws user_mode (inr refl) idle session (codes "a")
      refl refl

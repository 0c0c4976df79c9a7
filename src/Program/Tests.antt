-- ===== src/Program/Tests.antt =====
-- Runs of the program, and its theorems at concrete data.
use nvram.Base.{
  ◌⊎◌, inr, refl, false, none, some, List, [], ◌∷◌, arith, Bytes, codes, ok, All, terminated, same,
}
use nvram.Format.{Format}
use nvram.Samples.{Sections, runtime, runtime-ListLaws}
use nvram.Operation.{
  Operation, set, del, Session, execute_all, execute, exec_set, exec_del, add_list_entry,
  remove_list_entry,
}
use nvram.Operation.Store.{IsString}
use nvram.Program.{execute_operations, commit_changes, commit_to}
use nvram.Program.Saved.{HasErrors, Committed, Unchanged, execute_operations-Saved}
use nvram.Program.Args.{user_mode}

abbrev world : Sections
world = λ _. []

-- A format that keeps nothing.
abbrev format : Format Sections
format = record {
  Nvram = Bytes;
  init = λ a b l w. (ok ([], l), w);
  commit = λ n l w. (ok n, w);
  close = λ n w. w;
}

format-HasErrors : HasErrors runtime format user_mode
format-HasErrors = record { commit_fails = λ n l w w' h. cc; set_fails = λ l e w w' h. cc }

abbrev session : Session Sections
session = record {
  system = [];
  user = record { key = terminated (codes "a"); value = terminated (codes "1") } ∷ [];
  write_performed = false;
  out = [];
  world = world;
}

abbrev writes : List Operation
writes = set (codes "b") (codes "2") ∷ del (codes "a") ∷ []

writes-IsString : All IsString writes
writes-IsString = (omega arith, (omega arith, tt))

execute_operations-Saved_example :
    Committed runtime format user_mode writes none
      (some [])
      session
      (execute_operations runtime format user_mode writes none (some []) session).world
    ⊎ Unchanged runtime format user_mode writes session
unfolding execute_operations commit_changes commit_to execute_all execute exec_set exec_del
    add_list_entry remove_list_entry same
execute_operations-Saved_example =
    execute_operations-Saved runtime format user_mode format-HasErrors runtime-ListLaws (inr refl)
      writes none (some []) session writes-IsString refl

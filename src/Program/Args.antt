-- ===== src/Program/Args.antt =====
-- The command line, the argument loop of `main` in main.c.
pub mod Modes
pub mod CommandLine
mod Tests
use nvram.Base.{
  ℕ, zero, suc, Bool, true, false, ◌||◌, Option, none, some, List, [], ◌∷◌, ◌++◌, Bytes, codes,
  same, if◌then◌else◌, Result, ok, err, Io, pure, fail, ◌>>=◌, ◌>>◌, einval,
}
use nvram.Entry.{Runtime, allocate}
use nvram.Operation.{Mode, Operation, list, set, get, del}

-- What the loop fills in: `opts` and the overrides.
pub record Options : Type 0 where
  pub mode : Mode
  pub operations : List Operation
  pub interface_override : Option Bytes
  pub format_override : Option Bytes
  pub user_a_override : Option Bytes
  pub user_b_override : Option Bytes
  pub system_a_override : Option Bytes
  pub system_b_override : Option Bytes

abbrev pub default_mode : Mode
default_mode = record {
  user_read = true;
  user_write = true;
  system_read = true;
  system_write = false;
}

abbrev pub sys_mode : Mode
sys_mode = record { user_read = false; user_write = false; system_read = true; system_write = true }

abbrev pub user_mode : Mode
user_mode = record {
  user_read = true;
  user_write = true;
  system_read = false;
  system_write = false;
}

abbrev pub no_options : Options
no_options = record {
  mode = default_mode;
  operations = [];
  interface_override = none;
  format_override = none;
  user_a_override = none;
  user_b_override = none;
  system_a_override = none;
  system_b_override = none;
}

-- The branches of the loop.
pub data Arg : Type 0 where
  set_arg get_arg list_arg del_arg sys_arg user_arg help_arg unknown_arg : Arg
  format_arg interface_arg user_a_arg user_b_arg sys_a_arg sys_b_arg : Arg

-- `!strcmp(a, arg) || !strcmp(b, arg)`
abbrev either : Bytes → Bytes → Bytes → Bool
either a b arg = same a arg || same b arg

unfoldable pub classify : Bytes → Arg
classify a =
    if either (codes "--set") (codes "set") a
    then set_arg
    else if either (codes "--get") (codes "get") a
    then get_arg
    else if either (codes "--list") (codes "list") a
    then list_arg
    else if either (codes "--del") (codes "delete") a
    then del_arg
    else if same (codes "--sys") a
    then sys_arg
    else if same (codes "--user") a
    then user_arg
    else if either (codes "-h") (codes "--help") a
    then help_arg
    else if either (codes "-f") (codes "--format") a
    then format_arg
    else if either (codes "-i") (codes "--interface") a
    then interface_arg
    else if same (codes "--user_a") a
    then user_a_arg
    else if same (codes "--user_b") a
    then user_b_arg
    else if same (codes "--sys_a") a
    then sys_a_arg
    else if same (codes "--sys_b") a
    then sys_b_arg
    else unknown_arg

-- How many of the arguments behind it a branch takes.
abbrev pub taken : Arg → ℕ
taken set_arg = 2
taken list_arg = 0
taken sys_arg = 0
taken user_arg = 0
taken help_arg = 0
taken unknown_arg = 0
taken _ = 1

-- `sizeof(struct operation)`
abbrev operation_size : ℕ
operation_size = 48

-- The argument behind, or -EINVAL.
with_value : {World : Type 0} → List Bytes → (Bytes → Io World Options) → Io World Options
with_value [] f = fail einval
with_value (v ∷ _) f = f v

module _ {World : Type 0} (R : Runtime World) where
  pub add_operation : Operation → Options → Io World Options
  add_operation op o = do
    allocate R operation_size
    pure (record o { operations = o.operations ++ op ∷ [] })

  -- `set` wants two arguments behind it.
  add_set : List Bytes → Options → Io World Options
  unfolding add_operation
  add_set (k ∷ v ∷ _) o = add_operation (set k v) o
  add_set _ o = fail einval

  -- One round of the loop, on the arguments behind the current one.
  unfoldable pub step : Arg → List Bytes → Options → Io World Options
  unfolding add_operation add_set with_value
  step set_arg rest o = add_set rest o
  step get_arg rest o = with_value rest λ v. add_operation (get v) o
  step list_arg rest o = add_operation list o
  step del_arg rest o = with_value rest λ v. add_operation (del v) o
  step sys_arg rest o = pure (record o { mode = sys_mode })
  step user_arg rest o = pure (record o { mode = user_mode })
  step help_arg rest o = fail einval
  step format_arg rest o = with_value rest λ v. pure (record o { format_override = some v })
  step interface_arg rest o = with_value rest λ v. pure (record o { interface_override = some v })
  step user_a_arg rest o = with_value rest λ v. pure (record o { user_a_override = some v })
  step user_b_arg rest o = with_value rest λ v. pure (record o { user_b_override = some v })
  step sys_a_arg rest o = with_value rest λ v. pure (record o { system_a_override = some v })
  step sys_b_arg rest o = with_value rest λ v. pure (record o { system_b_override = some v })
  step unknown_arg rest o = fail einval

  -- The loop, after a number of arguments that `i` is still to pass over.
  parse_from : ℕ → List Bytes → Options → Io World Options
  unfolding step classify
  parse_from skip [] o = pure o
  parse_from zero (a ∷ rest) o = do
    o' ← step (classify a) rest o
    parse_from (taken (classify a)) rest o'
  parse_from (suc skip) (_ ∷ rest) o = parse_from skip rest o

  -- A command line with no operation lists.
  default_operation : Options → Io World Options
  unfolding add_operation
  default_operation o = elim o.operations [ [] ↦ add_operation list o | _ ↦ pure o ]

  pub parse_args : List Bytes → Io World Options
  unfolding parse_from default_operation
  parse_args argv = do o ← parse_from 0 argv no_options; default_operation o

-- ===== src/Operation.antt =====
-- The operations of the command line on the two lists, main.c: `struct operation` and its
-- `validate` and `execute` functions.
pub mod Print
pub mod Validate
pub mod Frame
pub mod Store
pub mod Unperformed
pub mod Failures
mod Tests
use nvram.Base.{
  ℕ, ◌+◌, Bool, true, false, ◌&&◌, ◌||◌, not, Option, none, some, List, [], ◌∷◌, ◌++◌, ltb, ◌==◌,
  if◌then◌else◌, length, take, Bytes, codes, same, terminated, Result, ok, err, Io, pure, fail,
  ◌>>=◌, ◌>>◌, require, einval, eacces, enoent, enomem,
}
use nvram.Entry.{Entry, Entries, Runtime, allocate}
use nvram.Operation.Print.{print_list, print_list_entry}

-- What is fixed when the program is built or started: NVRAM_SYSTEM_PREFIX, and the environment.
pub record Settings : Type 0 where
  pub system_prefix : Bytes
  pub getenv : Bytes → Option Bytes

abbrev pub env_system_unlock : Bytes
env_system_unlock = codes "NVRAM_SYSTEM_UNLOCK"

abbrev pub system_unlock_magic : Bytes
system_unlock_magic = codes "16440"

abbrev pub is_value : Option Bytes → Bytes → Bool
is_value none v = false
is_value (some s) v = same s v

unfoldable pub system_unlocked : Settings → Bool
system_unlocked s = is_value (s.getenv env_system_unlock) system_unlock_magic

unfoldable pub sysprefix_enforced : Settings → Bool
sysprefix_enforced s = ltb 0 (length s.system_prefix)

unfoldable pub starts_with_sysprefix : Settings → Bytes → Bool
starts_with_sysprefix s str =
    let prefix_len = length s.system_prefix in
    if ltb prefix_len (length str) then same (take prefix_len str) s.system_prefix else false

-- `enum mode`, by its bits.
pub record Mode : Type 0 where
  pub user_read : Bool
  pub user_write : Bool
  pub system_read : Bool
  pub system_write : Bool

-- `struct operation` with the functions that `add_operation` gives it; keys and values are C
-- strings.
pub data Operation : Type 0 where
  list : Operation
  set : Bytes → Bytes → Operation
  get : Bytes → Operation
  del : Bytes → Operation

-- The bits of `enum op` that have been found.
pub record OpTypes : Type 0 where
  pub list : Bool
  pub set : Bool
  pub get : Bool
  pub del : Bool

abbrev pub no_types : OpTypes
no_types = record { list = false; set = false; get = false; del = false }

-- `found_op_types |= it->op`
abbrev pub add_type : Operation → OpTypes → OpTypes
add_type list f = record f { list = true }
add_type (set _ _) f = record f { set = true }
add_type (get _) f = record f { get = true }
add_type (del _) f = record f { del = true }

validate_set : Settings → Bytes → Mode → Result (Unit {0})
unfolding sysprefix_enforced starts_with_sysprefix system_unlocked
validate_set s key mode =
    if mode.system_write && (sysprefix_enforced s && not (starts_with_sysprefix s key))
    then err einval
    else if mode.system_write && not (system_unlocked s)
    then err eacces
    else if mode.user_write && (sysprefix_enforced s && starts_with_sysprefix s key)
    then err einval
    else ok tt

validate_del : Settings → Mode → Result (Unit {0})
unfolding system_unlocked
validate_del s mode = if mode.system_write && not (system_unlocked s) then err eacces else ok tt

-- `operation->validate`, which is NULL for `list` and `get`.
pub validate : Settings → Mode → Operation → Result (Unit {0})
unfolding validate_set validate_del
validate s mode list = ok tt
validate s mode (set key value) = validate_set s key mode
validate s mode (get key) = ok tt
validate s mode (del key) = validate_del s mode

-- The tests behind the loop.
check_types : OpTypes → Result (Unit {0})
check_types f =
    if (f.get || f.list) && (f.set || f.del)
    then err einval
    else if f.list && f.get
    then err einval
    else ok tt

validate_from : Settings → Mode → List Operation → OpTypes → Result (Unit {0})
unfolding validate check_types
validate_from s mode [] found = check_types found
validate_from s mode (op ∷ ops) found = elim (validate s mode op) [
  | err c ↦ err c
  | ok _ ↦ validate_from s mode ops (add_type op found)
]

unfoldable pub validate_operations : Settings → Mode → List Operation → Result (Unit {0})
unfolding validate_from
validate_operations s mode ops = validate_from s mode ops no_types

-- What the `execute` functions act on: the two lists, `write_performed`, and what has been printed.
pub record Session (World : Type 0) : Type 0 where
  pub system : Entries
  pub user : Entries
  pub write_performed : Bool
  pub out : Bytes
  pub world : World

-- `keycmp(...) == 0` on the value of an entry that was looked up.
abbrev has_value : Option Entry → Bytes → Bool
has_value none value = false
has_value (some entry) value = same entry.value value

module _ {World : Type 0} (R : Runtime World) where
  -- Whether the entry was added (1) or is there already (0), and the list.
  unfoldable pub add_list_entry : Entries → Bytes → Bytes → Io World (Bool × Entries)
  add_list_entry l key value =
      if has_value (R.list_get l (terminated key)) (terminated value) then pure (false, l) else (do
        l' ← R.list_set l (record { key = terminated key; value = terminated value })
        pure (true, l'))

  -- Whether an entry was removed, and the list.
  unfoldable pub remove_list_entry : Entries → Bytes → World → (Bool × Entries) × World
  remove_list_entry l key = R.list_remove l (terminated key)

  abbrev print_out : Bytes → Session World → Session World
  print_out text s = record s { out = s.out ++ text }

  unfoldable pub exec_list : Mode → Io (Session World) (Unit {0})
  exec_list mode s =
      let s₁ = if mode.system_read then print_out (print_list s.system) s else s in
      let s₂ = if mode.user_read then print_out (print_list s.user) s₁ else s₁ in (ok tt, s₂)

  -- `if (r == 1) *write_performed = 1`
  abbrev performed : Bool → Bool → Bool
  performed done before = if done then true else before

  unfoldable pub exec_set : Mode → Bytes → Bytes → Io (Session World) (Unit {0})
  unfolding add_list_entry
  exec_set mode key value s =
      if mode.system_write
      then (let (r, w) = add_list_entry s.system key value s.world in
          elim r [
            | err c ↦ (err c, record s { world = w })
            | ok (done, l) ↦ (
              ok tt,
              record s {
                system = l;
                write_performed = performed done s.write_performed;
                world = w;
              },
            )
          ])
      else if mode.user_write
      then (let (r, w) = add_list_entry s.user key value s.world in
          elim r [
            | err c ↦ (err c, record s { world = w })
            | ok (done, l) ↦ (
              ok tt,
              record s { user = l; write_performed = performed done s.write_performed; world = w },
            )
          ])
      else (err einval, s)

  -- The first of the lists that may be read and gives the key.
  unfoldable pub exec_get : Mode → Bytes → Io (Session World) (Unit {0})
  exec_get mode key s =
      let from_system = if mode.system_read then print_list_entry R s.system key else err enoent in
      elim from_system [
        | ok text ↦ (ok tt, print_out text s)
        | err c ↦ elim (if mode.user_read then print_list_entry R s.user key else err c) [
          | ok text ↦ (ok tt, print_out text s)
          | err d ↦ (err d, s)
        ]
      ]

  -- A deletion returns 0, also where no list may be written.
  unfoldable pub exec_del : Mode → Bytes → Io (Session World) (Unit {0})
  unfolding remove_list_entry
  exec_del mode key s =
      if mode.system_write
      then (let ((done, l), w) = remove_list_entry s.system key s.world in
          (
            ok tt,
            record s { system = l; write_performed = performed done s.write_performed; world = w },
          ))
      else if mode.user_write
      then (let ((done, l), w) = remove_list_entry s.user key s.world in
          (
            ok tt,
            record s { user = l; write_performed = performed done s.write_performed; world = w },
          ))
      else (ok tt, s)

  -- `operation->execute`
  unfoldable pub execute : Mode → Operation → Io (Session World) (Unit {0})
  unfolding exec_list exec_set exec_get exec_del
  execute mode list = exec_list mode
  execute mode (set key value) = exec_set mode key value
  execute mode (get key) = exec_get mode key
  execute mode (del key) = exec_del mode key

  -- The loop of `execute_operations`.
  unfoldable pub execute_all : Mode → List Operation → Io (Session World) (Unit {0})
  unfolding execute
  execute_all mode [] = pure tt
  execute_all mode (op ∷ ops) = execute mode op >> execute_all mode ops

-- ===== src/Program.antt =====
-- `execute_operations` and `main` of main.c.
pub mod Args
pub mod Saved
mod Tests
use nvram.Base.{
  ℕ, Bool, true, false, ◌||◌, not, Option, none, some, List, [], ◌∷◌, Bytes, codes, Result, ok, err,
  Io, pure, ◌>>=◌, ◌==◌, if◌then◌else◌, einval,
}
use nvram.Entry.{Entries, Runtime}
use nvram.Device.{Device}
use nvram.Format.{Format}
use nvram.Registry.{
  Section, system_a, system_b, user_a, user_b, InterfaceDesc, FormatDesc, get_env_str,
  nvram_get_interface, nvram_get_interface_section, nvram_get_format,
}
use nvram.Lock.{LockCalls, acquire_lockfile, release_lockfile}
use nvram.Operation.{Settings, Mode, Operation, Session, validate_operations, execute_all}
use nvram.Program.Args.{Options, parse_args}

-- What a run has left: the status (0, or the error number that is returned negated), the text on
-- stdout, and the `struct nvram` of each section that was initialized.
pub record Outcome (World Nvram : Type 0) : Type 0 where
  pub status : ℕ
  pub out : Bytes
  pub system : Option Nvram
  pub user : Option Nvram
  pub world : World

-- EFAULT stands for a commit through a NULL `struct nvram`, which crashes.
abbrev pub efault : ℕ
efault = 14

abbrev pub code : {A : Type 0} → Result A → ℕ
code (ok _) = 0
code (err c) = c

abbrev pub lockfile : Bytes
lockfile = codes "/run/lock/nvram.lock"

module _ {World : Type 0} (R : Runtime World) where
  module _ (F : Format World) where
    -- The new `struct nvram` after a commit, or the old one where it failed.
    commit_to : Option F.Nvram → Entries → World → (ℕ × Option F.Nvram) × World
    commit_to none list w = ((efault, none), w)
    commit_to (some nvram) list w =
        let (r, w') = F.commit nvram list w in
        (elim r [ ok nvram' ↦ (0, some nvram') | err c ↦ (c, some nvram) ], w')

    -- The commit behind the loop.
    commit_changes : Mode → Option F.Nvram → Option F.Nvram → Session World → Outcome World F.Nvram
    unfolding commit_to
    commit_changes mode system user s =
        if not s.write_performed
        then record { status = 0; out = s.out; system = system; user = user; world = s.world }
        else if mode.system_write
        then (let ((c, nvram), w) = commit_to system s.system s.world in
            record { status = c; out = s.out; system = nvram; user = user; world = w })
        else if mode.user_write
        then (let ((c, nvram), w) = commit_to user s.user s.world in
            record { status = c; out = s.out; system = system; user = nvram; world = w })
        else record { status = 0; out = s.out; system = system; user = user; world = s.world }

    pub execute_operations :
        Mode
        → List Operation
        → Option F.Nvram
        → Option F.Nvram
        → Session World
        → Outcome World F.Nvram
    unfolding commit_changes
    execute_operations mode ops system user s =
        let (r, t) = execute_all R mode ops s in
        elim r [
          | ok _ ↦ commit_changes mode system user t
          | err c ↦ record {
            status = c;
            out = t.out;
            system = system;
            user = user;
            world = t.world;
          }
        ]

    -- A section is initialized if the mode reads or writes it.
    init_section : Bool → Option Bytes → Option Bytes → Io World (Option F.Nvram × Entries)
    init_section wanted a b =
        if wanted
        then (do (nvram, list) ← F.init a b []; pure (some nvram, list))
        else pure (none, [])

    -- From the lock to the label `exit`.
    pub run_locked :
        Mode → List Operation → (Section → Option Bytes) → World → Outcome World F.Nvram
    unfolding init_section execute_operations
    run_locked mode ops path w =
        let (r, w₁) =
          init_section (mode.system_write || mode.system_read) (path system_a) (path system_b) w in
        elim r [
          | err c ↦ record { status = c; out = []; system = none; user = none; world = w₁ }
          | ok (system, list_system) ↦
              let (q, w₂) =
                init_section (mode.user_write || mode.user_read) (path user_a) (path user_b) w₁ in
              elim q [
                | err c ↦ record { status = c; out = []; system = system; user = none; world = w₂ }
                | ok (user, list_user) ↦ execute_operations mode ops system user (record {
                  system = list_system;
                  user = list_user;
                  write_performed = false;
                  out = [];
                  world = w₂;
                })
              ]
        ]

    close_nvram : Option F.Nvram → World → World
    close_nvram none w = w
    close_nvram (some nvram) w = F.close nvram w

    -- From the label `exit`, where the lock is held.
    leave : LockCalls World → ℕ → Outcome World F.Nvram → (ℕ × Bytes) × World
    unfolding close_nvram
    leave C fd o =
        let (r, w) = release_lockfile C lockfile (some fd) o.world in
        (
          (if o.status == 0 then code r else o.status, o.out),
          close_nvram o.user (close_nvram o.system w),
        )

  -- What is fixed when the program is built or started.
  pub record Build : Type 1 where
    pub settings : Settings
    pub interface_default : Bytes
    pub format_default : Bytes
    pub interfaces : List (InterfaceDesc World)
    pub formats : List (FormatDesc World)
    pub calls : LockCalls World

  abbrev chosen : Option Bytes → Bytes → Bytes
  chosen (some o) selected = o
  chosen none selected = selected

  -- The override of a section, or what the table gives.
  abbrev overridden : Option Bytes → Option Bytes → Option Bytes
  overridden (some o) path = some o
  overridden none path = path

  abbrev section_override : Options → Section → Option Bytes
  section_override o system_a = o.system_a_override
  section_override o system_b = o.system_b_override
  section_override o user_a = o.user_a_override
  section_override o user_b = o.user_b_override

  module _ (B : Build) where
    open B use {settings, interface_default, format_default, interfaces, formats, calls}

    abbrev interface_name : Options → Bytes
    unfolding get_env_str
    interface_name o =
        chosen o.interface_override
          (get_env_str settings.getenv (codes "NVRAM_INTERFACE") interface_default)

    abbrev format_name : Options → Bytes
    unfolding get_env_str
    format_name o =
        chosen o.format_override (get_env_str settings.getenv (codes "NVRAM_FORMAT") format_default)

    section_path : Options → Section → Option Bytes
    section_path o s =
        overridden (section_override o s)
          (nvram_get_interface_section settings.getenv interfaces (interface_name o) s)

    -- Where no lock is got, `r` still holds the 0 of the validation.
    run_with : Format World → Options → World → (ℕ × Bytes) × World
    unfolding section_path run_locked leave
    run_with F o w = elim (validate_operations settings o.mode o.operations) [
      | err c ↦ ((c, []), w)
      | ok _ ↦
          let (q, w') = acquire_lockfile calls lockfile w in
          elim q [
            | err c ↦ ((0, []), w')
            | ok fd ↦ leave F calls fd (run_locked F o.mode o.operations (section_path o) w')
          ]
    ]

    run_options : Options → World → (ℕ × Bytes) × World
    unfolding run_with
    run_options o w = elim (nvram_get_interface interfaces (interface_name o)) [
      | none ↦ ((einval, []), w)
      | some D ↦ elim (nvram_get_format formats (format_name o)) [
        | none ↦ ((einval, []), w)
        | some format ↦ run_with (format D) o w
      ]
    ]

    -- The exit status and the text on stdout.
    pub main : List Bytes → World → (ℕ × Bytes) × World
    unfolding run_options
    main argv w =
        let (r, w') = parse_args R argv w in
        elim r [ err c ↦ ((c, []), w') | ok o ↦ run_options o w' ]

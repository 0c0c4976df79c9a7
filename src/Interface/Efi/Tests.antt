-- ===== src/Interface/Efi/Tests.antt =====
-- The EFI interface at a concrete variable.
use nvram.Base.{
  some, none, [], ◌∙◌, arith, Keeps, [], suc, ◌≡◌, ◌⊎◌, refl, false, Bytes, codes, ok, err, enomem,
}
use nvram.Entry.{Runtime}
use nvram.Samples.{runtime, runtime-ListLaws}
use nvram.Legacy.{legacy_init, legacy_commit}
use nvram.Legacy.Commit.{legacy_commit-rows}
use nvram.Legacy.Storage.{Filled}
use nvram.Legacy.Sample.{settings, settings-IsHighting, settings-IsPlain, rows-settings}
use nvram.Interface.Efi.Restart.{legacy_efi_restart}
use nvram.Posix.{write_create, write_all, closing}
use nvram.Posix.Descriptors.{Counted}
use nvram.Interface.Machine.{Machine, posix, posix-Counted, posix-Files}
use nvram.Interface.Efi.{
  nvram_efi_interface, efi_size, efi_read, efi_write, unprotect, open_and_write, write_open,
  write_behind, set_immutable,
}
use nvram.Interface.Efi.Restore.{efi_read-efi_write, Variable}
use nvram.Interface.Efi.Descriptors.{efi_write-Keeps, efi_read_leaks}

abbrev machine : Machine
machine = record { files = λ path. codes "old"; table = λ fd. []; count = 3 }

abbrev path : Bytes
path = codes "user_a"

abbrev contents : Bytes
contents = codes "a=1\n"

after_efi : Machine
unfolding efi_write unprotect open_and_write write_open write_behind set_immutable closing write_all
after_efi = (efi_write runtime posix path contents machine).1

efi_read-efi_write_example :
    ((u : Machine) × (efi_size runtime posix path after_efi ≡ (ok 4, u))
      × Variable runtime posix (posix-Files write_create) path contents u)
    × (((u : Machine) × (efi_read runtime posix path 3 after_efi ≡ (ok (codes "a=1"), u))
          × Variable runtime posix (posix-Files write_create) path contents u)
        ⊎ ((u : Machine) × (efi_read runtime posix path 3 after_efi ≡ (err enomem, u))))
unfolding after_efi
efi_read-efi_write_example =
    efi_read-efi_write runtime posix (posix-Files write_create) path contents 3 machine after_efi
      (ground arith) refl

efi_write-Keeps_example : Keeps posix-Counted.count (efi_write runtime posix path contents)
efi_write-Keeps_example = efi_write-Keeps posix-Counted path contents

-- An allocator that always fails.
abbrev exhausted : Runtime Machine
exhausted = record runtime { malloc = λ n w. (false, w) }

abbrev exhausted-Counted : Counted exhausted posix
exhausted-Counted = record {
  count = posix-Counted.count;
  count-open_ok = posix-Counted.count-open_ok;
  count-open_err = posix-Counted.count-open_err;
  count-close = posix-Counted.count-close;
  count-stat = posix-Counted.count-stat;
  count-read = posix-Counted.count-read;
  count-write = posix-Counted.count-write;
  count-block_size = posix-Counted.count-block_size;
  count-erase = posix-Counted.count-erase;
  count-get_flags = posix-Counted.count-get_flags;
  count-set_flags = posix-Counted.count-set_flags;
  count-malloc = λ n w. refl;
}

efi_read_leaks_example :
    ((efi_read exhausted posix path 4 machine).0 ≡ err enomem)
    × (exhausted-Counted.count (efi_read exhausted posix path 4 machine).1
        ≡ suc (exhausted-Counted.count machine))
efi_read_leaks_example = efi_read_leaks exhausted-Counted path 4 3 machine _ refl refl

-- What the rows of the settings leave.
after_rows : Machine
unfolding efi_write unprotect open_and_write write_open write_behind set_immutable closing write_all
after_rows = (efi_write runtime posix path (codes "a=1\nb=22\na=3\n") machine).1

committed :
    legacy_commit runtime (nvram_efi_interface runtime posix) path settings machine
    ≡ (ok path, after_rows)
unfolding after_rows
committed =
    legacy_commit-rows runtime (nvram_efi_interface runtime posix) path settings machine
      settings-IsPlain
    ∙ rw rows-settings refl

legacy_efi_restart_example :
    Filled runtime
      (λ r. r.1)
      settings
      (legacy_init runtime (nvram_efi_interface runtime posix) (some path) none [] after_rows)
legacy_efi_restart_example =
    legacy_efi_restart runtime runtime-ListLaws posix (posix-Files write_create) path path settings
      machine after_rows settings-IsHighting (ground arith) committed

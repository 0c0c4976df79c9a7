-- ===== src/Interface/File/Tests.antt =====
-- The file interface at a concrete file.
use nvram.Base.{some, none, [], ◌∙◌, arith, Keeps, [], ◌≡◌, refl, Bytes, codes, ok}
use nvram.Samples.{runtime, runtime-ListLaws}
use nvram.Legacy.{legacy_init, legacy_commit}
use nvram.Legacy.Commit.{legacy_commit-rows}
use nvram.Legacy.Storage.{Filled}
use nvram.Legacy.Sample.{settings, settings-IsHighting, settings-IsPlain, rows-settings}
use nvram.Interface.File.Restart.{legacy_file_restart}
use nvram.Posix.{write_create_truncate, write_all, closing}
use nvram.Interface.Machine.{Machine, posix, posix-Counted, posix-Files}
use nvram.Interface.File.{nvram_file_interface, file_size, file_read, file_write}
use nvram.Interface.File.Restore.{file_read-file_write}
use nvram.Interface.File.Descriptors.{file-Keeps}

abbrev machine : Machine
machine = record { files = λ path. codes "old"; table = λ fd. []; count = 3 }

abbrev path : Bytes
path = codes "user_a"

abbrev contents : Bytes
contents = codes "a=1\n"

after_file : Machine
unfolding file_write write_all closing
after_file = (file_write runtime posix path contents machine).1

file_read-file_write_example :
    ((u : Machine) × (file_size runtime posix path after_file ≡ (ok 4, u))
      × (posix-Files write_create_truncate).Holds path contents u)
    × ((u : Machine) × (file_read runtime posix path 3 after_file ≡ (ok (codes "a=1"), u))
        × (posix-Files write_create_truncate).Holds path contents u)
unfolding after_file
file_read-file_write_example =
    file_read-file_write runtime posix (posix-Files write_create_truncate) path contents 3 machine
      after_file (ground arith) refl

file-Keeps_example :
    Keeps posix-Counted.count (file_size runtime posix path)
    × Keeps posix-Counted.count (file_read runtime posix path 4)
    × Keeps posix-Counted.count (file_write runtime posix path contents)
file-Keeps_example = file-Keeps posix-Counted path contents 4

-- What the rows of the settings leave.
after_rows : Machine
unfolding file_write write_all closing
after_rows = (file_write runtime posix path (codes "a=1\nb=22\na=3\n") machine).1

committed :
    legacy_commit runtime (nvram_file_interface runtime posix) path settings machine
    ≡ (ok path, after_rows)
unfolding after_rows
committed =
    legacy_commit-rows runtime (nvram_file_interface runtime posix) path settings machine
      settings-IsPlain
    ∙ rw rows-settings refl

legacy_file_restart_example :
    Filled runtime
      (λ r. r.1)
      settings
      (legacy_init runtime (nvram_file_interface runtime posix) (some path) none [] after_rows)
legacy_file_restart_example =
    legacy_file_restart runtime runtime-ListLaws posix (posix-Files write_create_truncate) path path
      settings machine after_rows settings-IsHighting (ground arith) committed

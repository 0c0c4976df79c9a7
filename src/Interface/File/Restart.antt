-- ===== src/Interface/File/Restart.antt =====
-- The legacy format over the file interface.
use nvram.Base.{◌≡◌, ◌<◌, All, length, none, some, [], Bytes, ok}
use nvram.Entry.{Entries, Runtime, ListLaws}
use nvram.Posix.{Posix, write_create_truncate}
use nvram.Legacy.{legacy_init, legacy_commit}
use nvram.Legacy.RoundTrip.{IsHighting}
use nvram.Legacy.Storage.{Filled, legacy_init-legacy_commit}
use nvram.Interface.Files.{Files}
use nvram.Interface.File.{nvram_file_interface}
use nvram.Interface.File.Restore.{file-Storage}

-- Over files that keep what is written, settings that a commit of the legacy format
-- has written through the file interface under a name are read back after a restart: the list holds
-- the last setting of each key, or the memory ran out.
pub legacy_file_restart :
    {World : Type 0} (R : Runtime World) (laws : ListLaws R) (P : Posix World)
    (F : Files R P write_create_truncate) (path path' : Bytes) (es : Entries) (w v : World)
    → All IsHighting es
    → 0 < length path
    → legacy_commit R (nvram_file_interface R P) path es w ≡ (ok path', v)
    → Filled R (λ r. r.1) es (legacy_init R (nvram_file_interface R P) (some path) none [] v)
legacy_file_restart R laws P F path path' es w v s pos h =
    legacy_init-legacy_commit R laws (nvram_file_interface R P) (file-Storage R P F) path es w s pos
      h

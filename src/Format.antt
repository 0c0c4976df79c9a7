-- ===== src/Format.antt =====
-- The calls through `struct nvram_format` (nvram_format.h).
use nvram.Base.{Bytes, Option, Io}
use nvram.Entry.{Entries}

-- `struct nvram` is `Nvram`; `init` returns it with the list that it has filled. A commit may
-- change it, so the new value comes back.
pub record Format (World : Type 0) : Type 1 where
  pub Nvram : Type 0
  -- section A, section B (`none` is NULL), and the caller's list
  pub init : Option Bytes → Option Bytes → Entries → Io World (Nvram × Entries)
  pub commit : Nvram → Entries → Io World Nvram
  pub close : Nvram → World → World

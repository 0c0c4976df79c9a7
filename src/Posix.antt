-- ===== src/Posix.antt =====
-- The calls of the operating system that the interfaces make. A failed call gives its `errno`.
pub mod Whole
pub mod Descriptors
use nvram.Base.{ℕ, Bool, true, false, ◌==◌, if◌then◌else◌, length, Bytes, Result, ok, err, Io, eio}

-- The flags of `open`; a file opened for reading is never created or cut here.
pub data OpenFlags : Type 0 where
  read_only write_only write_create write_create_truncate : OpenFlags

-- `sb.st_mode`, as far as it is tested.
pub data FileType : Type 0 where
  regular block_device other : FileType

-- `struct stat`
pub record Stat : Type 0 where
  pub type : FileType
  pub st_size : ℕ

pub record Posix (World : Type 0) : Type 0 where
  pub stat : Bytes → Io World Stat
  pub open_file : Bytes → OpenFlags → Io World ℕ
  -- at most that many bytes
  pub read : ℕ → ℕ → Io World Bytes
  -- the number of bytes that were written
  pub write : ℕ → Bytes → Io World ℕ
  -- the result of `close` is not looked at
  pub close : ℕ → World → World
  -- `ioctl(fd, BLKGETSIZE64, …)`
  pub block_size : ℕ → Io World ℕ
  -- `ioctl(fd, MEMERASE, …)`, with the start and the length
  pub erase : ℕ → ℕ → ℕ → Io World (Unit {0})
  -- `fgetflags` and `fsetflags`: whether EXT2_IMMUTABLE_FL is set, and the other flags
  pub get_flags : Bytes → Io World (Bool × ℕ)
  pub set_flags : Bytes → Bool × ℕ → Io World (Unit {0})
  -- what `errno` is where it is read behind a later call, or behind one that did not fail
  pub errno : World → ℕ

module _ {World : Type 0} (P : Posix World) where
  -- A `read` of fewer bytes than were asked for is -EIO.
  unfoldable pub read_all : ℕ → ℕ → Io World Bytes
  read_all fd size w =
      let (r, w') = P.read fd size w in
      (elim r [ err c ↦ err c | ok buf ↦ if length buf == size then ok buf else err eio ], w')

  -- A `write` of fewer bytes than were given is -EIO.
  unfoldable pub write_all : ℕ → Bytes → Io World (Unit {0})
  write_all fd buf w =
      let (r, w') = P.write fd buf w in
      (elim r [ err c ↦ err c | ok n ↦ if n == length buf then ok tt else err eio ], w')

  -- What was done with an open file, then `close(fd)`.
  unfoldable pub closing : {A : Type 0} → ℕ → Io World A → Io World A
  closing fd m w = let (r, w') = m w in (r, P.close fd w')

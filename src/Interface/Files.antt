-- ===== src/Interface/Files.antt =====
-- What the interfaces rely on of the files behind them: a file that can be read, and a write that
-- replaces what the file holds.
use nvram.Base.{◌≤◌, take, ℕ, ◌≡◌, Bool, Bytes, ok, length}
use nvram.Entry.{Runtime}
use nvram.Posix.{Posix, OpenFlags, read_only, regular}

-- `flags` are those with which a file is opened to be replaced: with O_TRUNC a write to a regular file
-- replaces it; each write to a file of efivarfs does.
pub record Files {World : Type 0} (R : Runtime World) (P : Posix World) (flags : OpenFlags)
    : Type 1 where
  -- the path and what the file holds
  pub Holds : Bytes → Bytes → World → Type 0
  -- a descriptor that is open for reading at the start of such a file
  pub Reading : ℕ → Bytes → Bytes → World → Type 0
  -- a descriptor on a file that the next write replaces, and on one that was replaced
  pub Writing : ℕ → Bytes → World → Type 0
  pub Written : ℕ → Bytes → Bytes → World → Type 0
  pub stat-ok :
      (path b : Bytes) (w : World)
      → Holds path b w
      → (v : World) × (P.stat path w ≡ (ok (record { type = regular; st_size = length b }), v))
        × Holds path b v
  pub open-ok :
      (path b : Bytes) (w : World)
      → Holds path b w
      → (fd : ℕ) × (v : World) × (P.open_file path read_only w ≡ (ok fd, v)) × Reading fd path b v
  pub read-ok :
      (fd : ℕ) (path b : Bytes) (n : ℕ) (w : World)
      → n ≤ length b
      → Reading fd path b w
      → (v : World) × (P.read fd n w ≡ (ok (take n b), v)) × Reading fd path b v
  pub close-Reading :
      (fd : ℕ) (path b : Bytes) (w : World) → Reading fd path b w → Holds path b (P.close fd w)
  pub open-Writing :
      (path : Bytes) (fd : ℕ) (w v : World)
      → P.open_file path flags w ≡ (ok fd, v)
      → Writing fd path v
  pub write-Written :
      (fd : ℕ) (path b : Bytes) (w v : World)
      → Writing fd path w
      → P.write fd b w ≡ (ok (length b), v)
      → Written fd path b v
  pub close-Written :
      (fd : ℕ) (path b : Bytes) (w : World) → Written fd path b w → Holds path b (P.close fd w)
  pub get_flags-Written :
      (fd : ℕ) (path b : Bytes) (w : World)
      → Written fd path b w
      → Written fd path b (P.get_flags path w).1
  pub set_flags-Written :
      (fd : ℕ) (path b : Bytes) (f : Bool × ℕ) (w : World)
      → Written fd path b w
      → Written fd path b (P.set_flags path f w).1
  pub malloc-Holds :
      (n : ℕ) (path b : Bytes) (w : World) → Holds path b w → Holds path b (R.malloc n w).1
  pub malloc-Reading :
      (n fd : ℕ) (path b : Bytes) (w : World)
      → Reading fd path b w
      → Reading fd path b (R.malloc n w).1
  pub malloc-Writing :
      (n fd : ℕ) (path : Bytes) (w : World) → Writing fd path w → Writing fd path (R.malloc n w).1

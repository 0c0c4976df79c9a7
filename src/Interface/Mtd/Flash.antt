-- ===== src/Interface/Mtd/Flash.antt =====
-- What the MTD interface relies on of a partition: the bytes that were erased take a
-- write.
use nvram.Base.{◌≤◌, take, ℕ, ◌≡◌, Bytes, ok, err, length}
use nvram.Posix.{Posix, read_only, write_only}

-- How far the rewriting of a partition has come.
pub data Phase : Type 0 where
  opened : Phase
  -- that many bytes from the start
  erased : ℕ → Phase
  written : Bytes → Phase

pub record Flash {World : Type 0} (P : Posix World) : Type 1 where
  -- the path, and what the partition starts with
  pub Holds : Bytes → Bytes → World → Type 0
  pub Reading : ℕ → Bytes → Bytes → World → Type 0
  pub Writing : ℕ → Bytes → Phase → World → Type 0
  -- the file of a pin, which is no partition
  pub IsPin : Bytes → Type 0
  pub open-ok :
      (path b : Bytes) (w : World)
      → Holds path b w
      → (fd : ℕ) × (v : World) × (P.open_file path read_only w ≡ (ok fd, v)) × Reading fd path b v
  pub read-ok :
      (fd : ℕ) (path b : Bytes) (n : ℕ) (w : World)
      → n ≤ length b
      → Reading fd path b w
      → (v : World) × (P.read fd n w ≡ (ok (take n b), v)) × Reading fd path b v
  pub close-Reading :
      (fd : ℕ) (path b : Bytes) (w : World) → Reading fd path b w → Holds path b (P.close fd w)
  pub open-Writing :
      (path : Bytes) (fd : ℕ) (w v : World)
      → P.open_file path write_only w ≡ (ok fd, v)
      → Writing fd path opened v
  pub erase-Writing :
      (fd : ℕ) (path : Bytes) (size : ℕ) (w v : World)
      → Writing fd path opened w
      → P.erase fd 0 size w ≡ (ok tt, v)
      → Writing fd path (erased size) v
  pub write-Writing :
      (fd : ℕ) (path b : Bytes) (n : ℕ) (w v : World)
      → length b ≤ n
      → Writing fd path (erased n) w
      → P.write fd b w ≡ (ok (length b), v)
      → Writing fd path (written b) v
  pub close-Writing :
      (fd : ℕ) (path b : Bytes) (w : World)
      → Writing fd path (written b) w
      → Holds path b (P.close fd w)
  -- what is done with a pin leaves partitions alone
  pub pin_failed :
      (pin path : Bytes) (fd c : ℕ) (phase : Phase) (w v : World)
      → IsPin pin
      → Writing fd path phase w
      → P.open_file pin write_only w ≡ (err c, v)
      → Writing fd path phase v
  pub pin_written :
      (pin path b : Bytes) (fd fd' : ℕ) (phase : Phase) (w v : World)
      → IsPin pin
      → Writing fd path phase w
      → P.open_file pin write_only w ≡ (ok fd', v)
      → Writing fd path phase (P.close fd' (P.write fd' b v).1)

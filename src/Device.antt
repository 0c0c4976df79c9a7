-- ===== src/Device.antt =====
-- The calls through `struct nvram_interface` (nvram_interface.h): what a storage format needs of
-- a device, and what it relies on of a device in good order.
use nvram.Base.{◌≤◌, take, ◌⊎◌, err, enomem, ℕ, Bytes, Io, ok, ◌≡◌, length}
use nvram.Entry.{Runtime}

pub record Device (World : Type 0) : Type 1 where
  -- `struct nvram_priv`
  pub Priv : Type 0
  pub init : Bytes → Io World Priv
  pub destroy : Priv → World → World
  pub size : Priv → Io World ℕ
  pub read : Priv → ℕ → Io World Bytes
  pub write : Priv → Bytes → Io World (Unit {0})
  pub section : Priv → Bytes

-- A device that keeps what was written last to a section, and gives it back, or is out of memory.
pub record Storage {World : Type 0} (R : Runtime World) (D : Device World) : Type 1 where
  pub Holds : Bytes → Bytes → World → Type 0
  pub init-ok :
      (s b : Bytes) (w : World)
      → Holds s b w
      → ((p : D.Priv) × (v : World) × (D.init s w ≡ (ok p, v)) × (D.section p ≡ s) × Holds s b v)
        ⊎ ((v : World) × (D.init s w ≡ (err enomem, v)))
  pub size-ok :
      (p : D.Priv) (b : Bytes) (w : World)
      → Holds (D.section p) b w
      → (v : World) × (D.size p w ≡ (ok (length b), v)) × Holds (D.section p) b v
  pub read-ok :
      (p : D.Priv) (b : Bytes) (n : ℕ) (w : World)
      → n ≤ length b
      → Holds (D.section p) b w
      → ((v : World) × (D.read p n w ≡ (ok (take n b), v)) × Holds (D.section p) b v)
        ⊎ ((v : World) × (D.read p n w ≡ (err enomem, v)))
  pub write-Holds :
      (p : D.Priv) (b : Bytes) (w v : World) → D.write p b w ≡ (ok tt, v) → Holds (D.section p) b v
  pub destroy-Holds :
      (p : D.Priv) (s b : Bytes) (w : World) → Holds s b w → Holds s b (D.destroy p w)
  pub malloc-Holds : (n : ℕ) (s b : Bytes) (w : World) → Holds s b w → Holds s b (R.malloc n w).1

-- ===== src/Posix/Whole.antt =====
-- Whole reads and writes, and what is done before a file is closed.
use nvram.Base.{◌≤◌, take, length-take, ℕ, ◌≡◌, refl, arith, length, Bytes, Result, ok, err, Io}
use nvram.Posix.{Posix, read_all, write_all, closing}

module _ {World : Type 0} (P : Posix World) where
  pub read_all-ok :
      (fd n : ℕ) (b : Bytes) (w : World) {v : World}
      → n ≤ length b
      → P.read fd n w ≡ (ok (take n b), v)
      → read_all P fd n w ≡ (ok (take n b), v)
  unfolding read_all
  read_all-ok fd n b w le e =
      let whole : length (take n b) ≡ n = omega (arith, length-take n b) in ground (arith, e, whole)

  -- A read that succeeds has the size that was asked for.
  pub length-read_all :
      (fd size : ℕ) (w : World) {b : Bytes} {v : World}
      → read_all P fd size w ≡ (ok b, v)
      → length b ≡ size
  unfolding read_all
  length-read_all fd size w h = ground arith

  -- A write that succeeds has written all.
  pub write_all_sound :
      (fd : ℕ) (b : Bytes) (w : World) {v : World}
      → write_all P fd b w ≡ (ok tt, v)
      → P.write fd b w ≡ (ok (length b), v)
  unfolding write_all
  write_all_sound fd b w h = ground arith

  pub closing-ok :
      {A : Type 0} (fd : ℕ) (m : Io World A) (w : World) {a : A} {v : World}
      → m w ≡ (ok a, v)
      → closing P fd m w ≡ (ok a, P.close fd v)
  unfolding closing
  closing-ok fd m w e = rw e

  pub closing-err :
      {A : Type 0} (fd : ℕ) (m : Io World A) (w : World) {c : ℕ} {v : World}
      → m w ≡ (err c, v)
      → closing P fd m w ≡ (err c, P.close fd v)
  unfolding closing
  closing-err fd m w e = rw e

  -- Closing keeps the result.
  pub closing_sound :
      {A : Type 0} (fd : ℕ) (m : Io World A) (w : World) {r : Result A} {v : World}
      → closing P fd m w ≡ (r, v)
      → (u : World) × (m w ≡ (r, u)) × (v ≡ P.close fd u)
  unfolding closing
  closing_sound fd m w h = ((m w).1, ground arith, ground arith)

  pub world-write_all :
      (fd : ℕ) (b : Bytes) (w : World) → (write_all P fd b w).1 ≡ (P.write fd b w).1
  unfolding write_all
  world-write_all fd b w = refl

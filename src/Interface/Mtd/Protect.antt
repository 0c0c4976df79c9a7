-- ===== src/Interface/Mtd/Protect.antt =====
-- The write-protect pin around `nvram_mtd_write` of nvram_interface_mtd.c.
use nvram.Base.{ℕ, ◌≡◌, arith, Option, some, [], ◌∷◌, Bytes, ok, err, inl, inr, Io, Io-cases, true}
use nvram.Entry.{Runtime}
use nvram.Posix.{Posix, write_only, closing}
use nvram.Interface.Mtd.{
  MtdPriv, Libmtd, set_gpio, write_gpio, set_write_protect, protecting, rewrite_mtd,
  nvram_mtd_write,
}

-- What is relied on of the file of a pin: it can always be opened, and takes the value 1, which it
-- keeps while files are closed or cannot be opened.
pub record Pin {World : Type 0} (P : Posix World) (pin : Bytes) : Type 1 where
  pub IsHigh : World → Type 0
  pub set-ok :
      (w : World)
      → (fd : ℕ) × (u : World) × (v : World) × (P.open_file pin write_only w ≡ (ok fd, u))
        × (P.write fd (b'1' ∷ []) u ≡ (ok 1, v))
        × IsHigh v
  pub close-IsHigh : (fd : ℕ) (w : World) → IsHigh w → IsHigh (P.close fd w)
  pub open_failed-IsHigh :
      (path : Bytes) (c : ℕ) (w v : World)
      → P.open_file path write_only w ≡ (err c, v)
      → IsHigh w
      → IsHigh v

module _ {World : Type 0} (R : Runtime World) (P : Posix World) (L : Libmtd World) (pin : Bytes)
    (K : Pin P pin) where
  set_gpio-IsHigh : (w : World) → K.IsHigh (set_gpio R P L pin true w).1
  unfolding set_gpio write_gpio closing
  set_gpio-IsHigh w =
      let (fd, u, v, opened, wrote, h) = K.set-ok w in
      let run : (set_gpio R P L pin true w).1 ≡ P.close fd v = ground (arith, opened, wrote) in
      rw run (K.close-IsHigh fd v h)

  protecting-IsHigh :
      (gpio : Option Bytes) (m : Io World (Unit {0})) (w : World)
      → gpio ≡ some pin
      → K.IsHigh (protecting R P L gpio m w).1
  unfolding protecting set_write_protect
  protecting-IsHigh gpio m w is = rw is (set_gpio-IsHigh (m w).1)

  -- Over a pin that takes the value 1 whenever it is written, and that has it before: the pin has it
  -- behind the writing of a partition, whatever that returns.
  pub nvram_mtd_write-IsHigh :
      (priv : MtdPriv) (b : Bytes) (w : World)
      → priv.gpio ≡ some pin
      → K.IsHigh w
      → K.IsHigh (nvram_mtd_write R P L priv b w).1
  unfolding nvram_mtd_write closing
  nvram_mtd_write-IsHigh priv b w is h = elim (Io-cases (P.open_file priv.path write_only) w) [
    | inl (fd, u, e) ↦
        let m : Io World (Unit {0}) = protecting R P L priv.gpio (rewrite_mtd R P L priv fd b) in
        let run : (nvram_mtd_write R P L priv b w).1 ≡ P.close fd (m u).1 = ground (arith, e) in
        rw run (
          K.close-IsHigh fd (m u).1
            (protecting-IsHigh priv.gpio (rewrite_mtd R P L priv fd b) u is))
    | inr (c, u, e) ↦
        let run : (nvram_mtd_write R P L priv b w).1 ≡ u = ground (arith, e) in
        rw run (K.open_failed-IsHigh priv.path c w u e h)
  ]

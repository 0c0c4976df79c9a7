-- ===== src/Interface/Mtd/Descriptors.antt =====
-- The descriptors that the calls of nvram_interface_mtd.c leave open.
use nvram.Base.{
  inl, inr, ap, arith, ◌≡◌, ◌>>=◌, Io-cases, Keeps, pure-Keeps, fail-Keeps, >>=-Keeps, if-Keeps, ℕ,
  Bool, true, false, Option, none, some, [], ◌∷◌, ltb, if◌then◌else◌, Bytes, Io, fail, ◌>>◌, ◌∙◌,
  einval,
}
use nvram.Entry.{Runtime}
use nvram.Posix.{Posix, read_only, write_only, write_all, closing}
use nvram.Posix.Descriptors.{
  Counted, read_all-Keeps, write_all-Keeps, erase-Keeps, open-closing-Keeps,
}
use nvram.Interface.Mtd.{
  MtdPriv, Libmtd, nvram_mtd_read, erase_mtd, uint32_max, set_gpio, write_gpio, set_write_protect,
  protecting, rewrite_mtd, nvram_mtd_write,
}

module _ {World : Type 0} {R : Runtime World} {P : Posix World} (L : Libmtd World)
    (C : Counted R P) where
  set_gpio-Keeps : (path : Bytes) (value : Bool) → Keeps C.count (set_gpio R P L path value)
  unfolding set_gpio write_gpio closing
  set_gpio-Keeps path value = record {
    at = λ w.
        let b : Bytes = (if value then b'1' else b'0') ∷ [] in
        let closed : ℕ → Io World ℕ = λ fd. closing P fd (P.write fd b) in
        let run : (set_gpio R P L path value w).1 ≡ ((P.open_file path write_only >>= closed) w).1 =
          elim (Io-cases (P.open_file path write_only) w) [
            | inl (fd, u, e) ↦ ground (arith, e)
            | inr (c, u, e) ↦ ground (arith, e)
          ] in
        ap C.count run
        ∙ (open-closing-Keeps C path write_only (λ fd. P.write fd b)
              (λ fd. record { at = C.count-write fd b })).at
            w;
  }

  set_write_protect-Keeps :
      (gpio : Option Bytes) (value : Bool) → Keeps C.count (set_write_protect R P L gpio value)
  unfolding set_write_protect
  set_write_protect-Keeps none value = pure-Keeps C.count tt
  set_write_protect-Keeps (some path) value = set_gpio-Keeps path value

  erase_mtd-Keeps : (fd size : ℕ) → Keeps C.count (erase_mtd R P L fd size)
  unfolding erase_mtd
  erase_mtd-Keeps fd size =
      if-Keeps C.count (ltb uint32_max size) (fail einval) (P.erase fd 0 size)
        (fail-Keeps C.count einval) (erase-Keeps C fd 0 size)

  rewrite_mtd-Keeps :
      (priv : MtdPriv) (fd : ℕ) (b : Bytes) → Keeps C.count (rewrite_mtd R P L priv fd b)
  unfolding rewrite_mtd
  rewrite_mtd-Keeps priv fd b =
      >>=-Keeps C.count (set_write_protect R P L priv.gpio false)
        (λ _. erase_mtd R P L fd priv.size >> write_all P fd b)
        (set_write_protect-Keeps priv.gpio false)
        (λ _.
          >>=-Keeps C.count (erase_mtd R P L fd priv.size) (λ _. write_all P fd b)
            (erase_mtd-Keeps fd priv.size) (λ _. write_all-Keeps C fd b))

  protecting-Keeps :
      (gpio : Option Bytes) (m : Io World (Unit {0}))
      → Keeps C.count m
      → Keeps C.count (protecting R P L gpio m)
  unfolding protecting
  protecting-Keeps gpio m k = record {
    at = λ w. (set_write_protect-Keeps gpio true).at (m w).1 ∙ k.at w;
  }

  -- Whatever they return, the reading and the writing of a partition leave as many descriptors open as
  -- there were.
  pub mtd-Keeps :
      (priv : MtdPriv) (b : Bytes) (n : ℕ)
      → Keeps C.count (nvram_mtd_read R P L priv n) × Keeps C.count (nvram_mtd_write R P L priv b)
  unfolding nvram_mtd_read nvram_mtd_write
  mtd-Keeps priv b n = (
    open-closing-Keeps C priv.path read_only _ (λ fd. read_all-Keeps C fd n),
    open-closing-Keeps C priv.path write_only _ (λ fd.
        protecting-Keeps priv.gpio (rewrite_mtd R P L priv fd b) (rewrite_mtd-Keeps priv fd b)),
  )

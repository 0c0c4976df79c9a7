-- ===== src/Interface/Mtd/Restore.antt =====
-- `nvram_mtd_write` of nvram_interface_mtd.c, and a `nvram_mtd_read` behind it.
use nvram.Base.{
  ◌≤◌, take, ℕ, ◌≡◌, inl, inr, ◌∙◌, Bool, true, false, arith, [], ◌∷◌, ltb, if◌then◌else◌, length,
  Bytes, Option, none, some, Result, ok, Io, >>=-ok, >>=-err, >>=-eq-ok, Io-cases, Bool-cases, ◌>>◌,
}
use nvram.Entry.{Runtime}
use nvram.Posix.{Posix, read_only, write_only, read_all, write_all, closing}
use nvram.Posix.Whole.{read_all-ok, write_all_sound, closing-ok, closing_sound}
use nvram.Interface.Mtd.{
  MtdPriv, Libmtd, nvram_mtd_read, erase_mtd, uint32_max, set_gpio, write_gpio, set_write_protect,
  protecting, rewrite_mtd, nvram_mtd_write,
}
use nvram.Interface.Mtd.Flash.{Flash, Phase, opened, written}

module _ {World : Type 0} (R : Runtime World) (P : Posix World) (L : Libmtd World) where
  protecting_sound :
      (gpio : Option Bytes) (m : Io World (Unit {0})) (w : World) {r : Result (Unit {0})}
      {v : World}
      → protecting R P L gpio m w ≡ (r, v)
      → (u : World) × (m w ≡ (r, u)) × (v ≡ (set_write_protect R P L gpio true u).1)
  unfolding protecting
  protecting_sound gpio m w h = ((m w).1, ground arith, ground arith)

  erase_mtd_sound :
      (fd size : ℕ) (w v : World)
      → erase_mtd R P L fd size w ≡ (ok tt, v)
      → P.erase fd 0 size w ≡ (ok tt, v)
  unfolding erase_mtd
  erase_mtd_sound fd size w v h = elim (Bool-cases (ltb uint32_max size)) [
    | inl big ↦ cc (rw big at h)
    | inr small ↦ rw small at h
  ]

  module _ (F : Flash P) where
    -- The pin, where there is one.
    abbrev pub IsPins : Option Bytes → Type 0
    IsPins none = Unit
    IsPins (some pin) = F.IsPin pin

    set_gpio-Writing :
        (pin path : Bytes) (value : Bool) (fd : ℕ) (phase : Phase) (w : World)
        → F.IsPin pin
        → F.Writing fd path phase w
        → F.Writing fd path phase (set_gpio R P L pin value w).1
    unfolding set_gpio write_gpio closing
    set_gpio-Writing pin path value fd phase w i h =
        elim (Io-cases (P.open_file pin write_only) w) [
          | inl (fd', u, e) ↦
              let b : Bytes = (if value then b'1' else b'0') ∷ [] in
              let m : ℕ → Io World (Unit {0}) = λ fd'. write_gpio R P L fd' value in
              rw (>>=-ok (P.open_file pin write_only) m w e)
                (F.pin_written pin path b fd fd' phase w u i h e)
          | inr (c, u, e) ↦
              let b : Bytes = (if value then b'1' else b'0') ∷ [] in
              let m : ℕ → Io World (Unit {0}) = λ fd'. write_gpio R P L fd' value in
              rw (>>=-err (P.open_file pin write_only) m w e)
                (F.pin_failed pin path fd c phase w u i h e)
        ]

    set_write_protect-Writing :
        (gpio : Option Bytes) (path : Bytes) (value : Bool) (fd : ℕ) (phase : Phase) (w : World)
        → IsPins gpio
        → F.Writing fd path phase w
        → F.Writing fd path phase (set_write_protect R P L gpio value w).1
    unfolding set_write_protect
    set_write_protect-Writing none path value fd phase w i h = h
    set_write_protect-Writing (some pin) path value fd phase w i h =
        set_gpio-Writing pin path value fd phase w i h

    rewrite_mtd-Writing :
        (priv : MtdPriv) (fd : ℕ) (b : Bytes) (w v : World)
        → length b ≤ priv.size
        → IsPins priv.gpio
        → F.Writing fd priv.path opened w
        → rewrite_mtd R P L priv fd b w ≡ (ok tt, v)
        → F.Writing fd priv.path (written b) v
    unfolding rewrite_mtd
    rewrite_mtd-Writing priv fd b w v le i h e =
        let rest : Io World (Unit {0}) = erase_mtd R P L fd priv.size >> write_all P fd b in
        let (_, x, unlocked, e₁) =
          >>=-eq-ok (set_write_protect R P L priv.gpio false) (λ _. rest) w e in
        let (_, y, blank, wrote) =
          >>=-eq-ok (erase_mtd R P L fd priv.size) (λ _. write_all P fd b) x e₁ in
        let open_still =
          rw unlocked at (set_write_protect-Writing priv.gpio priv.path false fd opened w i h) in
        F.write-Writing fd priv.path b priv.size y v le
          (F.erase-Writing fd priv.path priv.size x y open_still
            (erase_mtd_sound fd priv.size x y blank))
          (write_all_sound P fd b y wrote)

    -- Over a partition of which only the bytes that were erased take a write, and with a pin that is no
    -- partition or with none, each prefix of what a write that succeeds has written is read back, where
    -- it is no longer than the partition.
    pub nvram_mtd_read-nvram_mtd_write :
        (priv : MtdPriv) (b : Bytes) (w v : World)
        → length b ≤ priv.size
        → IsPins priv.gpio
        → nvram_mtd_write R P L priv b w ≡ (ok tt, v)
        → (n : ℕ) → n ≤ length b
        → (u : World) × (nvram_mtd_read R P L priv n v ≡ (ok (take n b), u)) × F.Holds priv.path b u
    unfolding nvram_mtd_write nvram_mtd_read
    nvram_mtd_read-nvram_mtd_write priv b w v fits i h n le =
        let body : ℕ → Io World (Unit {0}) =
          λ fd. closing P fd (protecting R P L priv.gpio (rewrite_mtd R P L priv fd b)) in
        let (fd, u, e, inner) = >>=-eq-ok (P.open_file priv.path write_only) body w h in
        let (x, guarded, closed) =
          closing_sound P fd (protecting R P L priv.gpio (rewrite_mtd R P L priv fd b)) u inner in
        let (y, done, set) = protecting_sound priv.gpio (rewrite_mtd R P L priv fd b) u guarded in
        let held : F.Holds priv.path b v =
          rw (closed, set)
            (F.close-Writing fd priv.path b _ (
              set_write_protect-Writing priv.gpio priv.path true fd (written b) y i (
                rewrite_mtd-Writing priv fd b u y fits i (F.open-Writing priv.path fd w u e)
                  done))) in
        let (fd', x', opened', r) = F.open-ok priv.path b v held in
        let (y', got, r') = F.read-ok fd' priv.path b n x' le r in
        (
          P.close fd' y',
          >>=-ok (P.open_file priv.path read_only) (λ fd. closing P fd (read_all P fd n)) v opened'
              ∙ closing-ok P fd' (read_all P fd' n) x' (read_all-ok P fd' n b x' le got),
          F.close-Reading fd' priv.path b y' r',
        )

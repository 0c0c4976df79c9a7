-- ===== src/Interface/Mtd.antt =====
-- The MTD interface, nvram_interface_mtd.c. The calls of libmtd are parameters.
pub mod Lookup
pub mod Find
pub mod Flash
pub mod Restore
pub mod Protect
pub mod Descriptors
mod Tests
use nvram.Base.{
  ℕ, zero, suc, ◌+◌, ◌-◌, ◌^◌, ◌/◌, ◌%◌, Bool, true, false, ◌||◌, Option, none, some, List, [], ◌∷◌,
  ◌++◌, ◌==◌, ltb, if◌then◌else◌, length, Bytes, codes, same, Result, ok, err, Io, pure, fail,
  ◌>>=◌, ◌>>◌, einval, enodev, enomem, eio,
}
use nvram.Entry.{Runtime, allocate}
use nvram.Device.{Device}
use nvram.Posix.{Posix, OpenFlags, read_only, write_only, read_all, write_all, closing}

-- What is read of `struct mtd_dev_info`.
pub record MtdDevInfo : Type 0 where
  pub name : Bytes
  pub mtd_num : ℕ
  pub size : ℕ

-- libmtd, the environment, and `snprintf` of "/dev/mtd%d".
pub record Libmtd (World : Type 0) : Type 1 where
  pub Handle : Type 0
  pub libmtd_open : Io World Handle
  pub libmtd_close : Handle → World → World
  -- the lowest and the highest number
  pub mtd_get_info : Handle → Io World (ℕ × ℕ)
  pub mtd_get_dev_info1 : Handle → ℕ → Io World MtdDevInfo
  pub print_path : ℕ → Bytes
  -- NVRAM_WP_GPIO of the environment, or what the build has in its place
  pub gpio : Option Bytes

-- `struct nvram_priv` with its `struct nvram_mtd`.
pub record MtdPriv : Type 0 where
  pub label : Bytes
  pub path : Bytes
  pub size : ℕ
  pub gpio : Option Bytes

-- The sizes of the structs that are allocated do not matter to what is modelled.
abbrev dev_info_size : ℕ
dev_info_size = 256

abbrev info_size : ℕ
info_size = 40

abbrev priv_size : ℕ
priv_size = 32

abbrev uint32_max : ℕ
uint32_max = 2 ^ 32 - 1

-- `return -e`, where 0 is a success.
abbrev pub returned : ℕ → Result (Unit {0})
returned zero = ok tt
returned (suc c) = err (suc c)

module _ {World : Type 0} (R : Runtime World) (P : Posix World) (L : Libmtd World) where
  -- The loop from the number `i` on, with the rounds that are left behind this one. `highest` ends
  -- it without a match.
  search_from : L.Handle → Bytes → ℕ → ℕ → Io World (ℕ × ℕ)
  search_from mtd label zero i w =
      let (r, w') = L.mtd_get_dev_info1 mtd i w in
      elim r [
        | err c ↦ (err c, w')
        | ok dev ↦ (if same dev.name label then ok (dev.mtd_num, dev.size) else err enodev, w')
      ]
  search_from mtd label (suc more) i w =
      let (r, w') = L.mtd_get_dev_info1 mtd i w in
      elim r [
        | err c ↦ (err c, w')
        | ok dev ↦ elim (same dev.name label) [
          | true ↦ (ok (dev.mtd_num, dev.size), w')
          | false ↦ search_from mtd label more (i + 1) w'
        ]
      ]

  -- Where the range is empty the loop does nothing, and `mtd_num` and `mtd_size` are still 0.
  search_range : L.Handle → Bytes → ℕ × ℕ → Io World (ℕ × ℕ)
  unfolding search_from
  search_range mtd label (lowest, highest) =
      if ltb highest lowest then pure (0, 0) else search_from mtd label (highest - lowest) lowest

  -- `return -errno`; `libmtd_open` leaves `errno` at 0 where the system has no MTD. The result is 0
  -- then, with the caller's values, which are 0.
  returned_number : Result (ℕ × ℕ) → Result (ℕ × ℕ)
  returned_number (ok r) = ok r
  returned_number (err zero) = ok (0, 0)
  returned_number (err (suc c)) = err (suc c)

  at_exit : Io World (ℕ × ℕ) → Io World (ℕ × ℕ)
  unfolding returned_number
  at_exit m w = let (r, w') = m w in (returned_number r, w')

  -- `libmtd_close` on every path.
  pub closing_mtd : {A : Type 0} → L.Handle → Io World A → Io World A
  closing_mtd mtd m w = let (r, w') = m w in (r, L.libmtd_close mtd w')

  -- What follows the allocations.
  pub lookup_mtd : Bytes → Io World (ℕ × ℕ)
  unfolding search_range closing_mtd
  lookup_mtd label = do
    mtd ← L.libmtd_open
    closing_mtd mtd (do range ← L.mtd_get_info mtd; search_range mtd label range)

  -- Both allocations are made before either is tested.
  pub find_mtd : Bytes → Io World (ℕ × ℕ)
  unfolding lookup_mtd at_exit
  find_mtd label w =
      let (dev_info, w₁) = R.malloc dev_info_size w in
      let (info, w₂) = R.malloc info_size w₁ in
      if dev_info
      then (if info then at_exit (lookup_mtd label) w₂ else (err enomem, w₂))
      else (err enomem, w₂)

  -- The path and the size. "%d" never fails.
  pub init_nvram_mtd : Bytes → Io World (Bytes × ℕ)
  unfolding find_mtd
  init_nvram_mtd label = do
    (mtd_num, mtd_size) ← find_mtd label
    let path = L.print_path mtd_num
    allocate R (length path + 1)
    pure (path, mtd_size)

  pub nvram_mtd_init : Bytes → Io World MtdPriv
  unfolding init_nvram_mtd
  nvram_mtd_init section = do
    allocate R priv_size
    (path, size) ← init_nvram_mtd section
    pure (record { label = section; path = path; size = size; gpio = L.gpio })

  pub nvram_mtd_size : MtdPriv → Io World ℕ
  nvram_mtd_size priv = pure priv.size

  pub nvram_mtd_read : MtdPriv → ℕ → Io World Bytes
  unfolding read_all closing
  nvram_mtd_read priv size = do
    fd ← P.open_file priv.path read_only
    closing P fd (read_all P fd size)

  pub erase_mtd : ℕ → ℕ → Io World (Unit {0})
  erase_mtd fd size = if ltb uint32_max size then fail einval else P.erase fd 0 size

  -- Where `write` has not written one byte, `-errno` is returned as it is behind `close`. 0 is a
  -- success.
  returned_errno : Result ℕ → ℕ → Result (Unit {0})
  returned_errno (ok n) e = if n == 1 then ok tt else returned e
  returned_errno (err c) e = returned e

  write_gpio : ℕ → Bool → Io World (Unit {0})
  unfolding closing returned_errno
  write_gpio fd value w =
      let (r, w') = closing P fd (P.write fd ((if value then b'1' else b'0') ∷ [])) w in
      (returned_errno r (P.errno w'), w')

  pub set_gpio : Bytes → Bool → Io World (Unit {0})
  unfolding write_gpio
  set_gpio path value = do fd ← P.open_file path write_only; write_gpio fd value

  pub set_write_protect : Option Bytes → Bool → Io World (Unit {0})
  unfolding set_gpio
  set_write_protect none value = pure tt
  set_write_protect (some path) value = set_gpio path value

  -- From the label `exit`: the pin is set again, whatever that returns.
  protecting : {A : Type 0} → Option Bytes → Io World A → Io World A
  unfolding set_write_protect
  protecting gpio m w = let (r, w') = m w in (r, (set_write_protect gpio true w').1)

  -- The partition is erased whole before the write.
  pub rewrite_mtd : MtdPriv → ℕ → Bytes → Io World (Unit {0})
  unfolding set_write_protect erase_mtd write_all
  rewrite_mtd priv fd buf = do
    set_write_protect priv.gpio false
    erase_mtd fd priv.size
    write_all P fd buf

  pub nvram_mtd_write : MtdPriv → Bytes → Io World (Unit {0})
  unfolding protecting rewrite_mtd closing
  nvram_mtd_write priv buf = do
    fd ← P.open_file priv.path write_only
    closing P fd (protecting priv.gpio (rewrite_mtd priv fd buf))

  -- `nvram_mtd_interface`; `nvram_mtd_destroy` only frees.
  abbrev pub nvram_mtd_interface : Device World
  nvram_mtd_interface = record {
    Priv = MtdPriv;
    init = nvram_mtd_init;
    destroy = λ priv w. w;
    size = nvram_mtd_size;
    read = nvram_mtd_read;
    write = nvram_mtd_write;
    section = λ priv. priv.label;
  }

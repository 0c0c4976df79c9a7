-- ===== src/Interface/Efi/Restore.antt =====
-- `efi_size` and `efi_read` of nvram_interface_efi.c behind an `efi_write`.
use nvram.Base.{
  suc, ◌≤◌, take, ℕ, ◌+◌, ◌≡◌, ◌⊎◌, inl, inr, refl, ap, ◌∙◌, Bool, true, arith, ◌++◌, length, drop,
  Bytes, Result, ok, err, Io, pure, >>=-ok, >>=-err, >>=-eq-ok, Io-cases, Bool-cases, enomem, ◌>>◌,
}
use nvram.Entry.{Runtime, allocate, allocate-ok, allocate-err}
use nvram.Device.{Storage}
use nvram.Posix.{Posix, read_only, write_create, read_all, write_all, closing}
use nvram.Posix.Whole.{read_all-ok, write_all_sound, closing-ok, closing_sound}
use nvram.Interface.Files.{Files}
use nvram.Interface.Efi.{
  efi_header, header_size, efi_init, priv_size, efi_size, efi_read, read_behind, set_immutable,
  protecting, unprotect, write_behind, write_open, open_and_write, efi_write, nvram_efi_interface,
}

module _ {World : Type 0} (R : Runtime World) (P : Posix World) (F : Files R P write_create) where
  -- The file of a variable with that data.
  pub Variable : Bytes → Bytes → World → Type 0
  Variable path b = F.Holds path (efi_header ++ b)

  efi_init-Variable :
      (path b : Bytes) (w : World)
      → Variable path b w
      → ((p : Bytes) × (v : World) × (efi_init R P path w ≡ (ok p, v))
          × (p ≡ path)
          × Variable path b v)
        ⊎ ((v : World) × (efi_init R P path w ≡ (err enomem, v)))
  unfolding efi_init Variable
  efi_init-Variable path b w h = elim (Bool-cases (R.malloc priv_size w).0) [
    | inl done ↦ inl (
      path,
      (R.malloc priv_size w).1,
      >>=-ok (allocate R priv_size) (λ _. pure path) w (allocate-ok R priv_size w done),
      refl,
      F.malloc-Holds priv_size path (efi_header ++ b) w h,
    )
    | inr failed ↦ inr (
      (R.malloc priv_size w).1,
      >>=-err (allocate R priv_size) (λ _. pure path) w (allocate-err R priv_size w failed),
    )
  ]

  efi_size-Variable :
      (path b : Bytes) (w : World)
      → Variable path b w
      → (v : World) × (efi_size R P path w ≡ (ok (length b), v)) × Variable path b v
  unfolding efi_size Variable
  efi_size-Variable path b w h =
      let (v, e, h') = F.stat-ok path (efi_header ++ b) w h in (v, ground (arith, e), h')

  -- What is cut off is the header.
  behind :
      (n : ℕ) (b : Bytes) → drop header_size (take (n + header_size) (efi_header ++ b)) ≡ take n b
  behind n b = let e : n + header_size ≡ suc (suc (suc (suc n))) = omega arith in rw e

  read_behind-ok :
      (fd n : ℕ) (b : Bytes) (w : World) {v : World}
      → n ≤ length b
      → P.read fd (n + header_size) w ≡ (ok (take (n + header_size) (efi_header ++ b)), v)
      → read_behind R P fd n w ≡ (ok (take n b), v)
  unfolding read_behind
  read_behind-ok fd n b w {v} le e =
      >>=-ok (read_all P fd (n + header_size)) (λ pbuf. pure (drop header_size pbuf)) w
        (read_all-ok P fd (n + header_size) (efi_header ++ b) w (omega arith) e)
      ∙ ap (λ (r : Bytes). (ok r, v)) (behind n b)

  efi_read-Variable :
      (path b : Bytes) (n : ℕ) (w : World)
      → n ≤ length b
      → Variable path b w
      → ((v : World) × (efi_read R P path n w ≡ (ok (take n b), v)) × Variable path b v)
        ⊎ ((v : World) × (efi_read R P path n w ≡ (err enomem, v)))
  unfolding efi_read Variable
  efi_read-Variable path b k w le h =
      let (fd, u, opened, r) = F.open-ok path (efi_header ++ b) w h in
      let n = k + header_size in
      let reading : ℕ → Io World Bytes =
        λ fd. allocate R n >> closing P fd (read_behind R P fd k) in
      elim (Bool-cases (R.malloc n u).0) [
        | inl done ↦
            let (x, got, r') =
              F.read-ok fd path (efi_header ++ b) n _ (omega arith)
                (F.malloc-Reading n fd path (efi_header ++ b) u r) in
            inl (
              P.close fd x,
              >>=-ok (P.open_file path read_only) reading w opened
                  ∙ (>>=-ok (allocate R n) (λ _. closing P fd (read_behind R P fd k)) u
                        (allocate-ok R n u done)
                      ∙ closing-ok P fd (read_behind R P fd k) _ (read_behind-ok fd k b _ le got)),
              F.close-Reading fd path (efi_header ++ b) x r',
            )
        | inr failed ↦ inr (
          (R.malloc n u).1,
          >>=-ok (P.open_file path read_only) reading w opened
              ∙ >>=-err (allocate R n) (λ _. closing P fd (read_behind R P fd k)) u
                  (allocate-err R n u failed),
        )
      ]

  set_immutable-Written :
      (fd : ℕ) (path b : Bytes) (value : Bool) (w : World)
      → F.Written fd path b w
      → F.Written fd path b (set_immutable R P path value w).1
  unfolding set_immutable
  set_immutable-Written fd path b value w h = elim (Io-cases (P.get_flags path) w) [
    | inl (f, u, e) ↦
        rw (>>=-ok (P.get_flags path) (λ f. P.set_flags path (value, f.1)) w e) (
          F.set_flags-Written fd path b (value, f.1) u
            (rw e at (F.get_flags-Written fd path b w h)))
    | inr (c, u, e) ↦
        rw (>>=-err (P.get_flags path) (λ f. P.set_flags path (value, f.1)) w e)
          (rw e at (F.get_flags-Written fd path b w h))
  ]

  write_behind-Written :
      (fd : ℕ) (path b : Bytes) (w v : World)
      → F.Writing fd path w
      → write_behind R P fd b w ≡ (ok tt, v)
      → F.Written fd path (efi_header ++ b) v
  unfolding write_behind
  write_behind-Written fd path b w v h e =
      let n = length b + header_size in
      let (_, u, a, wrote) = >>=-eq-ok (allocate R n) (λ _. write_all P fd (efi_header ++ b)) w e in
      let same_world : (R.malloc n w).1 ≡ u = ap (λ (r : Result (Unit {0}) × World). r.1) a in
      F.write-Written fd path (efi_header ++ b) u v
        (rw (← same_world) (F.malloc-Writing n fd path w h))
        (write_all_sound P fd (efi_header ++ b) u wrote)

  protecting_sound :
      {A : Type 0} (path : Bytes) (m : Io World A) (w : World) {r : Result A} {v : World}
      → protecting R P path m w ≡ (r, v)
      → (u : World) × (m w ≡ (r, u)) × (v ≡ (set_immutable R P path true u).1)
  unfolding protecting
  protecting_sound path m w h = ((m w).1, ground arith, ground arith)

  write_open-Variable :
      (path b : Bytes) (fd : ℕ) (w v : World)
      → F.Writing fd path w
      → write_open R P path fd b w ≡ (ok tt, v)
      → Variable path b v
  unfolding write_open Variable
  write_open-Variable path b fd w v h e =
      let (x, inner, closed) =
        closing_sound P fd (protecting R P path (write_behind R P fd b)) w e in
      let (y, wrote, set) = protecting_sound path (write_behind R P fd b) w inner in
      rw (closed, set)
        (F.close-Written fd path (efi_header ++ b) (set_immutable R P path true y).1 (
          set_immutable-Written fd path (efi_header ++ b) true y
            (write_behind-Written fd path b w y h wrote)))

  open_and_write-Variable :
      (path b : Bytes) (w v : World) → open_and_write R P path b w ≡ (ok tt, v) → Variable path b v
  unfolding open_and_write protecting
  open_and_write-Variable path b w v h = elim (Io-cases (P.open_file path write_create) w) [
    | inl (fd, u, e) ↦
        write_open-Variable path b fd u v (F.open-Writing path fd w u e) (ground (arith, h, e))
    | inr (c, u, e) ↦ absurd (ground (arith, h, e))
  ]

  efi_write-Variable :
      (path b : Bytes) (w v : World) → efi_write R P path b w ≡ (ok tt, v) → Variable path b v
  unfolding efi_write
  efi_write-Variable path b w v h =
      let (_, u, _, e) = >>=-eq-ok (unprotect R P path) (λ _. open_and_write R P path b) w h in
      open_and_write-Variable path b u v e

  -- Over files that keep what is written, a write that succeeds makes the size of the variable that
  -- of the buffer, and each prefix of the buffer is what a read of its length gives, where memory
  -- suffices.
  pub efi_read-efi_write :
      (path b : Bytes) (n : ℕ) (w v : World)
      → n ≤ length b
      → efi_write R P path b w ≡ (ok tt, v)
      → ((u : World) × (efi_size R P path v ≡ (ok (length b), u)) × Variable path b u)
        × (((u : World) × (efi_read R P path n v ≡ (ok (take n b), u)) × Variable path b u)
            ⊎ ((u : World) × (efi_read R P path n v ≡ (err enomem, u))))
  efi_read-efi_write path b n w v le h =
      let held = efi_write-Variable path b w v h in
      (efi_size-Variable path b v held, efi_read-Variable path b n v le held)

  pub efi-Storage : Storage R (nvram_efi_interface R P)
  unfolding Variable
  efi-Storage = record {
    Holds = Variable;
    init-ok = λ s b w h. efi_init-Variable s b w h;
    size-ok = λ p b w h. efi_size-Variable p b w h;
    read-ok = λ p b n w le h. efi_read-Variable p b n w le h;
    write-Holds = λ p b w v h. efi_write-Variable p b w v h;
    destroy-Holds = λ p s b w h. h;
    malloc-Holds = λ n s b w h. F.malloc-Holds n s (efi_header ++ b) w h;
  }

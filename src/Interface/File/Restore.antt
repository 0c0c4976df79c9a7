-- ===== src/Interface/File/Restore.antt =====
-- `file_size` and `file_read` of nvram_interface_file.c behind a `file_write`.
use nvram.Base.{
  ◌≤◌, take, ℕ, ◌≡◌, ◌⊎◌, inl, inr, refl, ◌∙◌, arith, length, Bytes, ok, err, pure, >>=-ok, >>=-err,
  >>=-eq-ok, Bool-cases, enomem,
}
use nvram.Entry.{Runtime, allocate, allocate-ok, allocate-err}
use nvram.Device.{Storage}
use nvram.Posix.{Posix, read_only, write_create_truncate, read_all, write_all, closing, regular}
use nvram.Posix.Whole.{read_all-ok, write_all_sound, closing-ok, closing_sound}
use nvram.Interface.Files.{Files}
use nvram.Interface.File.{
  file_init, priv_size, file_size, size_of, file_read, file_write, nvram_file_interface,
}

module _ {World : Type 0} (R : Runtime World) (P : Posix World)
    (F : Files R P write_create_truncate) where
  file_init-Holds :
      (path b : Bytes) (w : World)
      → F.Holds path b w
      → ((p : Bytes) × (v : World) × (file_init R P path w ≡ (ok p, v))
          × (p ≡ path)
          × F.Holds path b v)
        ⊎ ((v : World) × (file_init R P path w ≡ (err enomem, v)))
  unfolding file_init
  file_init-Holds path b w h = elim (Bool-cases (R.malloc priv_size w).0) [
    | inl done ↦ inl (
      path,
      (R.malloc priv_size w).1,
      >>=-ok (allocate R priv_size) (λ _. pure path) w (allocate-ok R priv_size w done),
      refl,
      F.malloc-Holds priv_size path b w h,
    )
    | inr failed ↦ inr (
      (R.malloc priv_size w).1,
      >>=-err (allocate R priv_size) (λ _. pure path) w (allocate-err R priv_size w failed),
    )
  ]

  file_size-regular :
      (path : Bytes) (w : World) {n : ℕ} {v : World}
      → P.stat path w ≡ (ok (record { type = regular; st_size = n }), v)
      → file_size R P path w ≡ (ok n, v)
  unfolding file_size size_of
  file_size-regular path w e = ground (arith, e)

  file_size-Holds :
      (path b : Bytes) (w : World)
      → F.Holds path b w
      → (v : World) × (file_size R P path w ≡ (ok (length b), v)) × F.Holds path b v
  file_size-Holds path b w h =
      let (v, e, h') = F.stat-ok path b w h in (v, file_size-regular path w e, h')

  file_read-Holds :
      (path b : Bytes) (n : ℕ) (w : World)
      → n ≤ length b
      → F.Holds path b w
      → (v : World) × (file_read R P path n w ≡ (ok (take n b), v)) × F.Holds path b v
  unfolding file_read
  file_read-Holds path b n w le h =
      let (fd, u, opened, r) = F.open-ok path b w h in
      let (x, got, r') = F.read-ok fd path b n u le r in
      (
        P.close fd x,
        >>=-ok (P.open_file path read_only) (λ fd. closing P fd (read_all P fd n)) w opened
            ∙ closing-ok P fd (read_all P fd n) u (read_all-ok P fd n b u le got),
        F.close-Reading fd path b x r',
      )

  file_write-Holds :
      (path b : Bytes) (w v : World) → file_write R P path b w ≡ (ok tt, v) → F.Holds path b v
  unfolding file_write
  file_write-Holds path b w v h =
      let (fd, u, opened, e) =
        >>=-eq-ok (P.open_file path write_create_truncate) (λ fd. closing P fd (write_all P fd b)) w
          h in
      let (x, wrote, closed) = closing_sound P fd (write_all P fd b) u e in
      rw closed (
        F.close-Written fd path b x (
          F.write-Written fd path b u x (F.open-Writing path fd w u opened)
            (write_all_sound P fd b u wrote)))

  -- Over files that keep what is written, a write that succeeds makes the size of the file that of
  -- the buffer, and each prefix of the buffer is what a read of its length gives.
  pub file_read-file_write :
      (path b : Bytes) (n : ℕ) (w v : World)
      → n ≤ length b
      → file_write R P path b w ≡ (ok tt, v)
      → ((u : World) × (file_size R P path v ≡ (ok (length b), u)) × F.Holds path b u)
        × ((u : World) × (file_read R P path n v ≡ (ok (take n b), u)) × F.Holds path b u)
  file_read-file_write path b n w v le h =
      let held = file_write-Holds path b w v h in
      (file_size-Holds path b v held, file_read-Holds path b n v le held)

  pub file-Storage : Storage R (nvram_file_interface R P)
  file-Storage = record {
    Holds = F.Holds;
    init-ok = λ s b w h. file_init-Holds s b w h;
    size-ok = λ p b w h. file_size-Holds p b w h;
    read-ok = λ p b n w le h. inl (file_read-Holds p b n w le h);
    write-Holds = λ p b w v h. file_write-Holds p b w v h;
    destroy-Holds = λ p s b w h. h;
    malloc-Holds = λ n s b w h. F.malloc-Holds n s b w h;
  }

-- ===== src/Interface/File/Descriptors.antt =====
-- The descriptors that the calls of nvram_interface_file.c leave open.
use nvram.Base.{
  Keeps, pure-Keeps, fail-Keeps, >>=-Keeps, if-Keeps, ℕ, ◌≡◌, ltb, inl, inr, arith, Bytes, Io-cases,
  ◌∙◌, pure, fail, enomem, eopnotsupp, if◌then◌else◌,
}
use nvram.Entry.{Runtime}
use nvram.Posix.{Posix, FileType, regular, block_device, other, read_only, write_create_truncate}
use nvram.Posix.Descriptors.{
  Counted, read_all-Keeps, write_all-Keeps, block_size-Keeps, open-closing-Keeps,
}
use nvram.Interface.File.{size_max, size_of, block_bytes, file_size, file_read, file_write}

module _ {World : Type 0} {R : Runtime World} {P : Posix World} (C : Counted R P) where
  file_read-Keeps : (path : Bytes) (n : ℕ) → Keeps C.count (file_read R P path n)
  unfolding file_read
  file_read-Keeps path n = open-closing-Keeps C path read_only _ (λ fd. read_all-Keeps C fd n)

  file_write-Keeps : (path b : Bytes) → Keeps C.count (file_write R P path b)
  unfolding file_write
  file_write-Keeps path b =
      open-closing-Keeps C path write_create_truncate _ (λ fd. write_all-Keeps C fd b)

  size_of-Keeps : (path : Bytes) (type : FileType) (n : ℕ) → Keeps C.count (size_of R P path type n)
  unfolding size_of block_bytes
  size_of-Keeps path regular n = pure-Keeps C.count n
  size_of-Keeps path block_device n =
      >>=-Keeps C.count (block_bytes R P path)
        (λ bytes. if ltb size_max bytes then fail enomem else pure bytes)
        (open-closing-Keeps C path read_only P.block_size (block_size-Keeps C))
        (λ bytes.
          if-Keeps C.count (ltb size_max bytes) (fail enomem) (pure bytes)
            (fail-Keeps C.count enomem) (pure-Keeps C.count bytes))
  size_of-Keeps path other n = fail-Keeps C.count eopnotsupp

  file_size-Keeps : (path : Bytes) → Keeps C.count (file_size R P path)
  unfolding file_size
  file_size-Keeps path = record {
    at = λ w. elim (Io-cases (P.stat path) w) [
      | inl (sb, u, e) ↦
          let found : file_size R P path w ≡ size_of R P path sb.type sb.st_size u =
            ground (arith, e) in
          rw found ((size_of-Keeps path sb.type sb.st_size).at u ∙ (rw e at (C.count-stat path w)))
      | inr (c, u, e) ↦
          let missing : (file_size R P path w).1 ≡ u = ground (arith, e) in
          rw missing (rw e at (C.count-stat path w))
    ];
  }

  -- Whatever they return, the size, the reading and the writing of a file leave as many descriptors
  -- open as there were.
  pub file-Keeps :
      (path b : Bytes) (n : ℕ)
      → Keeps C.count (file_size R P path)
        × Keeps C.count (file_read R P path n)
        × Keeps C.count (file_write R P path b)
  file-Keeps path b n = (file_size-Keeps path, file_read-Keeps path n, file_write-Keeps path b)

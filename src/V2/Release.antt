-- ===== src/V2/Release.antt =====
-- How the steps of an initialization change the number of open sections.
use nvram.Base.{
  ℕ, suc, ◌+◌, ◌-◌, ◌≡◌, inl, inr, ap, arith, Option, some, none, length, ltb, leb, Bytes, Result,
  ok, err, Io, pure, ◌>>=◌, if◌then◌else◌, Io-cases, Bool-cases, Keeps, >>=-Keeps, pure-Keeps,
  if-Keeps,
}
use nvram.Entry.{Entries, Runtime, allocate}
use nvram.Device.{Device}
use nvram.V2.{
  Libnvram, destroy, close_sections, read_header, read_valid, read_section, init_and_read,
}

-- How the calls change the number of open sections.
pub record Opened {World : Type 0} (R : Runtime World) (N : Libnvram World) (D : Device World)
    : Type 0 where
  pub count : World → ℕ
  pub count-init_ok :
      (s : Bytes) (p : D.Priv) (w v : World) → D.init s w ≡ (ok p, v) → count v ≡ suc (count w)
  pub count-init_err :
      (s : Bytes) (c : ℕ) (w v : World) → D.init s w ≡ (err c, v) → count v ≡ count w
  pub count-destroy : (p : D.Priv) (w : World) → count (D.destroy p w) ≡ count w - 1
  pub count-size : (p : D.Priv) (w : World) → count (D.size p w).1 ≡ count w
  pub count-read : (p : D.Priv) (n : ℕ) (w : World) → count (D.read p n w).1 ≡ count w
  pub count-malloc : (n : ℕ) (w : World) → count (R.malloc n w).1 ≡ count w
  pub count-deserialize :
      (list : Entries) (b : Bytes) (hdr : N.Header) (w : World)
      → count (N.deserialize list b hdr w).1 ≡ count w

abbrev pub opened : {A : Type 0} → Option A → ℕ
opened none = 0
opened (some p) = 1

module _ {World : Type 0} {R : Runtime World} {N : Libnvram World} {D : Device World}
    (O : Opened R N D) where
  pub allocate-Keeps : (n : ℕ) → Keeps O.count (allocate R n)
  allocate-Keeps n = record { at = O.count-malloc n }

  read-Keeps : (p : D.Priv) (n : ℕ) → Keeps O.count (D.read p n)
  read-Keeps p n = record { at = O.count-read p n }

  read_valid-Keeps : (p : D.Priv) (hdr : Option N.Header) → Keeps O.count (read_valid R N D p hdr)
  unfolding read_valid
  read_valid-Keeps p none = pure-Keeps O.count none
  read_valid-Keeps p (some hdr) =
      let n = N.header_len + N.len hdr in
      >>=-Keeps O.count (allocate R n) (λ _. D.read p n >>= λ buf. pure (some buf))
        (allocate-Keeps n)
        (λ _.
          >>=-Keeps O.count (D.read p n) (λ buf. pure (some buf)) (read-Keeps p n)
            (λ buf. pure-Keeps O.count (some buf)))

  read_header-Keeps : (p : D.Priv) → Keeps O.count (read_header R N D p)
  unfolding read_header
  read_header-Keeps p =
      let n = N.header_len in
      >>=-Keeps O.count (allocate R n) (λ _. D.read p n >>= λ buf. pure (N.validate_header buf))
        (allocate-Keeps n)
        (λ _.
          >>=-Keeps O.count (D.read p n) (λ buf. pure (N.validate_header buf)) (read-Keeps p n)
            (λ buf. pure-Keeps O.count (N.validate_header buf)))

  read_section-Keeps : (p : D.Priv) → Keeps O.count (read_section R N D p)
  unfolding read_section
  read_section-Keeps p =
      let found : Io World (Option Bytes) = read_header R N D p >>= read_valid R N D p in
      >>=-Keeps O.count (D.size p) (λ n. if leb N.header_len n then found else pure none)
        (record { at = O.count-size p })
        (λ n.
          if-Keeps O.count (leb N.header_len n) found (pure none)
            (>>=-Keeps O.count (read_header R N D p) (read_valid R N D p) (read_header-Keeps p)
              (read_valid-Keeps p))
            (pure-Keeps O.count none))

  -- A section that was initialized is open, whatever its reading has returned.
  pub init_and_read-count :
      (section : Option Bytes) (w : World)
      → O.count (init_and_read R N D section w).1
        ≡ O.count w + opened (init_and_read R N D section w).0.0
  unfolding init_and_read
  init_and_read-count none w = omega arith
  init_and_read-count (some s) w = elim (Bool-cases (ltb 0 (length s))) [
    | inl pos ↦ elim (Io-cases (D.init s) w) [
      | inl (p, v, e) ↦
          rw (pos, e)
            (omega (
              arith,
              (read_section-Keeps p).at (D.init s w).1,
              O.count-init_ok s p w v e,
              ap (λ (r : Result D.Priv × World). O.count r.1) e,
            ))
      | inr (c, v, e) ↦
          rw (pos, e)
            (omega (
              arith,
              O.count-init_err s c w v e,
              ap (λ (r : Result D.Priv × World). O.count r.1) e,
            ))
    ]
    | inr empty ↦ rw empty (omega arith)
  ]

  destroy-count :
      (p : Option D.Priv) (w : World) → O.count (destroy R N D p w) ≡ O.count w - opened p
  unfolding destroy
  destroy-count none w = omega arith
  destroy-count (some p) w = O.count-destroy p w

  pub close_sections-count :
      (pa pb : Option D.Priv) (w : World)
      → O.count (close_sections R N D pa pb w) ≡ O.count w - opened pa - opened pb
  unfolding close_sections
  close_sections-count pa pb w =
      omega (arith, destroy-count pb (destroy R N D pa w), destroy-count pa w)

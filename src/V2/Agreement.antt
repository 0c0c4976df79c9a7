-- ===== src/V2/Agreement.antt =====
-- The parts of an initialization over the device that counts, beside those without the count.
use nvram.Base.{
  ℕ, suc, ◌+◌, ◌≡◌, refl, sym, ap, ◌∙◌, arith, Bool, true, false, Option, none, some, leb, ltb,
  length, if◌then◌else◌, Bytes, Result, ok, err, Io, pure, ◌>>=◌, >>=-ok, >>=-err, Io-cases,
  Bool-cases, inl, inr,
}
use nvram.Entry.{Runtime, allocate}
use nvram.Device.{Device}
use nvram.V2.{
  Libnvram, destroy, close_sections, read_header, read_valid, read_section, init_and_read,
}
use nvram.V2.Tracked.{tracked_runtime, tracked_library, tracked}

module _ {World : Type 0} where
  -- The result and the state, without the count.
  abbrev pub strip : {A : Type 0} → A × (World × ℕ) → A × World
  strip r = (r.0, r.1.0)

  pub record Agrees {A : Type 0} (m' : Io (World × ℕ) A) (m : Io World A) : Type 0 where
    pub at : (w : World × ℕ) → strip (m' w) ≡ m w.0

  >>=-Agrees :
      {A B : Type 0} (m' : Io (World × ℕ) A) (m : Io World A) (f' : A → Io (World × ℕ) B)
      (f : A → Io World B)
      → Agrees m' m
      → ((a : A) → Agrees (f' a) (f a))
      → Agrees (m' >>= f') (m >>= f)
  >>=-Agrees m' m f' f k l = record {
    at = λ w. elim (Io-cases m' w) [
      | inl (a, u, e) ↦
          let e' : m w.0 ≡ (ok a, u.0) = sym (k.at w) ∙ ap strip e in
          rw (>>=-ok m' f' w e, >>=-ok m f w.0 e') ((l a).at u)
      | inr (c, u, e) ↦
          let e' : m w.0 ≡ (err c, u.0) = sym (k.at w) ∙ ap strip e in
          rw (>>=-err m' f' w e, >>=-err m f w.0 e') refl
    ];
  }

  pub if-Agrees :
      {A : Type 0} (b : Bool) {m' n' : Io (World × ℕ) A} {m n : Io World A}
      → Agrees m' m
      → Agrees n' n
      → Agrees (if b then m' else n') (if b then m else n)
  if-Agrees true k l = k
  if-Agrees false k l = l

module _ {World : Type 0} (R : Runtime World) (N : Libnvram World) (D : Device World) where
  abbrev R' : Runtime (World × ℕ)
  R' = tracked_runtime R

  abbrev N' : Libnvram (World × ℕ)
  N' = tracked_library N

  abbrev D' : Device (World × ℕ)
  D' = tracked D

  pub allocate-Agrees : (n : ℕ) → Agrees (allocate R' n) (allocate R n)
  allocate-Agrees n = record { at = λ w. refl }

  read-Agrees : (p : D.Priv) (n : ℕ) → Agrees (D'.read p n) (D.read p n)
  read-Agrees p n = record { at = λ w. refl }

  read_header-Agrees : (p : D.Priv) → Agrees (read_header R' N' D' p) (read_header R N D p)
  unfolding read_header
  read_header-Agrees p =
      >>=-Agrees (allocate R' N.header_len) (allocate R N.header_len)
        (λ _. D'.read p N.header_len >>= λ buf. pure (N.validate_header buf))
        (λ _. D.read p N.header_len >>= λ buf. pure (N.validate_header buf))
        (allocate-Agrees N.header_len)
        (λ _.
          >>=-Agrees (D'.read p N.header_len) (D.read p N.header_len)
            (λ buf. pure (N.validate_header buf)) (λ buf. pure (N.validate_header buf))
            (read-Agrees p N.header_len) (λ buf. record { at = λ w. refl }))

  read_valid-Agrees :
      (p : D.Priv) (hdr : Option N.Header)
      → Agrees (read_valid R' N' D' p hdr) (read_valid R N D p hdr)
  unfolding read_valid
  read_valid-Agrees p none = record { at = λ w. refl }
  read_valid-Agrees p (some hdr) =
      let n = N.header_len + N.len hdr in
      >>=-Agrees (allocate R' n) (allocate R n) (λ _. D'.read p n >>= λ buf. pure (some buf))
        (λ _. D.read p n >>= λ buf. pure (some buf)) (allocate-Agrees n)
        (λ _.
          >>=-Agrees (D'.read p n) (D.read p n) (λ buf. pure (some buf)) (λ buf. pure (some buf))
            (read-Agrees p n) (λ buf. record { at = λ w. refl }))

  read_section-Agrees : (p : D.Priv) → Agrees (read_section R' N' D' p) (read_section R N D p)
  unfolding read_section
  read_section-Agrees p =
      let found' : Io (World × ℕ) (Option Bytes) =
        read_header R' N' D' p >>= read_valid R' N' D' p in
      let found : Io World (Option Bytes) = read_header R N D p >>= read_valid R N D p in
      >>=-Agrees (D'.size p) (D.size p) (λ n. if leb N.header_len n then found' else pure none)
        (λ n. if leb N.header_len n then found else pure none) (record { at = λ w. refl })
        (λ n.
          if-Agrees (leb N.header_len n)
            (>>=-Agrees (read_header R' N' D' p) (read_header R N D p) (read_valid R' N' D' p)
              (read_valid R N D p) (read_header-Agrees p) (read_valid-Agrees p))
            (record { at = λ w. refl }))

  pub init_and_read_same :
      (section : Option Bytes) (w : World × ℕ)
      → strip (init_and_read R' N' D' section w) ≡ init_and_read R N D section w.0
  unfolding init_and_read
  init_and_read_same none w = refl
  init_and_read_same (some s) w = elim (Bool-cases (ltb 0 (length s))) [
    | inl pos ↦ elim (Io-cases (D.init s) w.0) [
      | inl (p, u, e) ↦
          let q' = read_section R' N' D' p (u, suc w.1) in
          let q = read_section R N D p u in
          let e' : D'.init s w ≡ (ok p, (u, suc w.1)) = rw e refl in
          let run' : init_and_read R' N' D' (some s) w ≡ ((some p, q'.0), q'.1) =
            ground (arith, pos, e') in
          let run : init_and_read R N D (some s) w.0 ≡ ((some p, q.0), q.1) =
            ground (arith, pos, e) in
          rw (run', run)
            (ap (λ (r : Result (Option Bytes) × World). ((some p, r.0), r.1))
              ((read_section-Agrees p).at (u, suc w.1)))
      | inr (c, u, e) ↦
          let e' : D'.init s w ≡ (err c, (u, w.1)) = rw e refl in
          let run' : init_and_read R' N' D' (some s) w ≡ ((none, err c), (u, w.1)) =
            ground (arith, pos, e') in
          let run : init_and_read R N D (some s) w.0 ≡ ((none, err c), u) =
            ground (arith, pos, e) in
          rw (run', run) refl
    ]
    | inr empty ↦ rw empty refl
  ]

  destroy_same :
      (p : Option D.Priv) (w : World × ℕ) → (destroy R' N' D' p w).0 ≡ destroy R N D p w.0
  unfolding destroy
  destroy_same none w = refl
  destroy_same (some p) w = refl

  pub close_sections_same :
      (pa pb : Option D.Priv) (w : World × ℕ)
      → (close_sections R' N' D' pa pb w).0 ≡ close_sections R N D pa pb w.0
  unfolding close_sections
  close_sections_same pa pb w =
      destroy_same pb (destroy R' N' D' pa w) ∙ ap (destroy R N D pb) (destroy_same pa w)

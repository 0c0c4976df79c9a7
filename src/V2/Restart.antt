-- ===== src/V2/Restart.antt =====
-- What a restart reads of the two sections.
use nvram.Base.{
  ℕ, ◌+◌, ◌≤◌, ◌≡◌, ◌⊎◌, inl, inr, refl, true, Option, some, none, arith, ltb, leb, take, length,
  Bytes, ok, err, pure, ◌>>=◌, if◌then◌else◌, Bool-cases, enomem, Yields, >>=-Yields, pure-Yields,
}
use nvram.Entry.{Runtime, allocate, allocate-ok, allocate-err}
use nvram.Device.{Device, Storage}
use nvram.V2.{Libnvram, read_header, read_valid, read_section, init_and_read}
use nvram.V2.Laws.{Steady, contents, behind, Readable, Named}

pub allocate-Yields :
    {World : Type 0} (R : Runtime World) (n : ℕ) (w : World) (Q : World → Type 0)
    → Q (R.malloc n w).1
    → Yields (allocate R n) w tt Q
allocate-Yields R n w Q q = elim (Bool-cases (R.malloc n w).0) [
  | inl done ↦ inl ((R.malloc n w).1, allocate-ok R n w done, q)
  | inr failed ↦ inr ((R.malloc n w).1, allocate-err R n w failed)
]

module _ {World : Type 0} {R : Runtime World} (N : Libnvram World) {D : Device World}
    {S : Storage R D} (K : Steady S) where
  -- What two sections hold.
  abbrev pub Both : Bytes → Bytes → Bytes → Bytes → World → Type 0
  Both s x t y w = S.Holds s x w × S.Holds t y w

  allocate-Both :
      (n : ℕ) {s x t y : Bytes} (w : World)
      → Both s x t y w
      → Yields (allocate R n) w tt (Both s x t y)
  allocate-Both n {s} {x} {t} {y} w h =
      allocate-Yields R n w (Both s x t y) (S.malloc-Holds n s x w h.0, S.malloc-Holds n t y w h.1)

  read-Both :
      (p : D.Priv) {x t y : Bytes} (n : ℕ) (w : World)
      → n ≤ length x
      → Both (D.section p) x t y w
      → Yields (D.read p n) w (take n x) (Both (D.section p) x t y)
  read-Both p {x} {t} {y} n w le h = elim (S.read-ok p x n w le h.0) [
    | inl (v, e, q) ↦ inl (v, e, (q, rw e at (K.read_keeps p n t y w h.1)))
    | inr (v, e) ↦ inr (v, e)
  ]

  read_header-Both :
      (p : D.Priv) {x t y : Bytes} (w : World)
      → N.header_len ≤ length x
      → Both (D.section p) x t y w
      → Yields
          (read_header R N D p)
          w
          (N.validate_header (take N.header_len x))
          (Both (D.section p) x t y)
  unfolding read_header
  read_header-Both p {x} {t} {y} w le h =
      let Q : World → Type 0 = Both (D.section p) x t y in
      let hdr = N.validate_header (take N.header_len x) in
      >>=-Yields (allocate R N.header_len)
        (λ _. D.read p N.header_len >>= λ b. pure (N.validate_header b)) w tt hdr Q Q
        (allocate-Both N.header_len w h)
        (λ u q.
          >>=-Yields (D.read p N.header_len) (λ b. pure (N.validate_header b)) u
            (take N.header_len x) hdr Q Q (read-Both p N.header_len u le q)
            (λ v q. pure-Yields hdr v Q q))

  read_valid-Both :
      (p : D.Priv) {x t y : Bytes} (hdr : N.Header) (w : World)
      → N.header_len + N.len hdr ≤ length x
      → Both (D.section p) x t y w
      → Yields
          (read_valid R N D p (some hdr))
          w
          (some (take (N.header_len + N.len hdr) x))
          (Both (D.section p) x t y)
  unfolding read_valid
  read_valid-Both p {x} {t} {y} hdr w le h =
      let Q : World → Type 0 = Both (D.section p) x t y in
      let n = N.header_len + N.len hdr in
      let all : Option Bytes = some (take n x) in
      >>=-Yields (allocate R n) (λ _. D.read p n >>= λ b. pure (some b)) w tt all Q Q
        (allocate-Both n w h)
        (λ u q.
          >>=-Yields (D.read p n) (λ b. pure (some b)) u (take n x) all Q Q (read-Both p n u le q)
            (λ v q. pure-Yields all v Q q))

  read_any-Both :
      (p : D.Priv) {x t y : Bytes} (found : Option N.Header) (w : World)
      → ((hdr : N.Header) → found ≡ some hdr → N.header_len + N.len hdr ≤ length x)
      → Both (D.section p) x t y w
      → Yields (read_valid R N D p found) w (behind N x found) (Both (D.section p) x t y)
  unfolding read_valid
  read_any-Both p {x} {t} {y} none w ready h = pure-Yields none w (Both (D.section p) x t y) h
  read_any-Both p (some hdr) w ready h = read_valid-Both p hdr w (ready hdr refl) h

  read_section-Both :
      (p : D.Priv) {x t y : Bytes} (w : World)
      → Readable N x
      → Both (D.section p) x t y w
      → Yields (read_section R N D p) w (contents N x) (Both (D.section p) x t y)
  unfolding read_section contents
  read_section-Both p {x} {t} {y} w ready h =
      let Q : World → Type 0 = Both (D.section p) x t y in
      let sized : Yields (D.size p) w (length x) Q =
        (let (v, e, q) = S.size-ok p x w h.0 in
          inl (v, e, (q, rw e at (K.size_keeps p t y w h.1)))) in
      >>=-Yields (D.size p)
        (λ n. if leb N.header_len n then read_header R N D p >>= read_valid R N D p else pure none)
        w (length x) (contents N x) Q Q sized
        (λ u q. elim (Bool-cases (leb N.header_len (length x))) [
          | inl long ↦
              let found = N.validate_header (take N.header_len x) in
              let le : N.header_len ≤ length x = ground (arith, long) in
              rw long (
                >>=-Yields (read_header R N D p) (read_valid R N D p) u found (behind N x found) Q Q
                  (read_header-Both p u le q)
                  (λ v q. read_any-Both p found v (λ hdr. ready.enough hdr le) q))
          | inr short ↦ rw short (pure-Yields none u Q q)
        ])

  -- What `init_and_read` has done to sections that hold `x` and `y`.
  pub init_and_read-Both :
      {s x t y : Bytes} (w : World)
      → Named N s x
      → Both s x t y w
      → ((p : D.Priv) × (v : World) × (init_and_read R N D (some s) w
            ≡ ((some p, ok (contents N x)), v))
          × Both s x t y v)
        ⊎ ((q : Option D.Priv) × (v : World) × (init_and_read R N D (some s) w
              ≡ ((q, err enomem), v)))
  unfolding init_and_read
  init_and_read-Both {s} {x} {t} {y} w named h =
      let pos : ltb 0 (length s) ≡ true = ground (arith, named.name_pos) in
      elim (S.init-ok s x w h.0) [
        | inl (p, v, opened, is_s, held) ↦
            let kept : S.Holds t y v = rw opened at (K.init_keeps s t y w h.1) in
            let begun : Both (D.section p) x t y v = rw is_s (held, kept) in
            elim (read_section-Both p v named.readable begun) [
              | inl (u, e, q) ↦ inl (p, u, ground (arith, pos, opened, e), rw is_s at q)
              | inr (u, e) ↦ inr (some p, u, ground (arith, pos, opened, e))
            ]
        | inr (v, failed) ↦ inr (none, v, ground (arith, pos, failed))
      ]

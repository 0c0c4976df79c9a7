-- ===== src/Interface/Mtd/Lookup.antt =====
-- What the failures and the successes of `find_mtd` come from.
use nvram.Base.{
  ℕ, zero, suc, ◌+◌, ◌-◌, ◌≡◌, ◌⊎◌, inl, inr, refl, sym, ap, ◌∙◌, arith, ltb, same, Bytes, Result,
  ok, err, Io, ◌>>=◌, >>=-eq-err, Io-cases, Bool-cases, enodev,
}
use nvram.Entry.{Runtime}
use nvram.Posix.{Posix}
use nvram.Interface.Mtd.{
  Libmtd, search_from, search_range, closing_mtd, lookup_mtd, find_mtd, at_exit, returned_number,
  dev_info_size, info_size,
}

module _ {World : Type 0} (R : Runtime World) (P : Posix World) (L : Libmtd World) where
  -- A call of libmtd that has failed with that `errno`.
  pub data Failed (c : ℕ) : Type 0 where
    open_failed : {u v : World} → L.libmtd_open u ≡ (err c, v) → Failed c
    info_failed : {mtd : L.Handle} {u v : World} → L.mtd_get_info mtd u ≡ (err c, v) → Failed c
    dev_failed :
        {mtd : L.Handle} {i : ℕ} {u v : World} → L.mtd_get_dev_info1 mtd i u ≡ (err c, v) → Failed c

  search_from-Failed :
      (mtd : L.Handle) (label : Bytes) (more i : ℕ) (w : World) {c : ℕ} {v : World}
      → search_from R P L mtd label more i w ≡ (err c, v)
      → (c ≡ enodev) ⊎ Failed c
  unfolding search_from
  search_from-Failed mtd label zero i w {c} {v} h = elim (Io-cases (L.mtd_get_dev_info1 mtd i) w) [
    | inl (dev, u, e) ↦ elim (Bool-cases (same dev.name label)) [
      | inl found ↦ absurd (ground (arith, h, e, found))
      | inr other ↦ inl (ground (arith, h, e, other))
    ]
    | inr (d, u, e) ↦ let code : d ≡ c = ground (arith, h, e) in inr (dev_failed (rw code at e))
  ]
  search_from-Failed mtd label (suc more) i w {c} {v} h =
      elim (Io-cases (L.mtd_get_dev_info1 mtd i) w) [
        | inl (dev, u, e) ↦ elim (Bool-cases (same dev.name label)) [
          | inl found ↦ absurd (ground (arith, h, e, found))
          | inr other ↦
              search_from-Failed mtd label more (i + 1) u {c = c} {v = v}
                (ground (arith, h, e, other))
        ]
        | inr (d, u, e) ↦ let code : d ≡ c = ground (arith, h, e) in inr (dev_failed (rw code at e))
      ]

  search_range-Failed :
      (mtd : L.Handle) (label : Bytes) (range : ℕ × ℕ) (w : World) {c : ℕ} {v : World}
      → search_range R P L mtd label range w ≡ (err c, v)
      → (c ≡ enodev) ⊎ Failed c
  unfolding search_range
  search_range-Failed mtd label (lowest, highest) w h = elim (Bool-cases (ltb highest lowest)) [
    | inl empty ↦ absurd (ground (arith, h, empty))
    | inr range ↦ search_from-Failed mtd label (highest - lowest) lowest w (rw range at h)
  ]

  pub closing_mtd_sound :
      {A : Type 0} (mtd : L.Handle) (m : Io World A) (w : World) {r : Result A} {v : World}
      → closing_mtd R P L mtd m w ≡ (r, v)
      → (u : World) × (m w ≡ (r, u))
  unfolding closing_mtd
  closing_mtd_sound mtd m w h = ((m w).1, ground arith)

  lookup_mtd-Failed :
      (label : Bytes) (w : World) {c : ℕ} {v : World}
      → lookup_mtd R P L label w ≡ (err c, v)
      → (c ≡ enodev) ⊎ Failed c
  unfolding lookup_mtd
  lookup_mtd-Failed label w h =
      let search : L.Handle → Io World (ℕ × ℕ) =
        λ mtd. L.mtd_get_info mtd >>= search_range R P L mtd label in
      elim (>>=-eq-err L.libmtd_open (λ mtd. closing_mtd R P L mtd (search mtd)) w h) [
        | inl e ↦ inr (open_failed e)
        | inr (mtd, u, _, inner) ↦
            let (x, e) = closing_mtd_sound mtd (search mtd) u inner in
            elim (>>=-eq-err (L.mtd_get_info mtd) (search_range R P L mtd label) u e) [
              | inl e ↦ inr (info_failed e)
              | inr (range, y, _, last) ↦ search_range-Failed mtd label range y last
            ]
      ]

  at_exit_sound :
      (m : Io World (ℕ × ℕ)) (w : World) {r : ℕ × ℕ} {v : World}
      → at_exit R P L m w ≡ (ok r, v)
      → (m w ≡ (ok r, v)) ⊎ ((r ≡ (0, 0)) × (m w ≡ (err 0, v)))
  unfolding at_exit returned_number
  at_exit_sound m w {r} {v} h = by_result (m w) refl
    where
      by_result :
          (p : Result (ℕ × ℕ) × World)
          → m w ≡ p
          → (m w ≡ (ok r, v)) ⊎ ((r ≡ (0, 0)) × (m w ≡ (err 0, v)))
      by_result (ok x, u) e = inl (e ∙ (rw e at h))
      by_result (err zero, u) e =
          let g : ◌≡◌ {A = Result (ℕ × ℕ) × World} (ok (0, 0), u) (ok r, v) = rw e at h in
          let zeros : (0, 0) ≡ r = cc g in
          let same_world : u ≡ v = ap (λ (x : Result (ℕ × ℕ) × World). x.1) g in
          inr (sym zeros, rw (← same_world) e)
      by_result (err (suc c), u) e = absurd (cc (rw e at h))

  -- A success is that of the search, or 0 and 0 behind a failure with the `errno` 0.
  pub find_mtd_lookup :
      (label : Bytes) (w : World) {r : ℕ × ℕ} {v : World}
      → find_mtd R P L label w ≡ (ok r, v)
      → ((u : World) × (lookup_mtd R P L label u ≡ (ok r, v))) ⊎ ((r ≡ (0, 0)) × Failed 0)
  unfolding find_mtd
  find_mtd_lookup label w h =
      let a = R.malloc dev_info_size w in
      let b = R.malloc info_size a.1 in
      elim (Bool-cases a.0) [
        | inl got ↦ elim (Bool-cases b.0) [
          | inl both ↦ elim (at_exit_sound (lookup_mtd R P L label) b.1 (rw (got, both) at h)) [
            | inl e ↦ inl (b.1, e)
            | inr (zeros, e) ↦ elim (lookup_mtd-Failed label b.1 e) [
              | inl other ↦ absurd (omega (arith, other))
              | inr failed ↦ inr (zeros, failed)
            ]
          ]
          | inr failed ↦ cc (rw (got, failed) at h)
        ]
        | inr failed ↦ cc (rw failed at h)
      ]

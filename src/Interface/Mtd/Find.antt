-- ===== src/Interface/Mtd/Find.antt =====
-- Which partition `find_mtd` finds.
use nvram.Base.{
  ℕ, zero, suc, ◌+◌, ◌-◌, ◌≤◌, ◌<◌, ◌≡◌, ◌⊎◌, inl, inr, refl, ap, true, arith, ltb, same, same_iff,
  Bytes, Result, ok, Io, >>=-eq-ok, Io-cases, Bool-cases, ◌>>=◌,
}
use nvram.Entry.{Runtime}
use nvram.Posix.{Posix}
use nvram.Interface.Mtd.{
  MtdDevInfo, Libmtd, search_from, search_range, closing_mtd, lookup_mtd, find_mtd,
}
use nvram.Interface.Mtd.Lookup.{Failed, closing_mtd_sound, find_mtd_lookup}

module _ {World : Type 0} (R : Runtime World) (P : Posix World) (L : Libmtd World) where
  -- A device of the range with the label, and what is returned of it.
  pub record Labelled (mtd : L.Handle) (label : Bytes) (lowest highest n size : ℕ) : Type 0 where
    pub index : ℕ
    pub before : World
    pub after : World
    pub dev : MtdDevInfo
    pub lowest_le : lowest ≤ index
    pub index_le : index ≤ highest
    pub got : L.mtd_get_dev_info1 mtd index before ≡ (ok dev, after)
    pub named : dev.name ≡ label
    pub number_is : n ≡ dev.mtd_num
    pub size_is : size ≡ dev.size

  Labelled-widen :
      {mtd : L.Handle} {label : Bytes} {i highest n size : ℕ}
      → Labelled mtd label (i + 1) highest n size
      → Labelled mtd label i highest n size
  Labelled-widen f = record {
    index = f.index;
    before = f.before;
    after = f.after;
    dev = f.dev;
    lowest_le = omega (arith, f.lowest_le);
    index_le = f.index_le;
    got = f.got;
    named = f.named;
    number_is = f.number_is;
    size_is = f.size_is;
  }

  Labelled-here :
      (mtd : L.Handle) (label : Bytes) (i highest : ℕ) (w u : World) (dev : MtdDevInfo)
      → i ≤ highest
      → L.mtd_get_dev_info1 mtd i w ≡ (ok dev, u)
      → same dev.name label ≡ true
      → Labelled mtd label i highest dev.mtd_num dev.size
  Labelled-here mtd label i highest w u dev le e found = record {
    index = i;
    before = w;
    after = u;
    dev = dev;
    lowest_le = omega arith;
    index_le = le;
    got = e;
    named = (same_iff dev.name label).0 found;
    number_is = refl;
    size_is = refl;
  }

  -- The result is the pair of the device.
  Labelled-result :
      (mtd : L.Handle) (label : Bytes) (i highest : ℕ) (dev : MtdDevInfo) {n size : ℕ} {u v : World}
      → ◌≡◌ {A = Result (ℕ × ℕ) × World} (ok (dev.mtd_num, dev.size), u) (ok (n, size), v)
      → Labelled mtd label i highest dev.mtd_num dev.size
      → Labelled mtd label i highest n size
  Labelled-result mtd label i highest dev {n} {size} h f =
      let e : dev.mtd_num ≡ n = ground (arith, h) in
      let e' : dev.size ≡ size = ground (arith, h) in rw (← e, ← e') f

  search_from-Labelled :
      (mtd : L.Handle) (label : Bytes) (more i highest : ℕ) (w : World) {n size : ℕ} {v : World}
      → i + more ≤ highest
      → search_from R P L mtd label more i w ≡ (ok (n, size), v)
      → Labelled mtd label i highest n size
  unfolding search_from
  search_from-Labelled mtd label zero i highest w {v = v} le h =
      elim (Io-cases (L.mtd_get_dev_info1 mtd i) w) [
        | inl (dev, u, e) ↦ elim (Bool-cases (same dev.name label)) [
          | inl found ↦
              Labelled-result mtd label i highest dev {u = u} {v = v} (ground (arith, h, e, found))
                (Labelled-here mtd label i highest w u dev (omega arith) e found)
          | inr other ↦ absurd (ground (arith, h, e, other))
        ]
        | inr (c, u, e) ↦ absurd (ground (arith, h, e))
      ]
  search_from-Labelled mtd label (suc more) i highest w {v = v} le h =
      elim (Io-cases (L.mtd_get_dev_info1 mtd i) w) [
        | inl (dev, u, e) ↦ elim (Bool-cases (same dev.name label)) [
          | inl found ↦
              Labelled-result mtd label i highest dev {u = u} {v = v} (ground (arith, h, e, found))
                (Labelled-here mtd label i highest w u dev (omega arith) e found)
          | inr other ↦ Labelled-widen (
              search_from-Labelled mtd label more (i + 1) highest u {v = v} (omega arith)
                (ground (arith, h, e, other)))
        ]
        | inr (c, u, e) ↦ absurd (ground (arith, h, e))
      ]

  -- What a success of `find_mtd` says.
  abbrev pub FoundMtd : Bytes → ℕ → ℕ → Type 0
  FoundMtd label n size =
      ((mtd : L.Handle) × (lowest : ℕ) × (highest : ℕ) × (u : World) × (x : World) × (L.mtd_get_info
            mtd u
          ≡ (ok (lowest, highest), x))
        × (((highest < lowest) × (n ≡ 0) × (size ≡ 0)) ⊎ Labelled mtd label lowest highest n size))
      ⊎ ((n ≡ 0) × (size ≡ 0) × Failed R P L 0)

  search_range-Labelled :
      (mtd : L.Handle) (label : Bytes) (lowest highest : ℕ) (w : World) {n size : ℕ} {v : World}
      → search_range R P L mtd label (lowest, highest) w ≡ (ok (n, size), v)
      → ((highest < lowest) × (n ≡ 0) × (size ≡ 0)) ⊎ Labelled mtd label lowest highest n size
  unfolding search_range
  search_range-Labelled mtd label lowest highest w h = elim (Bool-cases (ltb highest lowest)) [
    | inl empty ↦ inl (ground (arith, empty), ground (arith, h, empty), ground (arith, h, empty))
    | inr range ↦ inr (
        search_from-Labelled mtd label (highest - lowest) lowest highest w (ground (arith, range))
          (rw range at h))
  ]

  -- A success of `find_mtd` gives the number and the size of a device of the range whose name is the
  -- label, or 0 and 0 where the range is empty or a call of libmtd has failed with `errno` 0.
  pub find_mtd-FoundMtd :
      (label : Bytes) (w : World) {n size : ℕ} {v : World}
      → find_mtd R P L label w ≡ (ok (n, size), v)
      → FoundMtd label n size
  unfolding lookup_mtd
  find_mtd-FoundMtd label w {n} {size} h = elim (find_mtd_lookup R P L label w h) [
    | inr (zeros, failed) ↦ inr (ap (λ r. r.0) zeros, ap (λ r. r.1) zeros, failed)
    | inl (u, e) ↦
        let search : L.Handle → Io World (ℕ × ℕ) =
          λ mtd. L.mtd_get_info mtd >>= search_range R P L mtd label in
        let (mtd, x, _, inner) =
          >>=-eq-ok L.libmtd_open (λ mtd. closing_mtd R P L mtd (search mtd)) u e in
        let (y, found) = closing_mtd_sound R P L mtd (search mtd) x inner in
        let (range, z, info, last) =
          >>=-eq-ok (L.mtd_get_info mtd) (search_range R P L mtd label) x found in
        inl (
          mtd,
          range.0,
          range.1,
          x,
          z,
          info,
          search_range-Labelled mtd label range.0 range.1 z last,
        )
  ]

-- ===== src/V2/Balance.antt =====
-- The sections that are open after an initialization.
use nvram.Base.{
  ℕ, ◌+◌, ◌≡◌, inl, inr, refl, ap, ◌∙◌, arith, Option, none, Bytes, Result, ok, err, Io, Io-cases,
  Bool-cases, >>=-ok, >>=-err, Keeps, pure-Keeps, if-Keeps,
}
use nvram.Entry.{Entries, Runtime, allocate, allocate-ok, allocate-err}
use nvram.Device.{Device}
use nvram.V2.{
  Libnvram, Nvram, nvram_size, close_sections, v2_close, init_and_read, deserialize_active, load,
  init_b, init_a, v2_init,
}
use nvram.V2.Release.{Opened, opened, init_and_read-count, close_sections-count}

module _ {World : Type 0} {R : Runtime World} {N : Libnvram World} {D : Device World}
    (O : Opened R N D) where
  -- Behind a success the sections of the `struct nvram` are open, and no other; behind a failure none.
  unfoldable pub Balanced : ℕ → Result (Nvram R N D × Entries) × World → Type 0
  Balanced n (ok r, v) = O.count v ≡ n + opened r.0.priv_a + opened r.0.priv_b
  Balanced n (err c, v) = O.count v ≡ n

  deserialize_active-Keeps :
      (t : N.Transaction) (oa ob : Option Bytes) (list : Entries)
      → Keeps O.count (deserialize_active R N D t oa ob list)
  unfolding deserialize_active
  deserialize_active-Keeps t oa ob list =
      if-Keeps O.count (N.active_a t) _ _ (record { at = O.count-deserialize list _ _ })
        (if-Keeps O.count (N.active_b t) _ _ (record { at = O.count-deserialize list _ _ })
          (pure-Keeps O.count list))

  load-Balanced :
      (n : ℕ) (pa pb : Option D.Priv) (oa ob : Option Bytes) (list : Entries) (w : World)
      → O.count w ≡ n + opened pa + opened pb
      → Balanced n (load R N D pa pb oa ob list w)
  unfolding load Balanced
  load-Balanced n pa pb oa ob list w h =
      let t = N.init_transaction oa ob in
      let kept = (deserialize_active-Keeps t oa ob list).at w in
      elim (Io-cases (deserialize_active R N D t oa ob list) w) [
        | inl (filled, v, e) ↦
            let run : load R N D pa pb oa ob list w
                ≡ (ok (record { trans = t; priv_a = pa; priv_b = pb }, filled), v) =
              ground (arith, e) in
            let same_count : O.count v ≡ O.count w = rw e at kept in rw run (same_count ∙ h)
        | inr (c, v, e) ↦
            let run : load R N D pa pb oa ob list w ≡ (err c, close_sections R N D pa pb v) =
              ground (arith, e) in
            let same_count : O.count v ≡ O.count w = rw e at kept in
            rw run (omega (arith, close_sections-count O pa pb v, same_count, h))
      ]

  init_b-Balanced :
      (n : ℕ) (pa : Option D.Priv) (oa section : Option Bytes) (list : Entries) (w : World)
      → O.count w ≡ n + opened pa
      → Balanced n (init_b R N D pa oa section list w)
  unfolding init_b Balanced
  init_b-Balanced n pa oa section list w h =
      by_result (init_and_read R N D section w) refl (
        init_and_read-count O section w
        ∙ ap (λ m. m + opened (init_and_read R N D section w).0.0) h)
    where
      by_result :
          (r : (Option D.Priv × Result (Option Bytes)) × World)
          → init_and_read R N D section w ≡ r
          → O.count r.1 ≡ n + opened pa + opened r.0.0
          → Balanced n (init_b R N D pa oa section list w)
      by_result ((pb, ok ob), v) e k =
          let run : init_b R N D pa oa section list w ≡ load R N D pa pb oa ob list v =
            ground (arith, e) in
          rw run (load-Balanced n pa pb oa ob list v k)
      by_result ((pb, err c), v) e k =
          let run : init_b R N D pa oa section list w ≡ (err c, close_sections R N D pa pb v) =
            ground (arith, e) in
          rw run (omega (arith, close_sections-count O pa pb v, k))

  init_a-Balanced :
      (n : ℕ) (section_a section_b : Option Bytes) (list : Entries) (w : World)
      → O.count w ≡ n
      → Balanced n (init_a R N D section_a section_b list w)
  unfolding init_a Balanced
  init_a-Balanced n section_a section_b list w h =
      by_result (init_and_read R N D section_a w) refl (
        init_and_read-count O section_a w
        ∙ ap (λ m. m + opened (init_and_read R N D section_a w).0.0) h)
    where
      by_result :
          (r : (Option D.Priv × Result (Option Bytes)) × World)
          → init_and_read R N D section_a w ≡ r
          → O.count r.1 ≡ n + opened r.0.0
          → Balanced n (init_a R N D section_a section_b list w)
      by_result ((pa, ok oa), v) e k =
          let run : init_a R N D section_a section_b list w ≡ init_b R N D pa oa section_b list v =
            ground (arith, e) in
          rw run (init_b-Balanced n pa oa section_b list v k)
      by_result ((pa, err c), v) e k =
          let run : init_a R N D section_a section_b list w
              ≡ (err c, close_sections R N D pa none v) =
            ground (arith, e) in
          rw run (omega (arith, close_sections-count O pa none v, k))

  -- An initialization that succeeds leaves the sections of its `struct nvram` open, and no other; one
  -- that fails leaves none open.
  pub opened-Balanced :
      (section_a section_b : Option Bytes) (list : Entries) (w : World)
      → Balanced (O.count w) (v2_init R N D section_a section_b list w)
  unfolding v2_init Balanced
  opened-Balanced section_a section_b list w =
      let body : Io World (Nvram R N D × Entries) = init_a R N D section_a section_b list in
      elim (Bool-cases (R.malloc nvram_size w).0) [
        | inl done ↦
            rw (>>=-ok (allocate R nvram_size) (λ _. body) w (allocate-ok R nvram_size w done)) (
              init_a-Balanced (O.count w) section_a section_b list (R.malloc nvram_size w).1
                (O.count-malloc nvram_size w))
        | inr failed ↦
            rw (>>=-err (allocate R nvram_size) (λ _. body) w (allocate-err R nvram_size w failed))
              (O.count-malloc nvram_size w)
      ]

  -- After an initialization and `v2_close` as many sections are open as before.
  pub opened_closed :
      (section_a section_b : Option Bytes) (list filled : Entries) (nvram : Nvram R N D)
      (w v : World)
      → v2_init R N D section_a section_b list w ≡ (ok (nvram, filled), v)
      → O.count (v2_close R N D nvram v) ≡ O.count w
  unfolding v2_close Balanced
  opened_closed section_a section_b list filled nvram w v e =
      let open_now : O.count v ≡ O.count w + opened nvram.priv_a + opened nvram.priv_b =
        rw e at (opened-Balanced section_a section_b list w) in
      omega (arith, close_sections-count O nvram.priv_a nvram.priv_b v, open_now)

-- ===== src/V2/Untracked.antt =====
-- An initialization over the device that counts, without its count.
use nvram.Base.{
  ℕ, ◌≡◌, refl, sym, ap, ◌∙◌, arith, Option, none, Bytes, Result, ok, err, Io, >>=-ok, >>=-err,
  Io-cases, inl, inr,
}
use nvram.Entry.{Entries, Runtime, allocate}
use nvram.Device.{Device}
use nvram.V2.{
  Libnvram, Nvram, nvram_size, close_sections, init_and_read, deserialize_active, load, init_b,
  init_a, v2_init, v2_close,
}
use nvram.V2.Tracked.{tracked_runtime, tracked_library, tracked}
use nvram.V2.Tracked.{tracked_runtime, tracked_library, tracked}
use nvram.V2.Agreement.{
  strip, Agrees, if-Agrees, allocate-Agrees, init_and_read_same, close_sections_same,
}

module _ {World : Type 0} (R : Runtime World) (N : Libnvram World) (D : Device World) where
  abbrev R' : Runtime (World × ℕ)
  R' = tracked_runtime R

  abbrev N' : Libnvram (World × ℕ)
  N' = tracked_library N

  abbrev D' : Device (World × ℕ)
  D' = tracked D

  deserialize_active-Agrees :
      (t : N.Transaction) (oa ob : Option Bytes) (list : Entries)
      → Agrees (deserialize_active R' N' D' t oa ob list) (deserialize_active R N D t oa ob list)
  unfolding deserialize_active
  deserialize_active-Agrees t oa ob list =
      if-Agrees (N.active_a t) (record { at = λ w. refl })
        (if-Agrees (N.active_b t) (record { at = λ w. refl }) (record { at = λ w. refl }))

  -- `struct nvram` without the count.
  abbrev pub untracked : Nvram R' N' D' → Nvram R N D
  untracked nvram = record { trans = nvram.trans; priv_a = nvram.priv_a; priv_b = nvram.priv_b }

  abbrev pub untracked_result : Result (Nvram R' N' D' × Entries) → Result (Nvram R N D × Entries)
  untracked_result (ok (nvram, list)) = ok (untracked nvram, list)
  untracked_result (err c) = err c

  -- The result and the state of an initialization, without the count.
  abbrev pub untracked_run :
      Result (Nvram R' N' D' × Entries) × (World × ℕ) → Result (Nvram R N D × Entries) × World
  untracked_run r = (untracked_result r.0, r.1.0)

  load_same :
      (pa pb : Option D.Priv) (oa ob : Option Bytes) (list : Entries) (w : World × ℕ)
      → untracked_run (load R' N' D' pa pb oa ob list w) ≡ load R N D pa pb oa ob list w.0
  unfolding load
  load_same pa pb oa ob list w =
      let t = N.init_transaction oa ob in
      let agrees = (deserialize_active-Agrees t oa ob list).at w in
      elim (Io-cases (deserialize_active R' N' D' t oa ob list) w) [
        | inl (filled, v, e) ↦
            let e' : deserialize_active R N D t oa ob list w.0 ≡ (ok filled, v.0) =
              sym agrees ∙ ap strip e in
            let run' : load R' N' D' pa pb oa ob list w
                ≡ (ok (record { trans = t; priv_a = pa; priv_b = pb }, filled), v) =
              ground (arith, e) in
            let run : load R N D pa pb oa ob list w.0
                ≡ (ok (record { trans = t; priv_a = pa; priv_b = pb }, filled), v.0) =
              ground (arith, e') in
            rw (run', run) refl
        | inr (c, v, e) ↦
            let e' : deserialize_active R N D t oa ob list w.0 ≡ (err c, v.0) =
              sym agrees ∙ ap strip e in
            let run' : load R' N' D' pa pb oa ob list w ≡ (err c, close_sections R' N' D' pa pb v) =
              ground (arith, e) in
            let run : load R N D pa pb oa ob list w.0 ≡ (err c, close_sections R N D pa pb v.0) =
              ground (arith, e') in
            rw (run', run) (ap (λ u. (err c, u)) (close_sections_same R N D pa pb v))
      ]

  init_b_same :
      (pa : Option D.Priv) (oa section : Option Bytes) (list : Entries) (w : World × ℕ)
      → untracked_run (init_b R' N' D' pa oa section list w) ≡ init_b R N D pa oa section list w.0
  unfolding init_b
  init_b_same pa oa section list w = by_result (init_and_read R' N' D' section w) refl
    where
      by_result :
          (r : (Option D.Priv × Result (Option Bytes)) × (World × ℕ))
          → init_and_read R' N' D' section w ≡ r
          → untracked_run (init_b R' N' D' pa oa section list w)
            ≡ init_b R N D pa oa section list w.0
      by_result ((pb, ok ob), v) e =
          let e' : init_and_read R N D section w.0 ≡ ((pb, ok ob), v.0) =
            sym (init_and_read_same R N D section w) ∙ ap strip e in
          let run' : init_b R' N' D' pa oa section list w ≡ load R' N' D' pa pb oa ob list v =
            ground (arith, e) in
          let run : init_b R N D pa oa section list w.0 ≡ load R N D pa pb oa ob list v.0 =
            ground (arith, e') in
          rw (run', run) (load_same pa pb oa ob list v)
      by_result ((pb, err c), v) e =
          let e' : init_and_read R N D section w.0 ≡ ((pb, err c), v.0) =
            sym (init_and_read_same R N D section w) ∙ ap strip e in
          let run' : init_b R' N' D' pa oa section list w
              ≡ (err c, close_sections R' N' D' pa pb v) =
            ground (arith, e) in
          let run : init_b R N D pa oa section list w.0 ≡ (err c, close_sections R N D pa pb v.0) =
            ground (arith, e') in
          rw (run', run) (ap (λ u. (err c, u)) (close_sections_same R N D pa pb v))

  init_a_same :
      (section_a section_b : Option Bytes) (list : Entries) (w : World × ℕ)
      → untracked_run (init_a R' N' D' section_a section_b list w)
        ≡ init_a R N D section_a section_b list w.0
  unfolding init_a
  init_a_same section_a section_b list w = by_result (init_and_read R' N' D' section_a w) refl
    where
      by_result :
          (r : (Option D.Priv × Result (Option Bytes)) × (World × ℕ))
          → init_and_read R' N' D' section_a w ≡ r
          → untracked_run (init_a R' N' D' section_a section_b list w)
            ≡ init_a R N D section_a section_b list w.0
      by_result ((pa, ok oa), v) e =
          let e' : init_and_read R N D section_a w.0 ≡ ((pa, ok oa), v.0) =
            sym (init_and_read_same R N D section_a w) ∙ ap strip e in
          let run' : init_a R' N' D' section_a section_b list w
              ≡ init_b R' N' D' pa oa section_b list v =
            ground (arith, e) in
          let run : init_a R N D section_a section_b list w.0
              ≡ init_b R N D pa oa section_b list v.0 =
            ground (arith, e') in
          rw (run', run) (init_b_same pa oa section_b list v)
      by_result ((pa, err c), v) e =
          let e' : init_and_read R N D section_a w.0 ≡ ((pa, err c), v.0) =
            sym (init_and_read_same R N D section_a w) ∙ ap strip e in
          let run' : init_a R' N' D' section_a section_b list w
              ≡ (err c, close_sections R' N' D' pa none v) =
            ground (arith, e) in
          let run : init_a R N D section_a section_b list w.0
              ≡ (err c, close_sections R N D pa none v.0) =
            ground (arith, e') in
          rw (run', run) (ap (λ u. (err c, u)) (close_sections_same R N D pa none v))

  pub v2_init_same :
      (section_a section_b : Option Bytes) (list : Entries) (w : World × ℕ)
      → untracked_run (v2_init R' N' D' section_a section_b list w)
        ≡ v2_init R N D section_a section_b list w.0
  unfolding v2_init
  v2_init_same section_a section_b list w =
      let body : Io World (Nvram R N D × Entries) = init_a R N D section_a section_b list in
      let body' : Io (World × ℕ) (Nvram R' N' D' × Entries) =
        init_a R' N' D' section_a section_b list in
      elim (Io-cases (allocate R' nvram_size) w) [
        | inl (t, v, e) ↦
            let e' : allocate R nvram_size w.0 ≡ (ok t, v.0) =
              sym ((allocate-Agrees R N D nvram_size).at w) ∙ ap strip e in
            rw
              (
                >>=-ok (allocate R' nvram_size) (λ _. body') w e,
                >>=-ok (allocate R nvram_size) (λ _. body) w.0 e',
              )
              (init_a_same section_a section_b list v)
        | inr (c, v, e) ↦
            let e' : allocate R nvram_size w.0 ≡ (err c, v.0) =
              sym ((allocate-Agrees R N D nvram_size).at w) ∙ ap strip e in
            rw
              (
                >>=-err (allocate R' nvram_size) (λ _. body') w e,
                >>=-err (allocate R nvram_size) (λ _. body) w.0 e',
              )
              refl
      ]

  -- `struct nvram` over the device with the count.
  abbrev pub counted : Nvram R N D → Nvram R' N' D'
  counted nvram = record { trans = nvram.trans; priv_a = nvram.priv_a; priv_b = nvram.priv_b }

  pub untracked_result-ok :
      (r : Result (Nvram R' N' D' × Entries)) (nvram : Nvram R N D) (filled : Entries)
      → untracked_result r ≡ ok (nvram, filled)
      → r ≡ ok (counted nvram, filled)
  untracked_result-ok (ok (nvram', list)) nvram filled e =
      ap
        (λ (q : Result (Nvram R N D × Entries)). elim q [
          | ok (x, l) ↦ ok (counted x, l)
          | err c ↦ err c
        ])
        e
  untracked_result-ok (err c) nvram filled e = cc e

  pub v2_close_same :
      (nvram : Nvram R N D) (w : World × ℕ)
      → (v2_close R' N' D' (counted nvram) w).0 ≡ v2_close R N D nvram w.0
  unfolding v2_close
  v2_close_same nvram w = close_sections_same R N D nvram.priv_a nvram.priv_b w

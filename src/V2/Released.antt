-- ===== src/V2/Released.antt =====
-- The sections that `v2_init` and `v2_close` leave open, over any device: its open sections are counted
-- beside its states, and the calls are the same as without the count.
use nvram.Base.{ℕ, ◌≡◌, ap, ap₂, ◌∙◌, Option, Bytes, Result, ok}
use nvram.Entry.{Entries, Runtime}
use nvram.Device.{Device}
use nvram.V2.{Libnvram, Nvram, v2_init, v2_close}
use nvram.V2.Tracked.{tracked_runtime, tracked_library, tracked, tracked-Opened}
use nvram.V2.Untracked.{counted, untracked_run, untracked_result-ok, v2_init_same, v2_close_same}
use nvram.V2.Balance.{Balanced, opened-Balanced, opened_closed}

module _ {World : Type 0} (R : Runtime World) (N : Libnvram World) (D : Device World) where
  -- Over any device: with the count beside the state the initialization has the result and the state
  -- that it has without it; one that succeeds has opened the sections of its `struct nvram`, and has no
  -- other open; one that fails has closed each section that it has opened.
  pub v2_init-Balanced :
      (section_a section_b : Option Bytes) (list : Entries) (w : World) (n : ℕ)
      → (untracked_run R N D (
            v2_init
              (tracked_runtime R)
              (tracked_library N)
              (tracked D)
              section_a
              section_b
              list
              (w, n))
          ≡ v2_init R N D section_a section_b list w)
        × Balanced (tracked-Opened R N D) n (
            v2_init
              (tracked_runtime R)
              (tracked_library N)
              (tracked D)
              section_a
              section_b
              list
              (w, n))
  v2_init-Balanced section_a section_b list w n = (
    v2_init_same R N D section_a section_b list (w, n),
    opened-Balanced (tracked-Opened R N D) section_a section_b list (w, n),
  )

  -- Over any device, where an initialization succeeds: with the count beside the state it gives the
  -- same `struct nvram`, list and state, and `v2_close` behind it leaves the state that it leaves
  -- without the count, with each section closed that the initialization has opened.
  pub v2_close-v2_init :
      (section_a section_b : Option Bytes) (list filled : Entries) (nvram : Nvram R N D)
      (w v : World) (n : ℕ)
      → v2_init R N D section_a section_b list w ≡ (ok (nvram, filled), v)
      → (k : ℕ) × (v2_init
            (tracked_runtime R)
            (tracked_library N)
            (tracked D)
            section_a
            section_b
            list
            (w, n)
          ≡ (ok (counted R N D nvram, filled), (v, k)))
        × (v2_close (tracked_runtime R) (tracked_library N) (tracked D) (counted R N D nvram) (v, k)
            ≡ (v2_close R N D nvram v, n))
  v2_close-v2_init section_a section_b list filled nvram w v n e =
      let r =
        v2_init (tracked_runtime R) (tracked_library N) (tracked D) section_a section_b list
          (w, n) in
      let same_run : untracked_run R N D r ≡ (ok (nvram, filled), v) =
        v2_init_same R N D section_a section_b list (w, n) ∙ e in
      let result : r.0 ≡ ok (counted R N D nvram, filled) =
        untracked_result-ok R N D r.0 nvram filled
          (ap (λ (x : Result (Nvram R N D × Entries) × World). x.0) same_run) in
      let state : r.1 ≡ (v, r.1.1) =
        ap (λ (x : Result (Nvram R N D × Entries) × World). (x.1, r.1.1)) same_run in
      let run : r ≡ (ok (counted R N D nvram, filled), (v, r.1.1)) =
        ap₂ (λ x y. (x, y)) result state in
      let closed =
        opened_closed (tracked-Opened R N D) section_a section_b list filled (counted R N D nvram)
          (w, n) (v, r.1.1) run in
      (r.1.1, run, ap₂ (λ x y. (x, y)) (v2_close_same R N D nvram (v, r.1.1)) closed)

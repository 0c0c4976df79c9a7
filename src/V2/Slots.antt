-- ===== src/V2/Slots.antt =====
-- Initialization over one section or two.
use nvram.Base.{
  ◌≡◌, ◌⊎◌, inl, inr, refl, true, Option, some, none, [], arith, Bytes, Result, ok, err, Io, drop,
  Bool-cases, >>=-ok, >>=-err, enomem,
}
use nvram.Entry.{Entries, Runtime, allocate}
use nvram.Device.{Device, Storage}
use nvram.V2.{
  Libnvram, Nvram, nvram_size, init_and_read, load, init_b, init_a, v2_init, close_sections,
  deserialize_active, data_of,
}
use nvram.V2.Laws.{Steady, LibnvramLaws, contents, Named}
use nvram.V2.Restart.{allocate-Yields, init_and_read-Both}

-- A section that is not used, or its name and what it holds.
pub data Slot : Type 0 where
  absent : Slot
  holding : Bytes → Bytes → Slot

abbrev pub name_of : Slot → Option Bytes
name_of absent = none
name_of (holding s x) = some s

module _ {World : Type 0} (R : Runtime World) (N : Libnvram World) (D : Device World) where
  -- A list with the values of one that has `P`, or the memory ran out.
  unfoldable pub Loaded : (Entries → Type 0) → Result (Nvram R N D × Entries) × World → Type 0
  Loaded P (ok r, v) = (l : Entries) × P l × ((k : Bytes) → (R.list_get r.1 k ≡ R.list_get l k))
  Loaded P (err c, v) = c ≡ enomem

module _ {World : Type 0} {R : Runtime World} (N : Libnvram World) {D : Device World}
    {S : Storage R D} (K : Steady S) where
  abbrev pub found : Slot → Option Bytes
  found absent = none
  found (holding s x) = contents N x

  abbrev pub Held : Slot → World → Type 0
  Held absent w = Unit {0}
  Held (holding s x) w = S.Holds s x w

  abbrev pub IsNamed : Slot → Type 0
  IsNamed absent = Unit {0}
  IsNamed (holding s x) = Named N s x

  init_and_read-slot :
      (a o : Slot) (w : World)
      → IsNamed a
      → Held a w
      → Held o w
      → ((q : Option D.Priv) × (v : World) × (init_and_read R N D (name_of a) w
            ≡ ((q, ok (found a)), v))
          × Held o v)
        ⊎ ((q : Option D.Priv) × (v : World) × (init_and_read R N D (name_of a) w
              ≡ ((q, err enomem), v)))
  unfolding init_and_read
  init_and_read-slot absent o w named h k = inl (none, w, refl, k)
  init_and_read-slot (holding s x) absent w named h k =
      elim (init_and_read-Both N K {s = s} {x = x} {t = s} {y = x} w named (h, h)) [
        | inl (p, v, e, q) ↦ inl (some p, v, e, tt)
        | inr (q, v, e) ↦ inr (q, v, e)
      ]
  init_and_read-slot (holding s x) (holding t y) w named h k =
      elim (init_and_read-Both N K {s = s} {x = x} {t = t} {y = y} w named (h, k)) [
        | inl (p, v, e, q) ↦ inl (some p, v, e, q.1)
        | inr (q, v, e) ↦ inr (q, v, e)
      ]

  -- The sections have been read, or the memory ran out.
  abbrev Starts :
      Option Bytes → Option Bytes → Entries → Result (Nvram R N D × Entries) × World → Type 0
  Starts oa ob list r =
      ((pa : Option D.Priv) × (pb : Option D.Priv) × (v : World) × (r
          ≡ load R N D pa pb oa ob list v))
      ⊎ ((v : World) × (r ≡ (err enomem, v)))

  init_b-Starts :
      (pa : Option D.Priv) (oa : Option Bytes) (b : Slot) (list : Entries) (w : World)
      → IsNamed b
      → Held b w
      → Starts oa (found b) list (init_b R N D pa oa (name_of b) list w)
  unfolding init_b
  init_b-Starts pa oa b list w named h = elim (init_and_read-slot b b w named h h) [
    | inl (pb, v, e, _) ↦ inl (pa, pb, v, ground (arith, e))
    | inr (q, v, e) ↦ inr (close_sections R N D pa q v, ground (arith, e))
  ]

  init_a-Starts :
      (a b : Slot) (list : Entries) (w : World)
      → IsNamed a
      → IsNamed b
      → Held a w
      → Held b w
      → Starts (found a) (found b) list (init_a R N D (name_of a) (name_of b) list w)
  unfolding init_a
  init_a-Starts a b list w named_a named_b h k = elim (init_and_read-slot a b w named_a h k) [
    | inl (pa, v, e, q) ↦
        let step : init_a R N D (name_of a) (name_of b) list w
            ≡ init_b R N D pa (found a) (name_of b) list v =
          ground (arith, e) in
        rw step (init_b-Starts pa (found a) b list v named_b q)
    | inr (q, v, e) ↦ inr (close_sections R N D q none v, ground (arith, e))
  ]

  Held-malloc : (a : Slot) (w : World) → Held a w → Held a (R.malloc nvram_size w).1
  Held-malloc absent w h = tt
  Held-malloc (holding s x) w h = S.malloc-Holds nvram_size s x w h

  v2_init-Starts :
      (a b : Slot) (list : Entries) (w : World)
      → IsNamed a
      → IsNamed b
      → Held a w
      → Held b w
      → Starts (found a) (found b) list (v2_init R N D (name_of a) (name_of b) list w)
  unfolding v2_init
  v2_init-Starts a b list w named_a named_b h k =
      let body : Io World (Nvram R N D × Entries) = init_a R N D (name_of a) (name_of b) list in
      elim (allocate-Yields R nvram_size w (λ v. Held a v × Held b v)
        (Held-malloc a w h, Held-malloc b w k)) [
          | inl (v, e, q) ↦
              rw (>>=-ok (allocate R nvram_size) (λ _. body) w e)
                (init_a-Starts a b list v named_a named_b q.0 q.1)
          | inr (v, e) ↦ inr (v, >>=-err (allocate R nvram_size) (λ _. body) w e)
        ]

  module _ (laws : LibnvramLaws R N) where
    -- Every image that one of the buffers is has `P`.
    abbrev pub Only : (Entries → Type 0) → Option Bytes → Option Bytes → Type 0
    Only P oa ob =
        (l : Entries) (buf : Bytes) (hdr : N.Header)
        → (oa ≡ some buf) ⊎ (ob ≡ some buf)
        → laws.Image l buf hdr
        → P l

    -- One of the buffers is an image.
    abbrev pub OneImage : Option Bytes → Option Bytes → Type 0
    OneImage oa ob =
        (l : Entries) × (buf : Bytes) × (hdr : N.Header) × laws.Image l buf hdr
        × ((oa ≡ some buf) ⊎ (ob ≡ some buf))

    load-Image :
        (P : Entries → Type 0) (pa pb : Option D.Priv) (oa ob : Option Bytes) (w : World)
        (l : Entries) (buf : Bytes) (hdr : N.Header)
        → P l
        → laws.Image l buf hdr
        → deserialize_active R N D (N.init_transaction oa ob) oa ob [] w
          ≡ N.deserialize [] (drop N.header_len buf) hdr w
        → Loaded R N D P (load R N D pa pb oa ob [] w)
    unfolding load Loaded
    load-Image P pa pb oa ob w l buf hdr p image e = elim (laws.deserialize-Image w image) [
      | inl (filled, v, done, values) ↦
          let run : load R N D pa pb oa ob [] w ≡ (
            ok (record { trans = N.init_transaction oa ob; priv_a = pa; priv_b = pb }, filled),
            v,
          ) =
            ground (arith, e, done) in
          rw run (l, p, values)
      | inr (v, failed) ↦
          let run : load R N D pa pb oa ob [] w ≡ (err enomem, close_sections R N D pa pb v) =
            ground (arith, e, failed) in
          rw run refl
    ]

    load-Loaded :
        (P : Entries → Type 0) (pa pb : Option D.Priv) (oa ob : Option Bytes) (w : World)
        → Only P oa ob
        → OneImage oa ob
        → Loaded R N D P (load R N D pa pb oa ob [] w)
    unfolding deserialize_active data_of
    load-Loaded P pa pb oa ob w only (_, _, _, image, where_is) =
        let t = N.init_transaction oa ob in
        elim (Bool-cases (N.active_a t)) [
          | inl is_a ↦
              let (buf, l, is_buf, image_a) = laws.active_a_sound oa ob is_a in
              load-Image P pa pb oa ob w l buf (N.header_a t) (only l buf _ (inl is_buf) image_a)
                image_a (rw (is_a, is_buf) refl)
          | inr no_a ↦
              let is_b : N.active_b t ≡ true = elim (laws.some_active oa ob image where_is) [
                | inl is_a ↦ cc
                | inr is_b ↦ is_b
              ] in
              let (buf, l, is_buf, image_b) = laws.active_b_sound oa ob is_b in
              load-Image P pa pb oa ob w l buf (N.header_b t) (only l buf _ (inr is_buf) image_b)
                image_b (rw (no_a, is_b, is_buf) refl)
        ]

    -- Where each section that is used can be read whole and some section holds an image, an
    -- initialization gives the values of such an image, or the memory ran out.
    pub v2_init-Loaded :
        (P : Entries → Type 0) (a b : Slot) (w : World)
        → IsNamed a
        → IsNamed b
        → Held a w
        → Held b w
        → Only P (found a) (found b)
        → OneImage (found a) (found b)
        → Loaded R N D P (v2_init R N D (name_of a) (name_of b) [] w)
    unfolding Loaded
    v2_init-Loaded P a b w named_a named_b h k only one =
        elim (v2_init-Starts a b [] w named_a named_b h k) [
          | inl (pa, pb, v, e) ↦ rw e (load-Loaded P pa pb (found a) (found b) v only one)
          | inr (v, e) ↦ rw e refl
        ]

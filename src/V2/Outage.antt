-- ===== src/V2/Outage.antt =====
-- The restart behind a commit during which the power has failed.
use nvram.Base.{◌≡◌, ◌≢◌, ◌⊎◌, inl, inr, some, [], Bytes, Bool-cases}
use nvram.Entry.{Entries, Runtime}
use nvram.Device.{Device, Storage}
use nvram.V2.{Libnvram, v2_init}
use nvram.V2.Laws.{Steady, LibnvramLaws, contents, Named}
use nvram.V2.Slots.{holding, Loaded, v2_init-Loaded}
use nvram.V2.Recovery.{contents-Image}
use nvram.V2.PowerFail.{Tearing, Interrupted, two-Interrupted, section_ne, first, second, targets}

module _ {World : Type 0} {R : Runtime World} {N : Libnvram World} {D : Device World}
    {S : Storage R D} (laws : LibnvramLaws R N) (K : Steady S) (T : Tearing S) where
  -- A list of which one of two sections, that hold `x` and `y`, has an image.
  abbrev pub InSection : Bytes → Bytes → Entries → Type 0
  InSection x y l =
      (buf : Bytes) × (hdr : N.Header) × laws.Image l buf hdr
      × ((contents N x ≡ some buf) ⊎ (contents N y ≡ some buf))

  -- What is known of one of the sections is known of the section A or B that it is.
  held_by :
      (op : N.Operation) (a b : D.Priv) (x y z : Bytes) (v : World)
      → S.Holds (D.section a) x v
      → S.Holds (D.section b) y v
      → S.Holds (D.section (first R N D op a b)) z v ⊎ S.Holds (D.section (second R N D op a b)) z v
      → (x ≡ z) ⊎ (y ≡ z)
  held_by op a b x y z v hx hy h = elim (Bool-cases (N.writes_a op)) [
    | inl yes_a ↦ elim h [
      | inl k ↦ inl (T.Holds_unique (D.section a) x z v hx (rw yes_a at k))
      | inr k ↦ inr (T.Holds_unique (D.section b) y z v hy (rw yes_a at k))
    ]
    | inr no_a ↦ elim h [
      | inl k ↦ inr (T.Holds_unique (D.section b) y z v hy (rw no_a at k))
      | inr k ↦ inl (T.Holds_unique (D.section a) x z v hx (rw no_a at k))
    ]
  ]

  seen_whole :
      (x y z : Bytes) (l : Entries) (hdr : N.Header)
      → laws.Image l z hdr
      → (x ≡ z) ⊎ (y ≡ z)
      → (contents N x ≡ some z) ⊎ (contents N y ≡ some z)
  seen_whole x y z l hdr image (inl e) = inl (rw e (contents-Image laws image))
  seen_whole x y z l hdr image (inr e) = inr (rw e (contents-Image laws image))

  -- The power fails while a commit writes the image of a list to two sections of different names, the
  -- second of which held an image. Where each section can be read whole after that, the restart gives
  -- the values of a list of which one of the sections has a whole image, or the memory ran out.
  pub v2_init-power_fail :
      (a b : D.Priv) (op : N.Operation) (old new : Entries) (old_buf buf x y : Bytes)
      (old_hdr hdr : N.Header) (u v : World)
      → D.section a ≢ D.section b
      → laws.Image old old_buf old_hdr
      → laws.Image new buf hdr
      → S.Holds (D.section (second R N D op a b)) old_buf u
      → Interrupted R N D T buf (targets R N D op a b) u v
      → S.Holds (D.section a) x v
      → S.Holds (D.section b) y v
      → Named N (D.section a) x
      → Named N (D.section b) y
      → Loaded R N D (InSection x y) (v2_init R N D (some (D.section a)) (some (D.section b)) [] v)
  v2_init-power_fail a b op old new old_buf buf x y old_hdr hdr u v ne was is before cut hx hy nx
        ny =
      v2_init-Loaded N K laws (InSection x y) (holding (D.section a) x) (holding (D.section b) y) v
        nx ny hx hy (λ l c h where_is image. (c, h, image, where_is))
        (elim (two-Interrupted R N D T (first R N D op a b) (second R N D op a b) buf old_buf
          (N.resets_counter op) (section_ne R N D T op a b ne) cut before) [
            | inl kept ↦ (
              old,
              old_buf,
              old_hdr,
              was,
              seen_whole x y old_buf old old_hdr was
                  (held_by op a b x y old_buf v hx hy (inr kept)),
            )
            | inr written ↦ (
              new,
              buf,
              hdr,
              is,
              seen_whole x y buf new hdr is (held_by op a b x y buf v hx hy (inl written)),
            )
          ])

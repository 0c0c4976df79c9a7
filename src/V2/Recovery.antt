-- ===== src/V2/Recovery.antt =====
-- Commits and the restarts behind them.
use nvram.Base.{
  ◌+◌, ◌<◌, ◌≡◌, inl, inr, refl, sym, ap, ◌∙◌, Bool, true, false, not, Option, some, none, [],
  arith, leb, take_all, length, Bytes, Result, ok, Io, pure, ◌>>=◌, >>=-eq-ok,
}
use nvram.Entry.{Entries, Runtime, allocate}
use nvram.Device.{Device, Storage}
use nvram.V2.{
  Libnvram, Nvram, destroy, close_sections, v2_close, v2_init, write_sections, commit_serialized,
  v2_commit,
}
use nvram.V2.Laws.{Steady, LibnvramLaws, contents, Readable, Named}
use nvram.V2.Slots.{absent, holding, Loaded, v2_init-Loaded}

-- One of the two, and only that.
abbrev pub when : {A : Type 0} → Bool → A → Option A
when true x = some x
when false x = none

-- A list with the same values.
abbrev pub SameValues : {World : Type 0} → Runtime World → Entries → Entries → Type 0
SameValues R list l = (k : Bytes) → (R.list_get l k ≡ R.list_get list k)

module _ {World : Type 0} {R : Runtime World} {N : Libnvram World} (laws : LibnvramLaws R N) where
  -- A section that holds an image is read whole.
  pub contents-Image :
      {l : Entries} {buf : Bytes} {hdr : N.Header}
      → laws.Image l buf hdr
      → contents N buf ≡ some buf
  unfolding contents
  contents-Image {l} {buf} {hdr} image =
      let long : leb N.header_len (length buf) ≡ true = ground (arith, laws.length_is image) in
      rw (long, laws.header_valid image)
        (ap some (take_all (N.header_len + N.len hdr) buf (omega (arith, laws.length_is image))))

  Image-Readable :
      {l : Entries} {buf : Bytes} {hdr : N.Header} → laws.Image l buf hdr → Readable N buf
  Image-Readable {l} {buf} {hdr} image = record {
    enough = λ hdr' _ valid.
        let e : hdr ≡ hdr' = cc (laws.header_valid image, valid) in
        rw (← e) (omega (arith, laws.length_is image));
  }

module _ {World : Type 0} {R : Runtime World} (N : Libnvram World) {D : Device World}
    (S : Storage R D) where
  v2_close-Holds :
      (nvram : Nvram R N D) (s x : Bytes) (w : World)
      → S.Holds s x w
      → S.Holds s x (v2_close R N D nvram w)
  unfolding v2_close close_sections destroy
  v2_close-Holds nvram s x w h = closed nvram.priv_b _ (closed nvram.priv_a w h)
    where
      closed : (p : Option D.Priv) (w : World) → S.Holds s x w → S.Holds s x (destroy R N D p w)
      closed none w h = h
      closed (some p) w h = S.destroy-Holds p s x w h

  write_single :
      (on_a : Bool) (p : D.Priv) (op : N.Operation) (buf : Bytes) (w : World)
      → write_sections R N D (when on_a p) (when (not on_a) p) op buf w ≡ D.write p buf w
  unfolding write_sections
  write_single true p op buf w = refl
  write_single false p op buf w = refl

  -- A commit to a single section has written the buffer to it last.
  v2_commit-Holds :
      (on_a : Bool) (nvram : Nvram R N D) (p : D.Priv) (list : Entries) (op : N.Operation)
      (hdr hdr' : N.Header) (buf : Bytes) (w : World) {nvram' : Nvram R N D} {v : World}
      → nvram.priv_a ≡ when on_a p
      → nvram.priv_b ≡ when (not on_a) p
      → N.next_transaction nvram.trans ≡ (op, hdr)
      → N.serialize list (N.serialize_size list) hdr ≡ some (buf, hdr')
      → v2_commit R N D nvram list w ≡ (ok nvram', v)
      → S.Holds (D.section p) buf v
  unfolding v2_commit commit_serialized
  v2_commit-Holds on_a nvram p list op hdr hdr' buf w {v = v} is_a is_b planned serialized h =
      let next : Nvram R N D = record nvram { trans = N.update_transaction nvram.trans op hdr' } in
      let write : Io World (Unit {0}) = write_sections R N D nvram.priv_a nvram.priv_b op buf in
      let (_, u, _, e) =
        >>=-eq-ok (allocate R (N.serialize_size list)) (λ _. write >>= λ _. pure next) w
          (rw (planned, serialized) at h) in
      let (_, x, wrote, last) = >>=-eq-ok write (λ _. pure next) u e in
      let same_world : x ≡ v = ap (λ (r : Result (Nvram R N D) × World). r.1) last in
      rw (← same_world)
        (S.write-Holds p buf u x (sym (write_single on_a p op buf u) ∙ (rw (is_a, is_b) at wrote)))

  module _ (laws : LibnvramLaws R N) (K : Steady S) where
    single-Loaded :
        (on_a : Bool) (s buf : Bytes) (list : Entries) (hdr : N.Header) (w : World)
        → 0 < length s
        → laws.Image list buf hdr
        → S.Holds s buf w
        → Loaded R N D (SameValues R list) (v2_init R N D (when on_a s) (when (not on_a) s) [] w)
    single-Loaded on_a s buf list hdr w pos image h = by_side on_a
      where
        named : Named N s buf
        named = record { name_pos = pos; readable = Image-Readable laws image }

        whole : contents N buf ≡ some buf
        whole = contents-Image laws image

        unique :
            (l : Entries) (b : Bytes) (hdr' : N.Header)
            → contents N buf ≡ some b
            → laws.Image l b hdr'
            → SameValues R list l
        unique l b hdr' e i =
            let same_buf : b ≡ buf = cc (e, whole) in laws.same_values (rw same_buf at i) image

        by_side :
            (on_a : Bool)
            → Loaded R N D
                (SameValues R list)
                (v2_init R N D (when on_a s) (when (not on_a) s) [] w)
        by_side true =
            v2_init-Loaded N K laws (SameValues R list) (holding s buf) absent w named tt h tt
              (λ l b hdr' where_is i. elim where_is [
                | inl e ↦ unique l b hdr' e i
                | inr e ↦ absurd (cc e)
              ])
              (list, buf, hdr, image, inl whole)
        by_side false =
            v2_init-Loaded N K laws (SameValues R list) absent (holding s buf) w tt named tt h
              (λ l b hdr' where_is i. elim where_is [
                | inl e ↦ absurd (cc e)
                | inr e ↦ unique l b hdr' e i
              ])
              (list, buf, hdr, image, inr whole)

    -- Over a device that keeps what is written, and with one section, A or B, that has a name, a list
    -- that serializes and whose commit succeeds is loaded again after a restart: each key has its
    -- value, or the memory ran out.
    pub v2_init-v2_commit :
        (on_a : Bool) (nvram : Nvram R N D) (p : D.Priv) (list : Entries) (op : N.Operation)
        (hdr hdr' : N.Header) (buf : Bytes) (w : World) {nvram' : Nvram R N D} {v : World}
        → nvram.priv_a ≡ when on_a p
        → nvram.priv_b ≡ when (not on_a) p
        → 0 < length (D.section p)
        → N.next_transaction nvram.trans ≡ (op, hdr)
        → N.serialize list (N.serialize_size list) hdr ≡ some (buf, hdr')
        → v2_commit R N D nvram list w ≡ (ok nvram', v)
        → Loaded R N D (SameValues R list) (
            v2_init R N D
              (when on_a (D.section p))
              (when (not on_a) (D.section p))
              []
              (v2_close R N D nvram' v))
    v2_init-v2_commit on_a nvram p list op hdr hdr' buf w {nvram'} {v} is_a is_b pos planned
          serialized h =
        single-Loaded on_a (D.section p) buf list hdr' (v2_close R N D nvram' v) pos
          (laws.serialize-Image list (N.serialize_size list) hdr hdr' buf serialized)
          (v2_close-Holds nvram' (D.section p) buf v
            (v2_commit-Holds on_a nvram p list op hdr hdr' buf w is_a is_b planned serialized h))

-- ===== src/V2/PowerFail.antt =====
-- What the two sections hold when the power fails during a commit.
use nvram.Base.{
  All, ◌≡◌, ◌≢◌, ◌⊎◌, inl, inr, refl, sym, Bool, true, false, some, List, [], ◌∷◌, Bytes, ok, Io,
  pure, ◌>>◌, if◌then◌else◌, >>=-first, >>=-cong, >>=-pure, Bool-cases,
}
use nvram.Entry.{Entries, Runtime, allocate}
use nvram.Device.{Device, Storage}
use nvram.V2.{Libnvram, Nvram, write_sections, commit_serialized, v2_commit}

-- What is relied on of a device when the power may fail: a write, whole or not, changes its own
-- section only, and a section holds one thing.
pub record Tearing {World : Type 0} {R : Runtime World} {D : Device World} (S : Storage R D)
    : Type 1 where
  -- the states in which a write may be interrupted
  pub Torn : D.Priv → World → World → Type 0
  pub write_other :
      (p : D.Priv) (b s x : Bytes) (w v : World)
      → D.write p b w ≡ (ok tt, v)
      → s ≢ D.section p
      → S.Holds s x w
      → S.Holds s x v
  pub torn_other :
      (p : D.Priv) (s x : Bytes) (w v : World)
      → Torn p w v
      → s ≢ D.section p
      → S.Holds s x w
      → S.Holds s x v
  pub Holds_unique : (s x y : Bytes) (w : World) → S.Holds s x w → S.Holds s y w → x ≡ y

module _ {World : Type 0} (R : Runtime World) (N : Libnvram World) (D : Device World) where
  -- The section that is written first, and the other.
  abbrev pub first : N.Operation → D.Priv → D.Priv → D.Priv
  first op a b = if N.writes_a op then a else b

  abbrev pub second : N.Operation → D.Priv → D.Priv → D.Priv
  second op a b = if N.writes_a op then b else a

  -- The sections that are written, in order.
  abbrev pub targets : N.Operation → D.Priv → D.Priv → List D.Priv
  targets op a b = first op a b ∷ (if N.resets_counter op then second op a b ∷ [] else [])

  unfoldable pub write_each : List D.Priv → Bytes → Io World (Unit {0})
  write_each [] buf = pure tt
  write_each (p ∷ ps) buf = D.write p buf >> write_each ps buf

  write_sections-targets :
      (a b : D.Priv) (op : N.Operation) (buf : Bytes) (w : World)
      → write_sections R N D (some a) (some b) op buf w ≡ write_each (targets op a b) buf w
  unfolding write_sections write_each
  write_sections-targets a b op buf w =
      >>=-cong (D.write (first op a b) buf) _ _ w (λ _ v. later (N.resets_counter op) v)
    where
      later :
          (reset : Bool) (v : World)
          → (if reset then D.write (second op a b) buf else pure tt) v
            ≡ write_each (if reset then second op a b ∷ [] else []) buf v
      later true v = sym (>>=-pure (D.write (second op a b) buf) v)
      later false v = refl

  module _ {S : Storage R D} (T : Tearing S) where
    -- The states in which the power may fail while sections are written in order.
    pub data Interrupted (buf : Bytes) : List D.Priv → World → World → Type 0 where
      at_rest : {ps : List D.Priv} {w : World} → Interrupted buf ps w w
      torn :
          {p : D.Priv} {ps : List D.Priv} {w v : World}
          → T.Torn p w v
          → Interrupted buf (p ∷ ps) w v
      next :
          {p : D.Priv} {ps : List D.Priv} {w u v : World}
          → D.write p buf w ≡ (ok tt, u)
          → Interrupted buf ps u v
          → Interrupted buf (p ∷ ps) w v

    -- What a section holds that is not among those written.
    Interrupted_other :
        (s x buf : Bytes) (ps : List D.Priv) {w v : World}
        → All (λ p. s ≢ D.section p) ps
        → Interrupted buf ps w v
        → S.Holds s x w
        → S.Holds s x v
    Interrupted_other s x buf ps ne at_rest h = h
    Interrupted_other s x buf (p ∷ ps) nes (torn t) h = T.torn_other p s x _ _ t nes.0 h
    Interrupted_other s x buf (p ∷ ps) nes (next e i) h =
        Interrupted_other s x buf ps nes.1 i (T.write_other p buf s x _ _ e nes.0 h)

    -- Of two sections one is written first; the other keeps what it holds, or the first has been
    -- written whole.
    pub two-Interrupted :
        (p q : D.Priv) (buf old : Bytes) (reset : Bool) {w v : World}
        → D.section p ≢ D.section q
        → Interrupted buf (p ∷ (if reset then q ∷ [] else [])) w v
        → S.Holds (D.section q) old w
        → S.Holds (D.section q) old v ⊎ S.Holds (D.section p) buf v
    two-Interrupted p q buf old reset ne at_rest h = inl h
    two-Interrupted p q buf old reset ne (torn t) h =
        inl (T.torn_other p (D.section q) old _ _ t (λ e. ne (sym e)) h)
    two-Interrupted p q buf old true ne (next e i) h =
        inr
          (Interrupted_other (D.section p) buf buf (q ∷ []) (ne, tt) i (S.write-Holds p buf _ _ e))
    two-Interrupted p q buf old false ne (next e i) h =
        inr (Interrupted_other (D.section p) buf buf [] tt i (S.write-Holds p buf _ _ e))

    pub section_ne :
        (op : N.Operation) (a b : D.Priv)
        → D.section a ≢ D.section b
        → D.section (first op a b) ≢ D.section (second op a b)
    section_ne op a b ne = elim (Bool-cases (N.writes_a op)) [
      | inl yes_a ↦ rw yes_a ne
      | inr no_a ↦ rw no_a (λ e. ne (sym e))
    ]

    -- With two sections of different names and a list that serializes, a commit writes the buffer to
    -- the section that the operation names, then to the other where the counter is reset. Wherever
    -- the power fails among these writes, the section that is not written first still holds what it
    -- held, or the first holds the new buffer.
    pub v2_commit-power_fail :
        (nvram : Nvram R N D) (a b : D.Priv) (list : Entries) (op : N.Operation)
        (hdr hdr' : N.Header) (buf old : Bytes) (w v : World)
        → nvram.priv_a ≡ some a
        → nvram.priv_b ≡ some b
        → D.section a ≢ D.section b
        → N.next_transaction nvram.trans ≡ (op, hdr)
        → N.serialize list (N.serialize_size list) hdr ≡ some (buf, hdr')
        → S.Holds (D.section (second op a b)) old w
        → Interrupted buf (targets op a b) (R.malloc (N.serialize_size list) w).1 v
        → (v2_commit R N D nvram list w
            ≡ (do
              allocate R (N.serialize_size list)
              write_each (targets op a b) buf
              pure (record nvram { trans = N.update_transaction nvram.trans op hdr' }))
                w)
          × (S.Holds (D.section (second op a b)) old v ⊎ S.Holds (D.section (first op a b)) buf v)
    unfolding v2_commit commit_serialized
    v2_commit-power_fail nvram a b list op hdr hdr' buf old w v is_a is_b ne planned serialized h
          i =
        (
          rw (planned, serialized, is_a, is_b)
              (>>=-cong (allocate R (N.serialize_size list)) _ _ w (λ _ v.
                >>=-first (write_sections R N D (some a) (some b) op buf)
                  (write_each (targets op a b) buf)
                  (λ _. pure (record {
                    trans = N.update_transaction nvram.trans op hdr';
                    priv_a = some a;
                    priv_b = some b;
                  }))
                  v (write_sections-targets a b op buf v))),
          two-Interrupted (first op a b) (second op a b) buf old (N.resets_counter op)
              (section_ne op a b ne) i
              (S.malloc-Holds (N.serialize_size list) (D.section (second op a b)) old w h),
        )

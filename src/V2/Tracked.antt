-- ===== src/V2/Tracked.antt =====
-- A device that counts its open sections, made of any device.
use nvram.Base.{ℕ, suc, ◌-◌, ◌≡◌, refl, sym, ap, ◌∙◌, Bytes, Result, ok, err, Io}
use nvram.Entry.{Runtime}
use nvram.Device.{Device}
use nvram.V2.{Libnvram}
use nvram.V2.Release.{Opened}

-- The call on a state that has a count beside it.
abbrev pub beside : {World A : Type 0} → Io World A → Io (World × ℕ) A
beside m w = let (r, v) = m w.0 in (r, (v, w.1))

abbrev pub tracked_runtime : {World : Type 0} → Runtime World → Runtime (World × ℕ)
tracked_runtime R = record {
  malloc = λ n w. let (done, v) = R.malloc n w.0 in (done, (v, w.1));
  list_get = R.list_get;
  list_set = λ l e. beside (R.list_set l e);
  list_remove = λ l k w. let (r, v) = R.list_remove l k w.0 in (r, (v, w.1));
}

abbrev pub tracked_library : {World : Type 0} → Libnvram World → Libnvram (World × ℕ)
tracked_library N = record {
  Header = N.Header;
  len = N.len;
  Transaction = N.Transaction;
  active_a = N.active_a;
  active_b = N.active_b;
  header_a = N.header_a;
  header_b = N.header_b;
  Operation = N.Operation;
  writes_a = N.writes_a;
  resets_counter = N.resets_counter;
  header_len = N.header_len;
  validate_header = N.validate_header;
  init_transaction = N.init_transaction;
  deserialize = λ list buf hdr. beside (N.deserialize list buf hdr);
  serialize_size = N.serialize_size;
  next_transaction = N.next_transaction;
  serialize = N.serialize;
  update_transaction = N.update_transaction;
}

abbrev after_init : {A : Type 0} → Result A → ℕ → ℕ
after_init (ok p) n = suc n
after_init (err c) n = n

-- An `init` that succeeds adds one, and each `destroy` takes one away.
abbrev pub tracked : {World : Type 0} → Device World → Device (World × ℕ)
tracked D = record {
  Priv = D.Priv;
  init = λ s w. let (r, v) = D.init s w.0 in (r, (v, after_init r w.1));
  destroy = λ p w. (D.destroy p w.0, w.1 - 1);
  size = λ p. beside (D.size p);
  read = λ p n. beside (D.read p n);
  write = λ p b. beside (D.write p b);
  section = D.section;
}

module _ {World : Type 0} (R : Runtime World) (N : Libnvram World) (D : Device World) where
  abbrev pub tracked-Opened : Opened (tracked_runtime R) (tracked_library N) (tracked D)
  tracked-Opened = record {
    count = λ w. w.1;
    count-init_ok = λ s p w v h. counted_ok s p w v h;
    count-init_err = λ s c w v h. counted_err s c w v h;
    count-destroy = λ p w. refl;
    count-size = λ p w. refl;
    count-read = λ p n w. refl;
    count-malloc = λ n w. refl;
    count-deserialize = λ list b hdr w. refl;
  }
    where
      counted_ok :
          (s : Bytes) (p : D.Priv) (w v : World × ℕ)
          → (tracked D).init s w ≡ (ok p, v)
          → v.1 ≡ suc w.1
      counted_ok s p w v h =
          let done : (D.init s w.0).0 ≡ ok p = ap (λ (r : Result D.Priv × (World × ℕ)). r.0) h in
          let now : after_init (D.init s w.0).0 w.1 ≡ v.1 =
            ap (λ (r : Result D.Priv × (World × ℕ)). r.1.1) h in
          sym now ∙ rw done refl

      counted_err :
          (s : Bytes) (c : ℕ) (w v : World × ℕ) → (tracked D).init s w ≡ (err c, v) → v.1 ≡ w.1
      counted_err s c w v h =
          let failed : (D.init s w.0).0 ≡ err c = ap (λ (r : Result D.Priv × (World × ℕ)). r.0) h in
          let now : after_init (D.init s w.0).0 w.1 ≡ v.1 =
            ap (λ (r : Result D.Priv × (World × ℕ)). r.1.1) h in
          sym now ∙ rw failed refl

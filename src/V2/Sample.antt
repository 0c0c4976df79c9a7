-- ===== src/V2/Sample.antt =====
-- A concrete library for the tests of the v2 format, whose buffers hold one entry: the number of
-- bytes behind it, the length of the key, the key and the value.
use nvram.Base.{
  ℕ, suc, ◌+◌, ◌-◌, ◌≤◌, ◌≡◌, ◌≢◌, inl, inr, refl, sym, ap, ◌∙◌, Bool, true, false, not, ◌&&◌,
  Option, some, none, [], ◌∷◌, ◌++◌, arith, ◌==◌, leb, same, same_iff, take, drop, take-append,
  drop-append, length-take, length-drop, take-append-drop, length, length-append, if◌then◌else◌,
  Bytes, ok, err, Io, einval, eio,
}
use nvram.Entry.{Entry, Entries}
use nvram.Samples.{Sections, runtime, memory-Storage, set, get}
use nvram.Device.{Device}
use nvram.V2.{Libnvram}
use nvram.V2.Laws.{LibnvramLaws, Steady}
use nvram.V2.PowerFail.{Tearing}

abbrev pub encode : Entry → Bytes
encode e = suc (length e.key + length e.value) ∷ length e.key ∷ e.key ++ e.value

abbrev decode : ℕ → Bytes → Entry
decode k rest = record { key = take k rest; value = drop k rest }

-- Whether a buffer is that of an entry.
abbrev good : Option Bytes → Bool
good none = false
good (some []) = false
good (some (n ∷ [])) = false
good (some (n ∷ k ∷ rest)) = (n == suc (length rest)) && leb k (length rest)

abbrev header : Option Bytes → ℕ
header none = 0
header (some []) = 0
header (some (n ∷ rest)) = n

abbrev read_entry : {World : Type 0} → Entries → Bytes → Io World Entries
read_entry list [] w = (err einval, w)
read_entry list (k ∷ rest) w = (ok (set list (decode k rest)), w)

abbrev write_entry : Entries → Option (Bytes × ℕ)
write_entry [] = none
write_entry (e ∷ []) = some (encode e, suc (length e.key + length e.value))
write_entry (e ∷ f ∷ l) = none

abbrev entries_size : Entries → ℕ
entries_size [] = 0
entries_size (e ∷ []) = length (encode e)
entries_size (e ∷ f ∷ l) = 0

abbrev first_byte : Bytes → Option ℕ
first_byte [] = none
first_byte (n ∷ b) = some n

-- A section without an entry is written first, and the counter is reset where both are.
abbrev pub library : {World : Type 0} → Libnvram World
library = record {
  Header = ℕ;
  len = λ n. n;
  Transaction = Option Bytes × Option Bytes;
  active_a = λ t. good t.0;
  active_b = λ t. good t.1;
  header_a = λ t. header t.0;
  header_b = λ t. header t.1;
  Operation = Bool × Bool;
  writes_a = λ op. op.0;
  resets_counter = λ op. op.1;
  header_len = 1;
  validate_header = first_byte;
  init_transaction = λ a b. (a, b);
  deserialize = λ list buf hdr. read_entry list buf;
  serialize_size = entries_size;
  next_transaction = λ t. ((not (good t.0), not (good t.0) && not (good t.1)), 0);
  serialize = λ list n hdr. write_entry list;
  update_transaction = λ t op hdr. t;
}

decode-encode : (e : Entry) → decode (length e.key) (e.key ++ e.value) ≡ e
decode-encode e = rw (take-append e.key e.value, drop-append e.key e.value) refl

-- The buffer of one entry.
abbrev Image : Entries → Bytes → ℕ → Type 0
Image l buf hdr =
    (e : Entry) × (l ≡ e ∷ []) × (buf ≡ encode e) × (hdr ≡ suc (length e.key + length e.value))

good-Image :
    (o : Option Bytes)
    → good o ≡ true
    → (buf : Bytes) × (l : Entries) × (o ≡ some buf) × Image l buf (header o)
good-Image none h = absurd (cc)
good-Image (some []) h = absurd (cc)
good-Image (some (n ∷ [])) h = absurd (cc)
good-Image (some (n ∷ k ∷ rest)) h =
    let n_is : n ≡ suc (length rest) = ground (arith, h) in
    let le : k ≤ length rest = ground (arith, h) in
    let front : length (take k rest) ≡ k = ground (arith, length-take k rest, le) in
    let back : length (drop k rest) ≡ length rest - k = length-drop k rest in
    let total : n ≡ suc (length (take k rest) + length (drop k rest)) =
      omega (arith, n_is, le, front, back) in
    (
      n ∷ k ∷ rest,
      decode k rest ∷ [],
      refl,
      (decode k rest, refl, cc (take-append-drop k rest), total),
    )

Image-good : (buf : Bytes) (l : Entries) (hdr : ℕ) → Image l buf hdr → good (some buf) ≡ true
Image-good buf l hdr (e, _, is, _) = rw is (ground (arith, length-append e.key e.value))

encoded_once :
    (l l' : Entries) (buf : Bytes) (hdr hdr' : ℕ) → Image l buf hdr → Image l' buf hdr' → l ≡ l'
encoded_once l l' buf hdr hdr' (e, l_is, is, _) (f, l'_is, is', _) =
    let same_code : encode e ≡ encode f = sym is ∙ is' in
    let key_len : length e.key ≡ length f.key = cc in
    let rest : e.key ++ e.value ≡ f.key ++ f.value = cc in
    let same_entry : e ≡ f = sym (decode-encode e) ∙ (rw (key_len, rest) refl ∙ decode-encode f) in
    rw (l_is, l'_is, same_entry) refl

pub library-LibnvramLaws : LibnvramLaws {World = Sections} runtime library
library-LibnvramLaws = record {
  Image = Image;
  serialize-Image = λ list n hdr hdr' buf h. serialized list h;
  length-serialize = λ list hdr hdr' buf h. whole_length list h;
  header_valid = λ i. rw i.2 (ap some (sym i.3));
  length_is = λ i. rw (i.2, i.3) (omega (arith, length-append i.0.key i.0.value));
  same_values = λ i j k. ap (λ l. get l k) (encoded_once _ _ _ _ _ i j);
  active_a_sound = λ oa ob h. good-Image oa h;
  active_b_sound = λ oa ob h. good-Image ob h;
  some_active = λ oa ob i where_is. elim where_is [
    | inl e ↦ inl (rw e (Image-good _ _ _ i))
    | inr e ↦ inr (rw e (Image-good _ _ _ i))
  ];
  deserialize-Image = λ w i. inl (deserialized _ _ _ w i);
}
  where
    serialized :
        (list : Entries) {buf : Bytes} {hdr : ℕ}
        → write_entry list ≡ some (buf, hdr)
        → Image list buf hdr
    serialized [] h = absurd (cc)
    serialized (e ∷ []) h = (e, refl, cc, cc)
    serialized (e ∷ f ∷ l) h = absurd (cc)

    whole_length :
        (list : Entries) {buf : Bytes} {hdr : ℕ}
        → write_entry list ≡ some (buf, hdr)
        → length buf ≡ entries_size list
    whole_length [] h = absurd (cc)
    whole_length (e ∷ []) {buf} h = let is : encode e ≡ buf = cc in rw (← is) refl
    whole_length (e ∷ f ∷ l) h = absurd (cc)

    deserialized :
        (list : Entries) (buf : Bytes) (hdr : ℕ) (w : Sections)
        → Image list buf hdr
        → (filled : Entries) × (v : Sections) × (read_entry [] (drop 1 buf) w ≡ (ok filled, v))
          × ((k : Bytes) → (get filled k ≡ get list k))
    deserialized list buf hdr w (e, l_is, is, _) =
        (e ∷ [], w, rw (is, decode-encode e) refl, λ k. rw l_is refl)

pub memory-Steady : Steady memory-Storage
unfolding memory-Storage
memory-Steady = record {
  init_keeps = λ section s x w h. h;
  size_keeps = λ p s x w h. h;
  read_keeps = λ p n s x w h. h;
}

-- An interrupted write leaves anything in its section, and the other sections alone.
pub memory-Tearing : Tearing memory-Storage
unfolding memory-Storage
memory-Tearing = record {
  Torn = λ p w v. (s : Bytes) → s ≢ p → v s ≡ w s;
  write_other = λ p b s x w v e ne h.
      let kept : (if same s p then b else w s) ≡ v s = ap (λ (r : _ × Sections). r.1 s) e in
      let other : same s p ≡ false = ground (arith, same_iff s p, ne) in sym kept ∙ rw other h;
  torn_other = λ p s x w v t ne h. t s ne ∙ h;
  Holds_unique = λ s x y w h k. sym h ∙ k;
}

pub torn_in :
    (p : Bytes) (w v : Sections) → ((s : Bytes) → s ≢ p → v s ≡ w s) → memory-Tearing.Torn p w v
unfolding memory-Tearing
torn_in p w v h = h

-- The device in memory, on which a read behind the end of a section fails.
abbrev pub strict : Device Sections
strict = record {
  Priv = Bytes;
  init = λ s w. (ok s, w);
  destroy = λ p w. w;
  size = λ p w. (ok (length (w p)), w);
  read = λ p n w. (if leb n (length (w p)) then ok (take n (w p)) else err eio, w);
  write = λ p b w. (ok tt, λ s. if same s p then b else w s);
  section = λ p. p;
}

-- ===== src/Samples.antt =====
-- Concrete parameters for the tests: a list library that meets the laws, an allocator that always
-- succeeds, and a device that keeps its sections in memory.
use nvram.Base.{
  inl, ◌≡◌, refl, ◌∙◌, Bool, true, false, Option, some, none, [], ◌∷◌, arith, Bytes, ok, length,
  same, same_iff, same_refl, if◌then◌else◌, take, ap, sym,
}
use nvram.Entry.{Entry, Entries, Runtime, ListLaws}
use nvram.Device.{Device, Storage}

-- Sections by name.
abbrev pub Sections : Type 0
Sections = Bytes → Bytes

abbrev pub get : Entries → Bytes → Option Entry
get [] k = none
get (e ∷ l) k = if same e.key k then some e else get l k

abbrev pub set : Entries → Entry → Entries
set [] e = e ∷ []
set (x ∷ l) e = if same x.key e.key then e ∷ l else x ∷ set l e

-- Every entry of the key goes.
abbrev pub without : Entries → Bytes → Entries
without [] k = []
without (e ∷ l) k = let rest = without l k in if same e.key k then rest else e ∷ rest

abbrev pub has : Entries → Bytes → Bool
has [] k = false
has (e ∷ l) k = if same e.key k then true else has l k

abbrev pub runtime : {World : Type 0} → Runtime World
runtime = record {
  malloc = λ n w. (true, w);
  list_get = get;
  list_set = λ l e w. (ok (set l e), w);
  list_remove = λ l k w. ((has l k, without l k), w);
}

get-key : (l : Entries) (k : Bytes) (e : Entry) → get l k ≡ some e → e.key ≡ k
get-key [] k e h = cc
get-key (x ∷ l) k e h = ground (arith, same_iff x.key k, get-key l k e)

get-set :
    (l : Entries) (e : Entry) (k : Bytes)
    → get (set l e) k ≡ (if same e.key k then some e else get l k)
get-set [] e k = refl
get-set (x ∷ l) e k =
    ground (arith, same_iff x.key e.key, same_iff x.key k, same_iff e.key k, get-set l e k)

get-without :
    (l : Entries) (j k : Bytes) → get (without l j) k ≡ (if same j k then none else get l k)
get-without [] j k = ground arith
get-without (x ∷ l) j k =
    ground (arith, same_iff x.key j, same_iff x.key k, same_iff j k, get-without l j k)

has-absent : (l : Entries) (j : Bytes) → has l j ≡ false → get l j ≡ none
has-absent [] j h = refl
has-absent (x ∷ l) j h = ground (arith, has-absent l j)

without-absent : (l : Entries) (j : Bytes) → has l j ≡ false → without l j ≡ l
without-absent [] j h = refl
without-absent (x ∷ l) j h = ground (arith, without-absent l j)

pub runtime-ListLaws : {World : Type 0} → ListLaws (runtime {World = World})
runtime-ListLaws = record {
  get-nil = λ k. refl;
  get-key = get-key;
  get-set = λ l e w l' w' h k. let s : set l e ≡ l' = cc in rw (← s) (get-set l e k);
  get-remove = λ l j w l' w' h k. let s : without l j ≡ l' = cc in rw (← s) (get-without l j k);
  remove_absent = λ l j w l' w' h k.
      let gone : has l j ≡ false = cc in
      let s : without l j ≡ l' = cc in rw (← s, without-absent l j gone);
  remove_finds = λ l j w l' w' h. let gone : has l j ≡ false = cc in has-absent l j gone;
}

abbrev pub memory : Device Sections
memory = record {
  Priv = Bytes;
  init = λ s w. (ok s, w);
  destroy = λ p w. w;
  size = λ p w. (ok (length (w p)), w);
  read = λ p n w. (ok (take n (w p)), w);
  write = λ p b w. (ok tt, λ s. if same s p then b else w s);
  section = λ p. p;
}

unfoldable pub memory-Storage : Storage runtime memory
memory-Storage = record {
  Holds = λ s b w. w s ≡ b;
  init-ok = λ s b w h. inl (s, w, refl, refl, h);
  size-ok = λ p b w h. (w, rw h, h);
  read-ok = λ p b n w le h. inl (w, rw h, h);
  write-Holds =
      λ p b w v h. let stored = ap (λ (x : _ × Sections). x.1 p) h in sym stored ∙ rw same_refl;
  destroy-Holds = λ p s b w h. h;
  malloc-Holds = λ n s b w h. h;
}

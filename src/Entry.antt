-- ===== src/Entry.antt =====
-- The entries and lists of libnvram (libnvram/libnvram.h, a submodule) as the code of this
-- repository reads them, the calls of that library that act on a list, and `malloc`.
use nvram.Base.{
  ℕ, Bool, true, false, Option, none, some, List, [], ◌≡◌, Bytes, ok, err, Io, same, if◌then◌else◌,
  enomem,
}

-- `struct libnvram_entry`; the lengths `key_len` and `value_len` are those of the buffers.
pub record Entry : Type 0 where
  pub key : Bytes
  pub value : Bytes

-- `struct libnvram_list`: the entries from the head, in the order of the `next` pointers.
abbrev pub Entries : Type 0
Entries = List Entry

-- The calls that the program makes on its heap and on lists. `World` is all that they may act on.
pub record Runtime (World : Type 0) : Type 0 where
  -- whether an allocation of that many bytes succeeds
  pub malloc : ℕ → World → Bool × World
  pub list_get : Entries → Bytes → Option Entry
  -- sets or overwrites; the list that comes back replaces the argument
  pub list_set : Entries → Entry → Io World Entries
  -- whether an entry was removed, and the list that is left
  pub list_remove : Entries → Bytes → World → (Bool × Entries) × World

-- A `malloc` whose failure is returned as `-ENOMEM`.
abbrev pub allocate : {World : Type 0} → Runtime World → ℕ → Io World (Unit {0})
allocate R n w = let (done, w') = R.malloc n w in (if done then ok tt else err enomem, w')

pub allocate-ok :
    {World : Type 0} (R : Runtime World) (n : ℕ) (w : World)
    → (R.malloc n w).0 ≡ true
    → allocate R n w ≡ (ok tt, (R.malloc n w).1)
allocate-ok R n w h = rw h

pub allocate-err :
    {World : Type 0} (R : Runtime World) (n : ℕ) (w : World)
    → (R.malloc n w).0 ≡ false
    → allocate R n w ≡ (err enomem, (R.malloc n w).1)
allocate-err R n w h = rw h

-- What libnvram.h promises of the calls on lists.
pub record ListLaws {World : Type 0} (R : Runtime World) : Type 0 where
  pub get-nil : (k : Bytes) → R.list_get [] k ≡ none
  pub get-key : (l : Entries) (k : Bytes) (e : Entry) → R.list_get l k ≡ some e → e.key ≡ k
  pub get-set :
      (l : Entries) (e : Entry) (w : World) (l' : Entries) (w' : World)
      → R.list_set l e w ≡ (ok l', w')
      → (k : Bytes) → R.list_get l' k ≡ (if same e.key k then some e else R.list_get l k)
  pub get-remove :
      (l : Entries) (j : Bytes) (w : World) (l' : Entries) (w' : World)
      → R.list_remove l j w ≡ ((true, l'), w')
      → (k : Bytes) → R.list_get l' k ≡ (if same j k then none else R.list_get l k)
  pub remove_absent :
      (l : Entries) (j : Bytes) (w : World) (l' : Entries) (w' : World)
      → R.list_remove l j w ≡ ((false, l'), w')
      → (k : Bytes) → (R.list_get l' k ≡ R.list_get l k)
  pub remove_finds :
      (l : Entries) (j : Bytes) (w : World) (l' : Entries) (w' : World)
      → R.list_remove l j w ≡ ((false, l'), w')
      → R.list_get l j ≡ none

-- ===== src/V2/Tests.antt =====
-- Commits and restarts of the v2 format at concrete sections.
use nvram.Base.{
  ℕ, err, eio, ◌≡◌, ◌≢◌, ◌⊎◌, refl, arith, true, false, some, none, [], ◌∷◌, same, same_iff,
  if◌then◌else◌, codes, Bytes, Result, ok, pure, ◌>>◌,
}
use nvram.Entry.{Entry, Entries, allocate}
use nvram.Samples.{Sections, runtime, memory, memory-Storage}
use nvram.V2.{
  Nvram, close_sections, destroy, read_header, read_valid, init_a, init_b, init_and_read,
  read_section, load, deserialize_active, v2_init, v2_commit, v2_close, commit_serialized,
  write_sections,
}
use nvram.V2.Laws.{Named}
use nvram.V2.Slots.{Loaded}
use nvram.V2.Recovery.{SameValues, v2_init-v2_commit}
use nvram.V2.PowerFail.{Interrupted, torn, targets, write_each, v2_commit-power_fail}
use nvram.V2.Balance.{Balanced}
use nvram.V2.Tracked.{tracked_runtime, tracked_library, tracked, tracked-Opened}
use nvram.V2.Untracked.{untracked_run, counted}
use nvram.V2.Released.{v2_init-Balanced, v2_close-v2_init}
use nvram.Device.{Device}
use nvram.Interface.Machine.{Machine, posix}
use nvram.Interface.File.{nvram_file_interface}
use nvram.V2.Outage.{InSection, v2_init-power_fail}
use nvram.V2.Sample.{
  strict, library, encode, library-LibnvramLaws, memory-Steady, memory-Tearing, torn_in,
}

abbrev a : Bytes
a = codes "user_a"

abbrev b : Bytes
b = codes "user_b"

abbrev entry : Entry
entry = record { key = codes "key"; value = codes "1" }

abbrev old_entry : Entry
old_entry = record { key = codes "key"; value = codes "22" }

abbrev state : Nvram {World = Sections} runtime library memory
state = record { trans = (none, none); priv_a = some a; priv_b = some b }

abbrev state_b : Nvram {World = Sections} runtime library memory
state_b = record { trans = (none, none); priv_a = none; priv_b = some b }

abbrev world : Sections
world = λ s. if same s b then encode old_entry else if same s a then codes "?" else []

-- Section A has lost its bytes.
abbrev cut_world : Sections
cut_world = λ s. if same s b then encode old_entry else []

names_differ : a ≢ b
unfolding same
names_differ e = let r : same a b ≡ true = (same_iff a b).1 e in cc

committed : Sections
unfolding v2_commit commit_serialized write_sections
committed = (v2_commit runtime library memory state_b (entry ∷ []) world).1

v2_init-v2_commit_example :
    Loaded runtime library memory (SameValues (runtime {World = Sections}) (entry ∷ [])) (
      v2_init runtime library memory none
        (some b)
        []
        (v2_close runtime library memory state_b committed))
unfolding committed
v2_init-v2_commit_example =
    v2_init-v2_commit library memory-Storage library-LibnvramLaws memory-Steady false state_b b
      (entry ∷ []) (true, true) 0 5 (encode entry) world refl refl (ground arith) refl refl refl

cut : Interrupted runtime library memory memory-Tearing (encode entry) (a ∷ b ∷ []) world cut_world
cut = torn (
    torn_in a world cut_world
      (λ s ne. let other : same s a ≡ false = ground (arith, same_iff s a, ne) in rw other refl))

v2_commit-power_fail_example :
    (v2_commit runtime library memory state (entry ∷ []) world
      ≡ (do
        allocate runtime 6
        write_each runtime library memory
            (targets runtime library memory (true, true) a b)
            (encode entry)
        pure (record state { trans = (none, none) }))
          world)
    × (memory-Storage.Holds b (encode old_entry) cut_world
        ⊎ memory-Storage.Holds a (encode entry) cut_world)
unfolding memory-Storage same
v2_commit-power_fail_example =
    v2_commit-power_fail runtime library memory memory-Tearing state a b (entry ∷ []) (true, true) 0
      5 (encode entry) (encode old_entry) world cut_world refl refl names_differ refl refl refl cut

-- Section A is too short to have a header; section B is whole.
short_section : Named {World = Sections} library a []
short_section = record {
  name_pos = ground arith;
  readable = record { enough = λ hdr le valid. absurd (omega (arith, le)) };
}

whole_section : Named {World = Sections} library b (encode old_entry)
whole_section = record {
  name_pos = ground arith;
  readable = record { enough = λ hdr le valid. let e : 6 ≡ hdr = cc in rw (← e) (ground arith) };
}

v2_init-power_fail_example :
    Loaded runtime library memory
      (InSection library-LibnvramLaws memory-Steady memory-Tearing [] (encode old_entry))
      (v2_init runtime library memory (some a) (some b) [] cut_world)
unfolding memory-Storage same
v2_init-power_fail_example =
    v2_init-power_fail library-LibnvramLaws memory-Steady memory-Tearing a b (true, true)
      (old_entry ∷ []) (entry ∷ []) (encode old_entry) (encode entry) [] (encode old_entry) 6 5
      world cut_world names_differ
      (library-LibnvramLaws.serialize-Image (old_entry ∷ []) 7 0 6 (encode old_entry) refl)
      (library-LibnvramLaws.serialize-Image (entry ∷ []) 6 0 5 (encode entry) refl) refl cut refl
      refl short_section whole_section

-- Over the file interface.
abbrev files : Device Machine
files = nvram_file_interface runtime posix

abbrev machine : Machine
machine = record { files = λ path. codes "old"; table = λ fd. []; count = 3 }

abbrev first_run :
    Result (
      Nvram {World = Machine × ℕ}
        (tracked_runtime runtime)
        (tracked_library library)
        (tracked files)
      × Entries)
    × (Machine × ℕ)
first_run =
    v2_init (tracked_runtime runtime) (tracked_library library) (tracked files) (some a) (some b) []
      (machine, 0)

v2_init-Balanced_example :
    (untracked_run runtime library files first_run
      ≡ v2_init runtime library files (some a) (some b) [] machine)
    × Balanced (tracked-Opened runtime library files) 0 first_run
v2_init-Balanced_example = v2_init-Balanced runtime library files (some a) (some b) [] machine 0

abbrev both_open : Nvram runtime library memory
both_open = record { trans = (none, none); priv_a = some a; priv_b = some b }

abbrev blank : Sections
blank = λ s. []

v2_close-v2_init_example :
    (k : ℕ) × (v2_init
        (tracked_runtime runtime)
        (tracked_library library)
        (tracked memory)
        (some a)
        (some b)
        []
        (blank, 0)
      ≡ (ok (counted runtime library memory both_open, []), (blank, k)))
    × (v2_close
          (tracked_runtime runtime)
          (tracked_library library)
          (tracked memory)
          (counted runtime library memory both_open)
          (blank, k)
        ≡ (v2_close runtime library memory both_open blank, 0))
unfolding v2_init init_a init_b init_and_read read_section load deserialize_active
v2_close-v2_init_example =
    v2_close-v2_init runtime library memory (some a) (some b) [] [] both_open blank blank 0 refl

-- Section A was cut short behind its header; section B is whole.
abbrev short_world : Sections
short_world = λ s. if same s b then encode old_entry else 5 ∷ 3 ∷ []

cut_short : v2_init runtime library strict (some a) (some b) [] short_world ≡ (err eio, short_world)
unfolding v2_init init_a init_and_read read_section read_header read_valid close_sections destroy
    same
cut_short = refl

-- ===== src/Interface/Machine.antt =====
-- A concrete system for the tests: files in memory, each with its path, and a table of the open
-- descriptors.
use nvram.Base.{
  ℕ, suc, ◌-◌, ◌<◌, ◌≡◌, ◌≢◌, refl, sym, ap, ◌∙◌, Bool, true, false, Bool-cases, inl, inr, some, [],
  ◌∷◌, arith, ◌==◌, same, same_iff, same_refl, if◌then◌else◌, take, drop, length, Bytes, codes,
  Result, ok, err, einval,
}
use nvram.Samples.{runtime, Sections}
use nvram.Posix.{Posix, OpenFlags, regular, write_only}
use nvram.Posix.Descriptors.{Counted}
use nvram.Interface.Files.{Files}
use nvram.Interface.Mtd.{Libmtd}
use nvram.Interface.Mtd.Protect.{Pin}
use nvram.Interface.Mtd.Flash.{Flash, Phase, opened, erased, written}

pub record Machine : Type 0 where
  pub files : Sections
  -- the path of a descriptor, below the number of those that are open
  pub table : ℕ → Bytes
  pub count : ℕ

abbrev pub pin : Bytes
pin = codes "gpio"

abbrev store : Bytes → Bytes → Machine → Machine
store path b w = record w { files = λ s. if same s path then b else w.files s }

-- The descriptor that is opened next is on that path.
abbrev open_next : Bytes → Machine → Machine
open_next path w = record {
  files = w.files;
  table = λ n. if n == w.count then path else w.table n;
  count = suc w.count;
}

-- A pin cannot be erased; of a file the first bytes go. A write replaces what the file holds.
abbrev pub posix : Posix Machine
posix = record {
  stat = λ path w. (ok (record { type = regular; st_size = length (w.files path) }), w);
  open_file = λ path flags w. (ok w.count, open_next path w);
  read = λ fd n w. (ok (take n (w.files (w.table fd))), w);
  write = λ fd b w. (ok (length b), store (w.table fd) b w);
  close = λ fd w. record { files = w.files; table = w.table; count = w.count - 1 };
  block_size = λ fd w. (ok 0, w);
  erase = λ fd start n w. (
    if same (w.table fd) pin then err einval else ok tt,
    if same (w.table fd) pin then w else store (w.table fd) (drop n (w.files (w.table fd))) w,
  );
  get_flags = λ path w. (ok (true, 0), w);
  set_flags = λ path f w. (ok tt, w);
  errno = λ w. 5;
}

-- The new descriptor is on the path, the others stay.
table-open_next : (path : Bytes) (w : Machine) → (open_next path w).table w.count ≡ path
table-open_next path w = ground arith

-- What the file of a descriptor holds after a write.
files-store : (path b : Bytes) (w : Machine) → (store path b w).files path ≡ b
files-store path b w = rw same_refl refl

opened_is :
    (path : Bytes) (flags : OpenFlags) (fd : ℕ) (w v : Machine)
    → posix.open_file path flags w ≡ (ok fd, v)
    → (w.count ≡ fd) × (open_next path w ≡ v)
opened_is path flags fd w v h = (cc, cc)

written_is :
    (fd : ℕ) (b : Bytes) (w v : Machine)
    → posix.write fd b w ≡ (ok (length b), v)
    → store (w.table fd) b w ≡ v
written_is fd b w v h = cc

erase-count :
    (same_path : Bool) (path b : Bytes) (w : Machine)
    → (if same_path then w else store path b w).count ≡ w.count
erase-count true path b w = refl
erase-count false path b w = refl

pub posix-Counted : Counted {World = Machine} runtime posix
posix-Counted = record {
  count = λ w. w.count;
  count-open_ok = λ path flags fd w v h. ap (λ m. m.count) (sym (opened_is path flags fd w v h).1);
  count-open_err = λ path flags c w v h. absurd (cc);
  count-close = λ fd w. refl;
  count-stat = λ path w. refl;
  count-read = λ fd n w. refl;
  count-write = λ fd b w. refl;
  count-block_size = λ fd w. refl;
  count-erase = λ fd start n w.
      erase-count (same (w.table fd) pin) (w.table fd) (drop n (w.files (w.table fd))) w;
  count-get_flags = λ path w. refl;
  count-set_flags = λ path f w. refl;
  count-malloc = λ n w. refl;
}

pub posix-Files : (flags : OpenFlags) → Files {World = Machine} runtime posix flags
posix-Files flags = record {
  Holds = λ path b w. w.files path ≡ b;
  Reading = λ fd path b w. (w.table fd ≡ path) × (w.files path ≡ b);
  Writing = λ fd path w. w.table fd ≡ path;
  Written = λ fd path b w. (w.table fd ≡ path) × (w.files path ≡ b);
  stat-ok = λ path b w h. (w, rw h refl, h);
  open-ok = λ path b w h. (w.count, open_next path w, refl, (table-open_next path w, h));
  read-ok = λ fd path b n w le h. (w, rw (h.0, h.1) refl, h);
  close-Reading = λ fd path b w h. h.1;
  open-Writing = λ path fd w v h.
      let e = opened_is path flags fd w v h in rw (← e.1, ← e.0) (table-open_next path w);
  write-Written =
      λ fd path b w v t h. rw (← written_is fd b w v h) (t, rw t (files-store path b w));
  close-Written = λ fd path b w h. h.1;
  get_flags-Written = λ fd path b w h. h;
  set_flags-Written = λ fd path b f w h. h;
  malloc-Holds = λ n path b w h. h;
  malloc-Reading = λ n fd path b w h. h;
  malloc-Writing = λ n fd path w h. h;
}

-- What is known of a partition that is being rewritten.
abbrev Stage : Bytes → Phase → Machine → Type 0
Stage path opened w = Unit {0}
Stage path (erased n) w = path ≢ pin
Stage path (written b) w = (path ≢ pin) × (w.files path ≡ b)

abbrev Rewriting : ℕ → Bytes → Phase → Machine → Type 0
Rewriting fd path phase w = (w.table fd ≡ path) × (fd < w.count) × Stage path phase w

-- The next descriptor, and what is written and closed through it, leave the others alone.
table-below :
    (path : Bytes) (fd : ℕ) (w : Machine) → fd < w.count → (open_next path w).table fd ≡ w.table fd
table-below path fd w lt = let other : (fd == w.count) ≡ false = ground arith in rw other refl

Stage-store :
    (path b : Bytes) (phase : Phase) (w v : Machine)
    → w.files ≡ v.files
    → Stage path phase w
    → Stage path phase (store pin b v)
Stage-store path b opened w v same_files h = tt
Stage-store path b (erased n) w v same_files h = h
Stage-store path b (written x) w v same_files h =
    let other : same path pin ≡ false = ground (arith, same_iff path pin, h.0) in
    (h.0, rw (other, ← same_files) h.1)

Rewriting-pin :
    (path b : Bytes) (fd : ℕ) (phase : Phase) (w : Machine)
    → Rewriting fd path phase w
    → Rewriting fd path phase (posix.close w.count (store pin b (open_next pin w)))
Rewriting-pin path b fd phase w h = (
  table-below pin fd w h.1 ∙ h.0,
  omega (arith, h.1),
  Stage-close phase (Stage-store path b phase w (open_next pin w) refl h.2),
)
  where
    Stage-close :
        (phase : Phase)
        → Stage path phase (store pin b (open_next pin w))
        → Stage path phase (posix.close w.count (store pin b (open_next pin w)))
    Stage-close opened x = x
    Stage-close (erased n) x = x
    Stage-close (written b) x = x

erased_is :
    (fd size : ℕ) (w v : Machine)
    → posix.erase fd 0 size w ≡ (ok tt, v)
    → (w.table fd ≢ pin) × (store (w.table fd) (drop size (w.files (w.table fd))) w ≡ v)
erased_is fd size w v h = elim (Bool-cases (same (w.table fd) pin)) [
  | inl is_pin ↦ cc (rw is_pin at h)
  | inr other ↦ (
    (λ e. cc (other, (same_iff (w.table fd) pin).1 e)),
    ap (λ (r : Result (Unit {0}) × Machine). r.1) (rw other at h),
  )
]

pub posix-Flash : Flash posix
posix-Flash = record {
  Holds = λ path b w. w.files path ≡ b;
  Reading = λ fd path b w. (w.table fd ≡ path) × (w.files path ≡ b);
  Writing = Rewriting;
  IsPin = λ path. path ≡ pin;
  open-ok = λ path b w h. (w.count, open_next path w, refl, (table-open_next path w, h));
  read-ok = λ fd path b n w le h. (w, rw (h.0, h.1) refl, h);
  close-Reading = λ fd path b w h. h.1;
  open-Writing = λ path fd w v h.
      let e = opened_is path write_only fd w v h in
      rw (← e.1, ← e.0) (table-open_next path w, omega arith, tt);
  erase-Writing = λ fd path size w v h e.
      let r = erased_is fd size w v e in rw (← r.1) (h.0, h.1, λ x. r.0 (h.0 ∙ x));
  write-Writing = λ fd path b n w v le h e.
      rw (← written_is fd b w v e) (h.0, h.1, (h.2, rw h.0 (files-store path b w)));
  close-Writing = λ fd path b w h. h.2.1;
  pin_failed = λ p path fd c phase w v i h e. absurd (cc);
  pin_written = λ p path b fd fd' phase w v i h e.
      let r = opened_is p write_only fd' w v e in
      rw (← r.1, ← r.0, i, table-open_next pin w) (Rewriting-pin path b fd phase w h);
}

pub pin-IsPin : posix-Flash.IsPin pin
unfolding posix-Flash
pin-IsPin = refl

pub posix-Pin : Pin posix pin
posix-Pin = record {
  IsHigh = λ w. w.files pin ≡ b'1' ∷ [];
  set-ok = λ w. (
    w.count,
    open_next pin w,
    store ((open_next pin w).table w.count) (b'1' ∷ []) (open_next pin w),
    refl,
    refl,
    rw (table-open_next pin w) (files-store pin (b'1' ∷ []) (open_next pin w)),
  );
  close-IsHigh = λ fd w h. h;
  open_failed-IsHigh = λ path c w v e h. absurd (cc);
}

pub IsHigh-pin : (w : Machine) → w.files pin ≡ b'1' ∷ [] → posix-Pin.IsHigh w
unfolding posix-Pin
IsHigh-pin w h = h

-- Two partitions.
abbrev pub libmtd : Libmtd Machine
libmtd = record {
  Handle = Unit {0};
  libmtd_open = λ w. (ok tt, w);
  libmtd_close = λ mtd w. w;
  mtd_get_info = λ mtd w. (ok (0, 1), w);
  mtd_get_dev_info1 = λ mtd i w. (
    ok (record { name = if i == 0 then codes "boot" else codes "nvram"; mtd_num = i; size = 64 }),
    w,
  );
  print_path = λ n. if n == 0 then codes "/dev/mtd0" else codes "/dev/mtd1";
  gpio = some pin;
}

-- ===== src/Operation/Validate.antt =====
-- Which lists of operations `validate_operations` lets through.
use nvram.Base.{
  ◌≡◌, ◌⊎◌, ◌↔◌, inl, inr, refl, ◌∙◌, true, false, List, [], ◌∷◌, arith, Bytes, ok, All,
}
use nvram.Operation.{
  Settings, Mode, Operation, list, set, get, del, OpTypes, no_types, add_type, validate,
  validate_set, validate_del, check_types, validate_from, validate_operations, system_unlocked,
  sysprefix_enforced, starts_with_sysprefix,
}

-- A key of the system section, where the build separates them by prefix.
abbrev pub IsSystemKey : Settings → Bytes → Type 0
IsSystemKey s key = starts_with_sysprefix s key ≡ true

-- Writing the system section takes the unlock value; where a prefix is built in, a key set there
-- has it, and a key set in the user section has not.
abbrev pub Allowed : Settings → Mode → Operation → Type 0
Allowed s mode list = Unit
Allowed s mode (set key value) =
    (mode.system_write ≡ true
      → (sysprefix_enforced s ≡ true → IsSystemKey s key) × (system_unlocked s ≡ true))
    × (mode.user_write ≡ true → sysprefix_enforced s ≡ true → ¬ IsSystemKey s key)
Allowed s mode (get key) = Unit
Allowed s mode (del key) = mode.system_write ≡ true → system_unlocked s ≡ true

abbrev pub IsWrite : Operation → Type 0
IsWrite list = ⊥
IsWrite (set _ _) = Unit
IsWrite (get _) = ⊥
IsWrite (del _) = Unit

abbrev pub IsGet : Operation → Type 0
IsGet list = ⊥
IsGet (set _ _) = ⊥
IsGet (get _) = Unit
IsGet (del _) = ⊥

abbrev pub IsList : Operation → Type 0
IsList list = Unit
IsList (set _ _) = ⊥
IsList (get _) = ⊥
IsList (del _) = ⊥

-- One command line only writes, only gets, or only lists.
abbrev pub Unmixed : List Operation → Type 0
Unmixed ops = All IsWrite ops ⊎ (All IsGet ops ⊎ All IsList ops)

validate-Allowed :
    (s : Settings) (mode : Mode) (op : Operation) → validate s mode op ≡ ok tt → Allowed s mode op
unfolding validate validate_set validate_del
validate-Allowed s mode list h = tt
validate-Allowed s mode (set key value) h = ground arith
validate-Allowed s mode (get key) h = tt
validate-Allowed s mode (del key) h = ground arith

Allowed-validate :
    (s : Settings) (mode : Mode) (op : Operation) → Allowed s mode op → validate s mode op ≡ ok tt
unfolding validate validate_set validate_del
Allowed-validate s mode list h = refl
Allowed-validate s mode (set key value) h = ground arith
Allowed-validate s mode (get key) h = refl
Allowed-validate s mode (del key) h = ground arith

-- All bits that the loop finds.
types_of : List Operation → OpTypes → OpTypes
types_of [] f = f
types_of (op ∷ ops) f = types_of ops (add_type op f)

-- A bit once set stays set.
record Grows (f g : OpTypes) : Type 0 where
  list_grows : f.list ≡ true → g.list ≡ true
  set_grows : f.set ≡ true → g.set ≡ true
  get_grows : f.get ≡ true → g.get ≡ true
  del_grows : f.del ≡ true → g.del ≡ true

types_of-Grows : (ops : List Operation) (f : OpTypes) → Grows f (types_of ops f)
unfolding types_of
types_of-Grows [] f = ground arith
types_of-Grows (list ∷ ops) f = ground (arith, types_of-Grows ops (add_type list f))
types_of-Grows (set k v ∷ ops) f = ground (arith, types_of-Grows ops (add_type (set k v) f))
types_of-Grows (get k ∷ ops) f = ground (arith, types_of-Grows ops (add_type (get k) f))
types_of-Grows (del k ∷ ops) f = ground (arith, types_of-Grows ops (add_type (del k) f))

All-IsWrite :
    (ops : List Operation) (f : OpTypes)
    → (types_of ops f).get ≡ false
    → (types_of ops f).list ≡ false
    → All IsWrite ops
unfolding types_of
All-IsWrite [] f g l = tt
All-IsWrite (list ∷ ops) f g l = cc ((types_of-Grows ops (add_type list f)).list_grows refl)
All-IsWrite (set k v ∷ ops) f g l = (tt, All-IsWrite ops (add_type (set k v) f) g l)
All-IsWrite (get k ∷ ops) f g l = cc ((types_of-Grows ops (add_type (get k) f)).get_grows refl)
All-IsWrite (del k ∷ ops) f g l = (tt, All-IsWrite ops (add_type (del k) f) g l)

module _ (ops : List Operation) (f : OpTypes) where
  -- No bit of a write is found.
  abbrev NoWrite : Type 0
  NoWrite = ((types_of ops f).set ≡ false) × ((types_of ops f).del ≡ false)

All-IsGet :
    (ops : List Operation) (f : OpTypes)
    → NoWrite ops f
    → (types_of ops f).list ≡ false
    → All IsGet ops
unfolding types_of
All-IsGet [] f w l = tt
All-IsGet (list ∷ ops) f w l = cc ((types_of-Grows ops (add_type list f)).list_grows refl)
All-IsGet (set k v ∷ ops) f w l =
    cc (w.0, (types_of-Grows ops (add_type (set k v) f)).set_grows refl)
All-IsGet (get k ∷ ops) f w l = (tt, All-IsGet ops (add_type (get k) f) w l)
All-IsGet (del k ∷ ops) f w l = cc (w.1, (types_of-Grows ops (add_type (del k) f)).del_grows refl)

All-IsList :
    (ops : List Operation) (f : OpTypes)
    → NoWrite ops f
    → (types_of ops f).get ≡ false
    → All IsList ops
unfolding types_of
All-IsList [] f w g = tt
All-IsList (list ∷ ops) f w g = (tt, All-IsList ops (add_type list f) w g)
All-IsList (set k v ∷ ops) f w g =
    cc (w.0, (types_of-Grows ops (add_type (set k v) f)).set_grows refl)
All-IsList (get k ∷ ops) f w g = cc ((types_of-Grows ops (add_type (get k) f)).get_grows refl)
All-IsList (del k ∷ ops) f w g = cc (w.1, (types_of-Grows ops (add_type (del k) f)).del_grows refl)

check_types-Unmixed :
    (ops : List Operation) (f : OpTypes) → check_types (types_of ops f) ≡ ok tt → Unmixed ops
unfolding check_types
check_types-Unmixed ops f h = ground (arith, All-IsWrite ops f, All-IsGet ops f, All-IsList ops f)

-- Of one kind of operations no other bits are found.
types_of-IsWrite :
    (ops : List Operation) (f : OpTypes)
    → All IsWrite ops
    → ((types_of ops f).get ≡ f.get) × ((types_of ops f).list ≡ f.list)
unfolding types_of
types_of-IsWrite [] f w = (refl, refl)
types_of-IsWrite (list ∷ ops) f w = absurd w.0
types_of-IsWrite (set k v ∷ ops) f w = types_of-IsWrite ops (add_type (set k v) f) w.1
types_of-IsWrite (get k ∷ ops) f w = absurd w.0
types_of-IsWrite (del k ∷ ops) f w = types_of-IsWrite ops (add_type (del k) f) w.1

types_of-IsGet :
    (ops : List Operation) (f : OpTypes)
    → All IsGet ops
    → ((types_of ops f).set ≡ f.set)
      × ((types_of ops f).del ≡ f.del)
      × ((types_of ops f).list ≡ f.list)
unfolding types_of
types_of-IsGet [] f w = (refl, refl, refl)
types_of-IsGet (list ∷ ops) f w = absurd w.0
types_of-IsGet (set k v ∷ ops) f w = absurd w.0
types_of-IsGet (get k ∷ ops) f w = types_of-IsGet ops (add_type (get k) f) w.1
types_of-IsGet (del k ∷ ops) f w = absurd w.0

types_of-IsList :
    (ops : List Operation) (f : OpTypes)
    → All IsList ops
    → ((types_of ops f).set ≡ f.set)
      × ((types_of ops f).del ≡ f.del)
      × ((types_of ops f).get ≡ f.get)
unfolding types_of
types_of-IsList [] f w = (refl, refl, refl)
types_of-IsList (list ∷ ops) f w = types_of-IsList ops (add_type list f) w.1
types_of-IsList (set k v ∷ ops) f w = absurd w.0
types_of-IsList (get k ∷ ops) f w = absurd w.0
types_of-IsList (del k ∷ ops) f w = absurd w.0

Unmixed-check_types :
    (ops : List Operation) → Unmixed ops → check_types (types_of ops no_types) ≡ ok tt
unfolding check_types
Unmixed-check_types ops (inl w) = ground (arith, types_of-IsWrite ops no_types w)
Unmixed-check_types ops (inr (inl g)) = ground (arith, types_of-IsGet ops no_types g)
Unmixed-check_types ops (inr (inr l)) = ground (arith, types_of-IsList ops no_types l)

module _ (s : Settings) (mode : Mode) where
  validate_from_sound :
      (ops : List Operation) (f : OpTypes)
      → validate_from s mode ops f ≡ ok tt
      → All (Allowed s mode) ops × (check_types (types_of ops f) ≡ ok tt)
  unfolding validate_from types_of
  validate_from_sound [] f h = (tt, h)
  validate_from_sound (op ∷ ops) f h =
      ground (arith, validate-Allowed s mode op, validate_from_sound ops (add_type op f))

  validate_from_complete :
      (ops : List Operation) (f : OpTypes)
      → All (Allowed s mode) ops
      → validate_from s mode ops f ≡ check_types (types_of ops f)
  unfolding validate_from types_of
  validate_from_complete [] f h = refl
  validate_from_complete (op ∷ ops) f (h, hs) =
      rw (Allowed-validate s mode op h, validate_from)
        (validate_from_complete ops (add_type op f) hs)

  -- Validation succeeds exactly when every operation is allowed in the mode and the command line
  -- only writes, only gets or only lists.
  pub validate_operations_iff :
      (ops : List Operation)
      → (validate_operations s mode ops ≡ ok tt) ↔ (All (Allowed s mode) ops × Unmixed ops)
  unfolding validate_operations
  validate_operations_iff ops = (
    λ h. let (a, t) = validate_from_sound ops no_types h in (a, check_types-Unmixed ops no_types t),
    λ (a, u). validate_from_complete ops no_types a ∙ Unmixed-check_types ops u,
  )

-- ===== src/Program/Args/Modes.antt =====
-- The modes and the operations that the argument loop can give.
use nvram.Base.{zero, suc, ◌≡◌, ◌≢◌, ◌⊎◌, inl, refl, ℕ, List, [], ◌∷◌, arith, Bytes, ok, >>=-eq-ok}
use nvram.Entry.{Runtime}
use nvram.Operation.{Mode}
use nvram.Program.Args.{
  Options, default_mode, sys_mode, user_mode, no_options, Arg, set_arg, get_arg, list_arg, del_arg,
  sys_arg, user_arg, help_arg, unknown_arg, format_arg, interface_arg, user_a_arg, user_b_arg,
  sys_a_arg, sys_b_arg, classify, taken, with_value, add_operation, add_set, step, parse_from,
  default_operation, parse_args,
}

-- The values of `enum mode` that are a mode of the program.
abbrev pub IsMode : Mode → Type 0
IsMode m = (m ≡ default_mode) ⊎ (m ≡ sys_mode) ⊎ (m ≡ user_mode)

module _ {World : Type 0} (R : Runtime World) where
  step-IsMode :
      (a : Arg) (rest : List Bytes) (o o' : Options) (w w' : World)
      → IsMode o.mode
      → step R a rest o w ≡ (ok o', w')
      → IsMode o'.mode
  unfolding step add_operation add_set with_value
  step-IsMode set_arg (k ∷ v ∷ rest) o o' w w' m h = ground arith
  step-IsMode set_arg (k ∷ []) o o' w w' m h = cc
  step-IsMode set_arg [] o o' w w' m h = cc
  step-IsMode get_arg [] o o' w w' m h = cc
  step-IsMode get_arg (v ∷ rest) o o' w w' m h = ground arith
  step-IsMode list_arg rest o o' w w' m h = ground arith
  step-IsMode del_arg [] o o' w w' m h = cc
  step-IsMode del_arg (v ∷ rest) o o' w w' m h = ground arith
  step-IsMode sys_arg rest o o' w w' m h = ground arith
  step-IsMode user_arg rest o o' w w' m h = ground arith
  step-IsMode help_arg rest o o' w w' m h = cc
  step-IsMode unknown_arg rest o o' w w' m h = cc
  step-IsMode format_arg [] o o' w w' m h = cc
  step-IsMode format_arg (v ∷ rest) o o' w w' m h = ground arith
  step-IsMode interface_arg [] o o' w w' m h = cc
  step-IsMode interface_arg (v ∷ rest) o o' w w' m h = ground arith
  step-IsMode user_a_arg [] o o' w w' m h = cc
  step-IsMode user_a_arg (v ∷ rest) o o' w w' m h = ground arith
  step-IsMode user_b_arg [] o o' w w' m h = cc
  step-IsMode user_b_arg (v ∷ rest) o o' w w' m h = ground arith
  step-IsMode sys_a_arg [] o o' w w' m h = cc
  step-IsMode sys_a_arg (v ∷ rest) o o' w w' m h = ground arith
  step-IsMode sys_b_arg [] o o' w w' m h = cc
  step-IsMode sys_b_arg (v ∷ rest) o o' w w' m h = ground arith

  parse_from-IsMode :
      (skip : ℕ) (argv : List Bytes) (o : Options) (w : World) {o' : Options} {w' : World}
      → IsMode o.mode
      → parse_from R skip argv o w ≡ (ok o', w')
      → IsMode o'.mode
  unfolding parse_from
  parse_from-IsMode skip [] o w m h = ground arith
  parse_from-IsMode zero (a ∷ rest) o w m h =
      let (o₁, u, s, t) =
        >>=-eq-ok (step R (classify a) rest o) (λ o₁. parse_from R (taken (classify a)) rest o₁) w
          h in
      parse_from-IsMode (taken (classify a)) rest o₁ u (step-IsMode (classify a) rest o o₁ w u m s)
        t
  parse_from-IsMode (suc skip) (a ∷ rest) o w m h = parse_from-IsMode skip rest o w m h

  default_operation-ok :
      (o : Options) (w : World) {o' : Options} {w' : World}
      → default_operation R o w ≡ (ok o', w')
      → (o'.mode ≡ o.mode) × (o'.operations ≢ [])
  unfolding default_operation add_operation
  default_operation-ok o w h = ground arith

  -- A command line that is accepted gives one of the three modes and at least one operation.
  pub parse_args-IsMode :
      (argv : List Bytes) (w : World) {o : Options} {w' : World}
      → parse_args R argv w ≡ (ok o, w')
      → IsMode o.mode × (o.operations ≢ [])
  unfolding parse_args
  parse_args-IsMode argv w {o} h =
      let (o₁, u, a, b) = >>=-eq-ok (parse_from R 0 argv no_options) (default_operation R) w h in
      let (m, n) = default_operation-ok o₁ u b in
      let first = parse_from-IsMode 0 argv no_options w (inl refl) a in (rw m first, n)

-- ===== src/Base/Buffers.antt =====
-- Byte buffers and C strings. A buffer is the list of its bytes; a `char*` is the list of the
-- characters before its terminating null byte.
use Prim.Native.Char.{code}
use Prim.Native.Nat.{ℕ}
use Prim.Native.String.{String}
use mathlib.Core.Path.{◌≡◌, refl}
use mathlib.Core.Logic.{◌≢◌, ◌↔◌}
use mathlib.Core.Bool.{Bool, true, false, ◌&&◌}
use mathlib.Core.List.{List, [], ◌∷◌, ◌++◌}
use native.Mathlib.Omega.{arith}
use nvram.Base.Tests.{◌==◌, if◌then◌else◌, Bool-cases}
use nvram.Base.Lists.{All}

abbrev pub Bytes : Type 0
Bytes = List ℕ

-- The bytes of an ASCII literal.
abbrev pub codes : String → Bytes
codes String.[] = []
codes (String.◌∷◌ c s) = code c ∷ codes s

-- `memcmp(a, b, n) == 0` on buffers of equal length, `strcmp(a, b) == 0` on strings.
unfoldable pub same : Bytes → Bytes → Bool
same [] [] = true
same (x ∷ a) (y ∷ b) = x == y && same a b
same _ _ = false

pub same_iff : (a b : Bytes) → (same a b ≡ true) ↔ (a ≡ b)
unfolding same
same_iff (x ∷ a) (y ∷ b) = ground (arith, same_iff a b)
same_iff _ _ = ground arith

pub same_refl : (a : Bytes) → same a a ≡ true
same_refl a = (same_iff a a).1 refl

pub same_ne : (a b : Bytes) → a ≢ b → same a b ≡ false
same_ne a b ne = ground (arith, same_iff a b, Bool-cases (same a b))

-- The string that a `char*` to this buffer stands for: the bytes before the first null byte.
unfoldable pub c_str : Bytes → Bytes
c_str [] = []
c_str (b ∷ bs) = let rest = c_str bs in if b == 0 then [] else b ∷ rest

-- The buffer that holds a string: its characters and the null byte.
abbrev pub terminated : Bytes → Bytes
terminated s = s ++ 0 ∷ []

-- The byte does not occur.
abbrev pub Lacks : ℕ → Bytes → Type 0
Lacks c = All (λ b. b ≢ c)

pub c_str-terminated : (s rest : Bytes) → Lacks 0 s → c_str (s ++ 0 ∷ rest) ≡ s
unfolding c_str
c_str-terminated [] rest h = refl
c_str-terminated (b ∷ s) rest h = ground (arith, c_str-terminated s rest h.1)

pub c_str-Lacks : (s : Bytes) → Lacks 0 (c_str s)
unfolding c_str
c_str-Lacks [] = tt
c_str-Lacks (b ∷ s) = ground (arith, c_str-Lacks s)

-- Strings compare as their buffers do.
pub same-terminated :
    (a b : Bytes) → Lacks 0 a → Lacks 0 b → same (terminated a) (terminated b) ≡ same a b
unfolding same
same-terminated [] [] h k = refl
same-terminated [] (y ∷ b) h k = ground arith
same-terminated (x ∷ a) [] h k = ground arith
same-terminated (x ∷ a) (y ∷ b) h k = rw (same-terminated a b h.1 k.1)

-- ===== src/Base/Outcomes.antt =====
-- Calls that give a known result or run out of memory, and calls that keep a count.
use Prim.Native.Nat.{ℕ}
use mathlib.Core.Path.{◌≡◌, refl, ◌∙◌}
use mathlib.Core.Logic.{◌⊎◌, inl, inr}
use mathlib.Core.Bool.{Bool, true, false}
use nvram.Base.Tests.{if◌then◌else◌}
use nvram.Base.Effects.{ok, err, Io, pure, fail, ◌>>=◌, >>=-ok, >>=-err, Io-cases}
use nvram.Base.Errno.{enomem}

-- The result is `a` in a state with `Q`, or ENOMEM.
abbrev pub Yields : {S A : Type 0} → Io S A → S → A → (S → Type 0) → Type 0
Yields {S} m s a Q = ((t : S) × (m s ≡ (ok a, t)) × Q t) ⊎ ((t : S) × (m s ≡ (err enomem, t)))

pub >>=-Yields :
    {S A B : Type 0} (m : Io S A) (f : A → Io S B) (s : S) (a : A) (b : B) (Q P : S → Type 0)
    → Yields m s a Q
    → ((t : S) → Q t → Yields (f a) t b P)
    → Yields (m >>= f) s b P
>>=-Yields {S} m f s a b Q P (inr (t, e)) k = inr (t, >>=-err m f s e)
>>=-Yields {S} m f s a b Q P (inl (t, e, q)) k = follow (k t q)
  where
    follow : Yields (f a) t b P → Yields (m >>= f) s b P
    follow (inl (u, d, p)) = inl (u, >>=-ok m f s e ∙ d, p)
    follow (inr (u, d)) = inr (u, >>=-ok m f s e ∙ d)

pub pure-Yields : {S A : Type 0} (a : A) (s : S) (Q : S → Type 0) → Q s → Yields (pure a) s a Q
pure-Yields a s Q q = inl (s, refl, q)

-- A call that leaves a count of the state as it was, whatever it returns.
pub record Keeps {S A : Type 0} (count : S → ℕ) (m : Io S A) : Type 0 where
  pub at : (s : S) → count (m s).1 ≡ count s

module _ {S : Type 0} (count : S → ℕ) where
  pub pure-Keeps : {A : Type 0} (a : A) → Keeps count (pure a)
  pure-Keeps a = record { at = λ s. refl }

  pub fail-Keeps : {A : Type 0} (c : ℕ) → Keeps count (fail {A = A} c)
  fail-Keeps c = record { at = λ s. refl }

  pub >>=-Keeps :
      {A B : Type 0} (m : Io S A) (f : A → Io S B)
      → Keeps count m
      → ((a : A) → Keeps count (f a))
      → Keeps count (m >>= f)
  >>=-Keeps m f k l = record {
    at = λ s. elim (Io-cases m s) [
      | inl (a, u, e) ↦ rw (>>=-ok m f s e) ((l a).at u ∙ (rw e at (k.at s)))
      | inr (c, u, e) ↦ rw (>>=-err m f s e) (rw e at (k.at s))
    ];
  }

  pub if-Keeps :
      {A : Type 0} (b : Bool) (m n : Io S A)
      → Keeps count m
      → Keeps count n
      → Keeps count (if b then m else n)
  if-Keeps true m n k l = k
  if-Keeps false m n k l = l

-- ===== src/Base/Effects.antt =====
-- Results of the C functions, and calls that may fail on a state.
use Prim.Native.Nat.{ℕ}
use mathlib.Core.Path.{◌≡◌, refl, ap, sym, ◌∙◌}
use mathlib.Core.Logic.{◌⊎◌, inl, inr}
use mathlib.Core.Bool.{Bool, true, false}

-- `ok a` is a return of 0 with the output `a`; `err e` is a return of `-e`.
pub data Result {ℓ} (A : Type ℓ) : Type ℓ where
  ok : A → Result A
  err : ℕ → Result A

-- A call on the state `S`: it returns a result and leaves a state, after an error too.
abbrev pub Io : Type 0 → Type 0 → Type 0
Io S A = S → Result A × S

module _ {S A : Type 0} where
  abbrev pub pure : A → Io S A
  pure a s = (ok a, s)

  abbrev pub fail : ℕ → Io S A
  fail e s = (err e, s)

infixl 5 ◌>>=◌ ◌>>◌
abbrev pub ◌>>=◌ : {S A B : Type 0} → Io S A → (A → Io S B) → Io S B
◌>>=◌ m f s = let (r, t) = m s in elim r [ ok a ↦ f a t | err e ↦ (err e, t) ]

abbrev pub ◌>>◌ : {S A B : Type 0} → Io S A → Io S B → Io S B
m >> k = m >>= λ _. k

-- `if (!test) return -e;`
abbrev pub require : {S : Type 0} → Bool → ℕ → Io S (Unit {0})
require true e s = (ok tt, s)
require false e s = (err e, s)

pub Result-cases : {A : Type 0} (r : Result A) → ((a : A) × (r ≡ ok a)) ⊎ ((e : ℕ) × (r ≡ err e))
Result-cases (ok a) = inl (a, refl)
Result-cases (err e) = inr (e, refl)

-- A call succeeds or fails.
pub Io-cases :
    {S A : Type 0} (m : Io S A) (s : S)
    → ((a : A) × (u : S) × (m s ≡ (ok a, u))) ⊎ ((c : ℕ) × (u : S) × (m s ≡ (err c, u)))
Io-cases {S} {A} m s = by_result (m s) refl
  where
    by_result :
        (p : Result A × S)
        → m s ≡ p
        → ((a : A) × (u : S) × (m s ≡ (ok a, u))) ⊎ ((c : ℕ) × (u : S) × (m s ≡ (err c, u)))
    by_result (ok a, u) e = inl (a, u, e)
    by_result (err c, u) e = inr (c, u, e)

-- A call in sequence goes on after a success, and returns a failure.
pub >>=-ok :
    {S A B : Type 0} (m : Io S A) (f : A → Io S B) (s : S) {a : A} {u : S}
    → m s ≡ (ok a, u)
    → (m >>= f) s ≡ f a u
>>=-ok m f s e = ap (λ p. ((λ _. p) >>= f) s) e

pub >>=-err :
    {S A B : Type 0} (m : Io S A) (f : A → Io S B) (s : S) {c : ℕ} {u : S}
    → m s ≡ (err c, u)
    → (m >>= f) s ≡ (err c, u)
>>=-err m f s e = ap (λ p. ((λ _. p) >>= f) s) e

-- The first of two calls in sequence may be exchanged for one that does the same.
pub >>=-first :
    {S A B : Type 0} (m n : Io S A) (f : A → Io S B) (s : S) → m s ≡ n s → (m >>= f) s ≡ (n >>= f) s
>>=-first m n f s e = ap (λ p. ((λ _. p) >>= f) s) e

-- Calls in sequence agree where their continuations do.
pub >>=-cong :
    {S A B : Type 0} (m : Io S A) (f g : A → Io S B) (s : S)
    → ((a : A) (t : S) → f a t ≡ g a t)
    → (m >>= f) s ≡ (m >>= g) s
>>=-cong {S} {A} {B} m f g s h = by_result (m s)
  where
    by_result : (p : Result A × S) → ((λ _. p) >>= f) s ≡ ((λ _. p) >>= g) s
    by_result (ok a, u) = h a u
    by_result (err c, u) = refl

pub >>=-assoc :
    {S A B C : Type 0} (m : Io S A) (f : A → Io S B) (g : B → Io S C) (s : S)
    → ((m >>= f) >>= g) s ≡ (m >>= λ a. f a >>= g) s
>>=-assoc {S} {A} {B} {C} m f g s = by_result (m s)
  where
    by_result : (p : Result A × S) → (((λ _. p) >>= f) >>= g) s ≡ ((λ _. p) >>= λ a. f a >>= g) s
    by_result (ok a, u) = refl
    by_result (err c, u) = refl

-- A successful call in sequence is two successful calls.
pub >>=-eq-ok :
    {S A B : Type 0} (m : Io S A) (f : A → Io S B) (s : S) {b : B} {t : S}
    → (m >>= f) s ≡ (ok b, t)
    → (a : A) × (u : S) × (m s ≡ (ok a, u)) × (f a u ≡ (ok b, t))
>>=-eq-ok {S} {A} {B} m f s {b} {t} = by_result (m s) refl
  where
    by_result :
        (p : Result A × S)
        → m s ≡ p
        → (let (r, u) = p in elim r [ ok a ↦ f a u | err e ↦ (err e, u) ]) ≡ (ok b, t)
        → (a : A) × (u : S) × (m s ≡ (ok a, u)) × (f a u ≡ (ok b, t))
    by_result (ok a, u) e h = (a, u, e, h)
    by_result (err c, u) e h = cc

-- Calls in sequence fail where the first fails, or where the second does behind a success.
pub >>=-eq-err :
    {S A B : Type 0} (m : Io S A) (f : A → Io S B) (s : S) {c : ℕ} {t : S}
    → (m >>= f) s ≡ (err c, t)
    → (m s ≡ (err c, t)) ⊎ ((a : A) × (u : S) × (m s ≡ (ok a, u)) × (f a u ≡ (err c, t)))
>>=-eq-err {S} {A} {B} m f s {c} {t} h = elim (Io-cases m s) [
  | inl (a, u, e) ↦ inr (a, u, e, sym (>>=-ok m f s e) ∙ h)
  | inr (d, u, e) ↦ inl (e ∙ (cc (sym (>>=-err m f s e) ∙ h)))
]

pub >>=-pure : {S A : Type 0} (m : Io S A) (s : S) → (m >>= pure) s ≡ m s
>>=-pure {S} {A} m s = by_result (m s)
  where
    by_result : (p : Result A × S) → ((λ _. p) >>= pure) s ≡ p
    by_result (ok a, u) = refl
    by_result (err c, u) = refl

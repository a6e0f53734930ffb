-- ===== src/Base/State.antt =====
-- A computation over an object that may throw: `err` carries the message of `struct Error`.
use mathlib.Core.Path.{◌≡◌, ap}
use Prim.Native.String.{String}

pub data Result {ℓ} (A : Type ℓ) : Type ℓ where
  ok : A → Result A
  err : String → Result A

abbrev pub M : Type 0 → Type 0 → Type 0
M S A = S → Result (A × S)

infixl 5 ◌>>=◌ ◌>>◌
abbrev pub ◌>>=◌ : {S A B : Type 0} → M S A → (A → M S B) → M S B
◌>>=◌ m f s = elim (m s) [ ok (a, s') ↦ f a s' | err e ↦ err e ]

abbrev pub ◌>>◌ : {S A B : Type 0} → M S A → M S B → M S B
◌>>◌ m k = m >>= λ _. k

abbrev pub pure : {S A : Type 0} → A → M S A
pure a s = ok (a, s)

abbrev pub get : {S : Type 0} → M S S
get s = ok (s, s)

abbrev pub put : {S : Type 0} → S → M S (Unit {0})
put s _ = ok (tt, s)

abbrev pub throw : {S A : Type 0} → String → M S A
throw e _ = err e

-- The result of a computation goes to the next one.
pub >>=-ok :
    {S A B : Type 0} (m : M S A) (f : A → M S B) (s : S) {s' : S} {a : A}
    → m s ≡ ok (a, s')
    → (m >>= f) s ≡ f a s'
>>=-ok {S} {A} {B} m f s e =
    ap
      (λ (r : Result (A × S)). elim r as (λ _. Result (B × S)) [
        | ok (a, s') ↦ f a s'
        | err x ↦ err x
      ])
      e

-- ===== src/Base/Outcome.antt =====
-- What a Python call comes to: a value, or one of the built-in exceptions.
use mathlib.Core.Path.{◌≡◌, refl}
use mathlib.Core.Bool.{Bool, true, false}
use mathlib.Core.Option.{Option, none, some}
use mathlib.Core.List.{List, [], ◌∷◌, map}

pub data PyError : Type 0 where
  assertion_error attribute_error index_error key_error name_error network_x_error type_error
        value_error zero_division_error :
      PyError

pub data Result {ℓ} (A : Type ℓ) : Type ℓ where
  ok : A → Result A
  err : PyError → Result A

-- The rest of the code runs on the value, unless there was an exception.
infixl 5 ◌>>=◌ ◌>>◌
abbrev pub ◌>>=◌ {ℓ κ} : {A : Type ℓ} {B : Type κ} → Result A → (A → Result B) → Result B
err e >>= k = err e
ok a >>= k = k a

-- `assert b`
abbrev pub guard : Bool → Result (Unit {0})
guard false = err assertion_error
guard true = ok tt

abbrev pub ◌>>◌ {ℓ} : {B : Type ℓ} → Result (Unit {0}) → Result B → Result B
check >> rest = check >>= λ done. rest

abbrev pub or_raise {ℓ} : {A : Type ℓ} → PyError → Option A → Result A
or_raise e none = err e
or_raise e (some a) = ok a

-- The exception of a call that raises one.
abbrev pub failure {ℓ} : {A : Type ℓ} → Result A → Option PyError
failure (ok a) = none
failure (err e) = some e

-- A loop that appends `f x` for each `x`, and stops at the first exception.
abbrev pub traverse {ℓ κ} : {A : Type ℓ} {B : Type κ} → (A → Result B) → List A → Result (List B)
traverse f [] = ok []
traverse f (x ∷ xs) = f x >>= λ y. traverse f xs >>= λ ys. ok (y ∷ ys)

-- Code that runs to its end has a first value.
pub >>=-eq-ok {ℓ κ} :
    {A : Type ℓ} {B : Type κ} (r : Result A) (k : A → Result B) {end : B}
    → (r >>= k) ≡ ok end
    → (first : A) × (r ≡ ok first) × (k first ≡ ok end)
>>=-eq-ok (err e) k h = cc
>>=-eq-ok (ok first) k h = (first, refl, h)

-- A loop whose body never raises is a `map`.
pub traverse-ok {ℓ κ} :
    {A : Type ℓ} {B : Type κ} (f : A → Result B) (g : A → B) (xs : List A)
    → ((x : A) → f x ≡ ok (g x))
    → traverse f xs ≡ ok (map g xs)
traverse-ok f g [] h = refl
traverse-ok f g (x ∷ xs) h = rw (h x) (rw (traverse-ok f g xs h))

-- ===== src/Base/Result.antt =====
-- Results of code that raises. `ValueError` carries its message, which callers compare.
use Prim.Native.String.{String}
use mathlib.Core.Path.{◌≡◌, refl}
use mathlib.Core.Logic.{◌⊎◌, inl, inr}
use mathlib.Core.Bool.{Bool, true, false}
use mathlib.Core.Option.{Option, none, some}

-- `integrity_error` is sqlite3's: a violated UNIQUE, PRIMARY KEY or CHECK constraint.
-- `type_error` stands for the other exceptions of a malformed value (TypeError, KeyError).
pub data Error : Type 0 where
  value_error : String → Error
  integrity_error : Error
  type_error : Error

pub data Result {ℓ} (A : Type ℓ) : Type ℓ where
  err : Error → Result A
  ok : A → Result A

infixl 5 ◌>>=◌ ◌>>◌
-- The statement after: an exception skips it.
abbrev pub ◌>>=◌ {κ ℓ} : {B : Type κ} → {A : Type ℓ} → Result B → (B → Result A) → Result A
err raised >>= rest = err raised
ok value >>= rest = rest value

abbrev pub ◌>>◌ {κ} : {A : Type κ} → Result (Unit {0}) → Result A → Result A
first >> second = first >>= λ done. second

-- `if c: raise ValueError(message)`
abbrev pub raise_if : Bool → String → Result (Unit {0})
raise_if true message = err (value_error message)
raise_if false message = ok tt

-- `if not row: raise ValueError(message)`
abbrev pub or_raise {ℓ} : {A : Type ℓ} → Option A → String → Result A
or_raise none message = err (value_error message)
or_raise (some a) message = ok a

abbrev pub IsOk {ℓ} : {A : Type ℓ} → Result A → Type 0
IsOk (ok a) = Unit
IsOk (err e) = ⊥

pub Result-cases {ℓ} :
    {A : Type ℓ} (r : Result A) → ((a : A) × (r ≡ ok a)) ⊎ ((e : Error) × (r ≡ err e))
Result-cases (ok a) = inl (a, refl)
Result-cases (err e) = inr (e, refl)

-- A chain that succeeds has a first part that does.
pub >>=-eq-ok {κ ℓ} :
    {B : Type κ}
    → {A : Type ℓ} → (first : Result B) (rest : B → Result A) → {last : A}
    → (first >>= rest) ≡ ok last
    → (value : B) × (first ≡ ok value) × (rest value ≡ ok last)
>>=-eq-ok (err raised) rest fine = cc
>>=-eq-ok (ok value) rest fine = (value, refl, fine)

pub or_raise_found {ℓ} :
    {A : Type ℓ} (o : Option A) (message : String) {a : A} → or_raise o message ≡ ok a → o ≡ some a
or_raise_found none message e = cc
or_raise_found (some b) message e = cc

-- The guard that a chain passed.
pub raise_if-passed {ℓ} :
    {A : Type ℓ} (c : Bool) (message : String) (rest : Result A) {last : A}
    → (raise_if c message >> rest) ≡ ok last
    → (c ≡ false) × (rest ≡ ok last)
raise_if-passed true message rest e = cc
raise_if-passed false message rest e = (refl, e)

pub ok_inj {ℓ} : {A : Type ℓ} {a b : A} → ok a ≡ ok b → a ≡ b
ok_inj e = cc

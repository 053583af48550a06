-- ===== src/App/Http.antt =====
-- What a route does until it replies: `error(message, status)` ends it. The messages are for display,
-- the model keeps the status.
use slipvolt.Base.{ℕ, ◌≡◌, refl, ◌⊎◌, inl, inr, Bool, true, false, Option, none, some}
use slipvolt.Base.Result.{Result, ok, err}

pub data Http {ℓ} (A : Type ℓ) : Type ℓ where
  refused : ℕ → Http A
  granted : A → Http A

infixl 5 ◌>>=◌ ◌>>◌
-- The statement after: an exception skips it.
abbrev pub ◌>>=◌ {κ ℓ} : {B : Type κ} → {A : Type ℓ} → Http B → (B → Http A) → Http A
refused status >>= rest = refused status
granted value >>= rest = rest value

abbrev pub ◌>>◌ {κ} : {A : Type κ} → Http (Unit {0}) → Http A → Http A
first >> second = first >>= λ done. second

-- `if c: error(message, status)`
abbrev pub refuse_if : Bool → ℕ → Http (Unit {0})
refuse_if true status = refused status
refuse_if false status = granted tt

-- `if not row: error(message, status)`
abbrev pub or_refuse {ℓ} : {A : Type ℓ} → Option A → ℕ → Http A
or_refuse none status = refused status
or_refuse (some a) status = granted a

-- `except ...: error(message, status)`
abbrev pub or_status {ℓ} : {A : Type ℓ} → Result A → ℕ → Http A
or_status (err e) status = refused status
or_status (ok a) status = granted a

-- A chain that is granted has a first part that is.
pub >>=-eq-granted {κ ℓ} :
    {B : Type κ}
    → {A : Type ℓ} → (first : Http B) (rest : B → Http A) → {last : A}
    → (first >>= rest) ≡ granted last
    → (value : B) × (first ≡ granted value) × (rest value ≡ granted last)
>>=-eq-granted (refused status) rest fine = cc
>>=-eq-granted (granted value) rest fine = (value, refl, fine)

pub refuse_if-passed {ℓ} :
    {A : Type ℓ} (c : Bool) (status : ℕ) (rest : Http A) {last : A}
    → (refuse_if c status >> rest) ≡ granted last
    → (c ≡ false) × (rest ≡ granted last)
refuse_if-passed true status rest e = cc
refuse_if-passed false status rest e = (refl, e)

pub or_refuse_found {ℓ} :
    {A : Type ℓ} (o : Option A) (status : ℕ) {a : A} → or_refuse o status ≡ granted a → o ≡ some a
or_refuse_found none status e = cc
or_refuse_found (some b) status e = cc

pub Http-cases {ℓ} :
    {A : Type ℓ} (r : Http A) → ((a : A) × (r ≡ granted a)) ⊎ ((status : ℕ) × (r ≡ refused status))
Http-cases (granted a) = inl (a, refl)
Http-cases (refused status) = inr (status, refl)

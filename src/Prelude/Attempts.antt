-- ===== src/Prelude/Attempts.antt =====
-- A fallible computation that may also panic (which aborts the process in the release profile of
-- Cargo.toml).

use mathlib.Core.Path.{◌≡◌, refl}

pub data Attempt {ℓ κ} (E : Type κ) (A : Type ℓ) : Type (ℓ ⊔ κ) where
  returns : A → Attempt E A
  fails : E → Attempt E A
  panics : Attempt E A

infixl 5 ◌>>=◌ ◌>>◌
abbrev pub ◌>>=◌ {ℓ κ μ} :
    {E : Type κ} {A : Type ℓ} {B : Type μ} → Attempt E A → (A → Attempt E B) → Attempt E B
returns a >>= f = f a
fails e >>= f = fails e
panics >>= f = panics

abbrev pub ◌>>◌ {κ μ} : {E : Type κ} {B : Type μ} → Attempt E (Unit {0}) → Attempt E B → Attempt E B
m >> k = m >>= λ _. k

-- `From` conversions of the error at a `?`.
abbrev pub convert {ℓ κ μ} :
    {E : Type κ} {F : Type μ} {A : Type ℓ} → (E → F) → Attempt E A → Attempt F A
convert f (returns a) = returns a
convert f (fails e) = fails (f e)
convert f panics = panics

-- Inversion of a bind that returns.
pub >>=-eq-returns {ℓ κ μ} :
    {E : Type κ} {A : Type ℓ} {B : Type μ} (m : Attempt E A) (f : A → Attempt E B) {b : B}
    → (m >>= f) ≡ returns b
    → (a : A) × (m ≡ returns a) × (f a ≡ returns b)
>>=-eq-returns (returns a) f h = (a, refl, h)
>>=-eq-returns (fails e) f h = absurd (cc h)
>>=-eq-returns panics f h = absurd (cc h)

pub returns-injective {ℓ κ} :
    {E : Type κ} {A : Type ℓ} {a b : A} → ◌≡◌ {A = Attempt E A} (returns a) (returns b) → a ≡ b
returns-injective h = cc h

pub >>=-assoc {ℓ κ μ ν} :
    {E : Type κ} {A : Type ℓ} {B : Type μ} {C : Type ν} (m : Attempt E A) (f : A → Attempt E B)
    (g : B → Attempt E C)
    → ((m >>= f) >>= g) ≡ (m >>= λ a. f a >>= g)
>>=-assoc (returns a) f g = refl
>>=-assoc (fails e) f g = refl
>>=-assoc panics f g = refl

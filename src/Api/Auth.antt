-- ===== src/Api/Auth.antt =====
-- src/api/auth.rs: the optional API key.
use edgewit.Prelude.{
  ℕ, ◌≡◌, ◌⊎◌, ◌↔◌, inl, inr, refl, ap, Bool, true, false, Option, none, some, [], ◌∷◌, ◌++◌, Text,
  ascii, text_eq, text_eq_iff, Result, ok, err, arith,
}

abbrev bearer : Text → Text
bearer key = ascii "Bearer " ++ key

-- The value of `EDGEWIT_API_KEY` when it was first read; an empty key counts as none.
unfoldable pub get_expected_auth_header : Option Text → Option Text
get_expected_auth_header none = none
get_expected_auth_header (some []) = none
get_expected_auth_header (some (c ∷ key)) = some (bearer (c ∷ key))

-- `some header_val if header_val == expected_auth`
abbrev pub matches : Text → Option Text → Bool
matches expected none = false
matches expected (some header) = text_eq header expected

abbrev pub checked : {A : Type 0} → Bool → A → Result ℕ A
checked true response = ok response
checked false response = err 401

abbrev pub allowed : {A : Type 0} → Option Text → Option Text → A → Result ℕ A
allowed none header response = ok response
allowed (some expected) header response = checked (matches expected header) response

-- `header` is the request's authorization, if it has one that is readable; `response` is what the next
-- handler gives.
unfoldable pub auth_middleware : {A : Type 0} → Option Text → Option Text → A → Result ℕ A
auth_middleware api_key header response = allowed (get_expected_auth_header api_key) header response

matches_iff :
    (expected : Text) (header : Option Text)
    → (matches expected header ≡ true) ↔ (header ≡ some expected)
matches_iff expected none = ground arith
matches_iff expected (some h) =
    (λ m. ap (λ t. some t) ((text_eq_iff h expected).0 m), λ e. (text_eq_iff h expected).1 (cc e))

checked_iff :
    {A : Type 0} (m : Bool) (response : A) → (checked m response ≡ ok response) ↔ (m ≡ true)
checked_iff true response = (λ h. refl, λ h. refl)
checked_iff false response = ground arith

header_of :
    (c : ℕ) (key : Text) (header : Option Text)
    → (some (c ∷ key) ≡ none)
      ⊎ ((some (c ∷ key) ≡ some [])
          ⊎ ((k : Text) × (some (c ∷ key) ≡ some k) × (header ≡ some (bearer k))))
    → header ≡ some (bearer (c ∷ key))
header_of c key header (inl e) = absurd (cc e)
header_of c key header (inr (inl e)) = absurd (cc e)
header_of c key header (inr (inr (k, e, h))) = cc (e, h)

-- A request reaches its handler exactly if no key is configured, or an empty one, or the request's
-- authorization is `Bearer`, a space and the key.
pub auth_middleware_iff :
    {A : Type 0} (api_key header : Option Text) (response : A)
    → (auth_middleware api_key header response ≡ ok response) ↔ (
        (api_key ≡ none)
        ⊎ ((api_key ≡ some [])
            ⊎ ((key : Text) × (api_key ≡ some key) × (header ≡ some (ascii "Bearer " ++ key)))))
unfolding auth_middleware get_expected_auth_header
auth_middleware_iff none header response = (λ h. inl refl, λ h. refl)
auth_middleware_iff (some []) header response = (λ h. inr (inl refl), λ h. refl)
auth_middleware_iff (some (c ∷ key)) header response = (
  λ h. inr (
      inr (
        c ∷ key,
        refl,
        (matches_iff (bearer (c ∷ key)) header).0
            ((checked_iff (matches (bearer (c ∷ key)) header) response).0 h),
      )),
  λ h.
      (checked_iff (matches (bearer (c ∷ key)) header) response).1
        ((matches_iff (bearer (c ∷ key)) header).1 (header_of c key header h)),
)

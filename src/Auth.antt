-- ===== src/Auth.antt =====
-- internal/auth/token.go: the shared token of the relay.
use Prim.Native.String.{len}
use beacon_desk.Prelude.{
  String, ap, ◌≡◌, ◌↔◌, ◌⊎◌, inl, inr, Bool, true, false, not, ◌=ℕ◌, ◌==◌, arith, if◌then◌else◌,
  string_test,
}

pub record TokenValidator : Type 0 where
  pub shared_token : String

unfoldable pub new_token_validator : String → TokenValidator
new_token_validator shared_token = record { shared_token = shared_token }

-- `subtle.ConstantTimeCompare` answers as `==` does.
unfoldable pub validate : TokenValidator → String → Bool
validate v token =
    if v.shared_token == ""
    then true
    else if not (len token =ℕ len v.shared_token)
    then false
    else token == v.shared_token

-- A token passes exactly when none is asked for or it is the shared one.
pub validate_iff :
    (v : TokenValidator) (token : String)
    → (validate v token ≡ true) ↔ ((v.shared_token ≡ "") ⊎ (token ≡ v.shared_token))
unfolding validate
validate_iff v token = elim (string_test v.shared_token "") [
  | inl (e, t) ↦ (λ _. inl e, λ _. rw t)
  | inr (n, t) ↦ elim (string_test token v.shared_token) [
    | inl (e', t') ↦ (λ _. inr e', λ _. rw (t, t') (ground (arith, ap len e')))
    | inr (n', t') ↦ (λ h. absurd (ground arith), λ h. absurd (ground arith))
  ]
]

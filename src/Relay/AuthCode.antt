-- ===== src/Relay/AuthCode.antt =====
-- server.go: the temporary codes of `handleAuthCodePublish` and `validateTargetAuthCode`.
use beacon_desk.Prelude.{
  ◌*◌, ◌≤◌, ◌<◌, ◌≡◌, ◌≢◌, ◌⊎◌, String, false, none, some, arith, ltb, ◌==◌, eq_iff, inl, inr,
  string_test, Bool-cases,
}
use beacon_desk.Prelude.Int.{ℤ, pos_part, neg_part}
use beacon_desk.Config.{minute}
use beacon_desk.Relay.State.{Client, Env, target_code_expired, target_code_invalid}
use beacon_desk.Relay.Server.{auth_code_ttl, validate_target_auth_code}

-- Whatever lifetime is asked for, a code lives for more than no time and for at most half an hour.
pub auth_code_ttl_bounds :
    (ttl_millis : ℤ)
    → (0 < pos_part (auth_code_ttl ttl_millis))
      × (pos_part (auth_code_ttl ttl_millis) ≤ 30 * minute)
      × (neg_part (auth_code_ttl ttl_millis) ≡ 0)
unfolding auth_code_ttl
auth_code_ttl_bounds ttl_millis = ground arith

-- Where a target has a code, there are three cases: the request gives that code in its time, passes,
-- and uses the code up; or it is late, clears the code and is told so; or it is in time and gives a
-- wrong code, is told so, and changes nothing.
pub validate_target_auth_code_lem :
    (target : Client) (env : Env) (code : String)
    → target.auth_code ≢ ""
    → ((code ≡ target.auth_code)
        × (env.now ≤ target.auth_expiry)
        × (validate_target_auth_code target env code
            ≡ (record target { auth_code = ""; auth_expiry = 0 }, none)))
      ⊎ ((target.auth_expiry < env.now)
          × (validate_target_auth_code target env code
              ≡ (record target { auth_code = ""; auth_expiry = 0 }, some target_code_expired)))
      ⊎ ((env.now ≤ target.auth_expiry)
          × (code ≢ target.auth_code)
          × (validate_target_auth_code target env code ≡ (target, some target_code_invalid)))
unfolding validate_target_auth_code
validate_target_auth_code_lem target env code h =
    let has_code : (target.auth_code == "") ≡ false = ground (arith, eq_iff target.auth_code "") in
    elim (Bool-cases (ltb target.auth_expiry env.now)) [
      | inl late ↦ inr (inl (ground arith, rw (has_code, late)))
      | inr early ↦ elim (string_test code target.auth_code) [
        | inl (same, t) ↦ inl (same, ground arith, rw (has_code, early, t))
        | inr (other, t) ↦ inr (inr (ground arith, other, rw (has_code, early, t)))
      ]
    ]

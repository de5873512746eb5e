-- ===== src/Examples/Handlers.antt =====
-- Runs of the handlers: messages through a session, departures, registrations, links and codes.
use beacon_desk.Prelude.{
  ◌*◌, ◌≡◌, ◌≢◌, ◌↔◌, ◌⊎◌, ◌≤◌, ◌<◌, refl, String, Bool, true, false, none, some, arith, eq_iff,
  is_some,
}
use beacon_desk.Prelude.Int.{pos, pos_part, neg_part}
use beacon_desk.Config.{minute}
use beacon_desk.Auth.{TokenValidator}
use beacon_desk.Maps.{lookup, keep_unless}
use beacon_desk.Protocol.Payloads.{WebShareRevokePayload, WebSharePayload}
use beacon_desk.Relay.State.{Session, target_code_expired, target_code_invalid}
use beacon_desk.Relay.Hub.{register, unregister, unregister_web_peer, session_names, request_names}
use beacon_desk.Relay.Server.{
  session_peer, readdressed, forward_session_message, forward_input_message,
  forward_stream_control_message, validate_target_auth_code, auth_code_ttl,
}
use beacon_desk.Relay.WebShare.{
  active, get_active_web_share, list_web_shares, revoke_web_share, is_over, web_share_payload,
}
use beacon_desk.Relay.Forwarding.{
  Delivered, forward_session_message-Delivered, forward_input_message-Delivered,
}
use beacon_desk.Relay.Purge.{Purged, unregister-Purged, unregister_web_peer-purges}
use beacon_desk.Relay.Registration.{register-refuses, register-lookup}
use beacon_desk.Relay.Sharing.{
  get_active_web_share_iff, IsNewestFirst, count, is_shown, list_web_shares_lem, Revoked,
  revoke_web_share-revokes,
}
use beacon_desk.Relay.AuthCode.{auth_code_ttl_bounds, validate_target_auth_code_lem}
use beacon_desk.Examples.Data.{at_ten, share_url, busy, mouse, alice, bob, link_of_bob}

mouse_passes : (forward_input_message busy at_ten 1 mouse).1 ≡ none
unfolding forward_input_message lookup
mouse_passes = refl

forward_input_message-Delivered_example :
    (session : Session) × (lookup "s1" busy.sessions ≡ some session)
    × (session.input_allowed ≡ true)
    × ("alice" ≡ session.controller_id)
    × Delivered busy
        (forward_input_message busy at_ten 1 mouse).0
        session.controlled_id
        (readdressed mouse session.controller_id session.controlled_id)
forward_input_message-Delivered_example =
    forward_input_message-Delivered busy at_ten 1 mouse mouse_passes

-- The controlled side may not send input.
mouse_of_bob_refused : (forward_input_message busy at_ten 2 mouse).1 ≢ none
unfolding forward_input_message lookup
mouse_of_bob_refused h = cc

answer_passes : (forward_session_message busy at_ten 2 mouse).1 ≡ none
unfolding forward_session_message lookup
answer_passes = refl

forward_session_message-Delivered_example :
    (session : Session) × (to : String) × (lookup "s1" busy.sessions ≡ some session)
    × (session_peer session "bob" ≡ some to)
    × Delivered busy (forward_session_message busy at_ten 2 mouse).0 to (readdressed mouse "bob" to)
forward_session_message-Delivered_example =
    forward_session_message-Delivered busy at_ten 2 mouse answer_passes

control_passes : (forward_stream_control_message busy at_ten 1 mouse).1 ≡ none
unfolding forward_stream_control_message lookup
control_passes = refl

alice_named : alice.device_id ≢ ""
alice_named h = ground (arith, eq_iff "alice" "")

unregister-Purged_example : Purged busy (unregister busy at_ten 1) at_ten "alice" 1
unfolding lookup
unregister-Purged_example = unregister-Purged busy at_ten 1 alice_named (refl, tt) (refl, tt)

unregister_web_peer-purges_example :
    ((k : String)
      → lookup k (unregister_web_peer busy at_ten 7).sessions
        ≡ keep_unless (session_names "web_1") (lookup k busy.sessions))
    × ((k : String)
        → lookup k (unregister_web_peer busy at_ten 7).pending
          ≡ keep_unless (request_names "web_1") (lookup k busy.pending))
    × (lookup "web_1" (unregister_web_peer busy at_ten 7).web_peers ≢ some 7)
    × ((unregister_web_peer busy at_ten 7).shares ≡ busy.shares)
    × ((unregister_web_peer busy at_ten 7).clients ≡ busy.clients)
unfolding lookup
unregister_web_peer-purges_example = unregister_web_peer-purges busy at_ten 7 (refl, tt) (refl, tt)

register-refuses_example :
    (((alice.device_id ≡ "") ⊎ ((0 < 1000) × (1000 ≤ 2)))
      × ((register busy at_ten 1).1 ≢ none)
      × ((register busy at_ten 1).0 ≡ busy))
    ⊎ ((alice.device_id ≢ "")
        × ((pos_part busy.cfg.max_clients ≡ 0) ⊎ (2 < 1000))
        × ((register busy at_ten 1).1 ≡ none))
register-refuses_example = register-refuses busy at_ten 1

registered : (register busy at_ten 1).1 ≡ none
unfolding register lookup
registered = refl

register-lookup_example : lookup "alice" (register busy at_ten 1).0.clients ≡ some 1
register-lookup_example = register-lookup busy at_ten 1 registered

get_active_web_share_iff_example :
    ((get_active_web_share busy at_ten "tok1").1 ≡ active link_of_bob) ↔ (
      (link_of_bob.token ≢ "")
      × (lookup "tok1" busy.shares ≡ some link_of_bob)
      × (link_of_bob.revoked ≡ false)
      × (10_000_000_000 ≤ 3_600_000_000_000)
      × (is_some (lookup "bob" busy.clients) ≡ true))
get_active_web_share_iff_example = get_active_web_share_iff busy at_ten "tok1" link_of_bob

link_opens : (get_active_web_share busy at_ten "tok1").1 ≡ active link_of_bob
unfolding get_active_web_share lookup
link_opens = refl

list_web_shares_lem_example :
    IsNewestFirst (list_web_shares share_url busy at_ten "bob").1
    × ((p : WebSharePayload → Bool)
        → count p (list_web_shares share_url busy at_ten "bob").1
          ≡ count (is_shown "bob" at_ten.now (λ x. p (web_share_payload share_url x))) busy.shares)
    × ((k : String)
        → lookup k (list_web_shares share_url busy at_ten "bob").0.shares
          ≡ keep_unless (is_over at_ten.now) (lookup k busy.shares))
unfolding lookup
list_web_shares_lem_example = list_web_shares_lem share_url busy at_ten "bob" (refl, tt)

abbrev by_id : WebShareRevokePayload
by_id = record { id = "wshr_1"; token = "" }

revocation_succeeds : (revoke_web_share busy at_ten 2 by_id).1 ≡ none
unfolding revoke_web_share
revocation_succeeds = refl

revoke_web_share-revokes_example : Revoked busy (revoke_web_share busy at_ten 2 by_id).0 "bob" by_id
unfolding lookup
revoke_web_share-revokes_example =
    revoke_web_share-revokes busy at_ten 2 by_id (refl, tt) revocation_succeeds

bob_has_code : bob.auth_code ≢ ""
bob_has_code h = ground (arith, eq_iff "123456" "")

abbrev right_code : String
right_code = "123456"

validate_target_auth_code_lem_example :
    ((right_code ≡ bob.auth_code)
      × (10_000_000_000 ≤ 20_000_000_000)
      × (validate_target_auth_code bob at_ten "123456"
          ≡ (record bob { auth_code = ""; auth_expiry = 0 }, none)))
    ⊎ ((20_000_000_000 < 10_000_000_000)
        × (validate_target_auth_code bob at_ten "123456"
            ≡ (record bob { auth_code = ""; auth_expiry = 0 }, some target_code_expired)))
    ⊎ ((10_000_000_000 ≤ 20_000_000_000)
        × (right_code ≢ bob.auth_code)
        × (validate_target_auth_code bob at_ten "123456" ≡ (bob, some target_code_invalid)))
validate_target_auth_code_lem_example =
    validate_target_auth_code_lem bob at_ten "123456" bob_has_code

auth_code_ttl_bounds_example :
    (0 < pos_part (auth_code_ttl (pos 7_200_000)))
    × (pos_part (auth_code_ttl (pos 7_200_000)) ≤ 30 * minute)
    × (neg_part (auth_code_ttl (pos 7_200_000)) ≡ 0)
auth_code_ttl_bounds_example = auth_code_ttl_bounds (pos 7_200_000)

abbrev closed_relay : TokenValidator
closed_relay = record { shared_token = "secret" }

abbrev guess : String
guess = "guess"

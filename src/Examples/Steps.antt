-- ===== src/Examples/Steps.antt =====
-- Runs of the relay.
use beacon_desk.Prelude.{◌≡◌, refl, ◌⊎◌, some, arith, true}
use beacon_desk.Config.{default_relay_config}
use beacon_desk.Maps.{lookup, insert}
use beacon_desk.Protocol.Payloads.{decode_session_confirm, decode_register}
use beacon_desk.Protocol.Json.{bool_field, string_field, scan_field, same_key}
use beacon_desk.Auth.{validate, new_token_validator}
use beacon_desk.Relay.Limiter.{new_bandwidth_limiter}
use beacon_desk.Relay.State.{Session, Server, new_server, set_client}
use beacon_desk.Relay.Client.{new_client}
use beacon_desk.Relay.Hub.{register}
use beacon_desk.Relay.Server.{handle_register, handle_session_confirm}
use beacon_desk.Relay.Dispatch.{read_client}
use beacon_desk.Relay.Steps.{Step, here, next, accept, read, IsFreshClient}
use beacon_desk.Relay.Invariant.{Inv, relay-Inv}
use beacon_desk.Relay.Consent.{SameSession, ConsentedStep, session_needs_consent}
use beacon_desk.Protocol.Types.{normalize_session_mode, session_mode_allows_input}
use beacon_desk.Examples.Data.{
  at_ten, share_url, render, size, all_blank, no_peers, empty_relay, busy, registration, acceptance,
}

abbrev connected : Server
connected = set_client empty_relay 3 (new_client empty_relay at_ten true true)

abbrev carol_registered : Server
carol_registered = read_client share_url render connected at_ten 3 (some registration)

-- A device that registers is in the map.
carol_found : lookup "carol" carol_registered.clients ≡ some 3
unfolding read_client new_client new_server lookup insert handle_register register decode_register
    string_field scan_field same_key validate new_token_validator new_bandwidth_limiter
carol_found = refl

nobody_there : IsFreshClient empty_relay 3
unfolding new_server lookup
nobody_there id e = cc

relay-Inv_example : Inv carol_registered
relay-Inv_example =
    relay-Inv share_url render size default_relay_config all_blank no_peers {t = carol_registered}
      (λ c. omega arith) (λ p. omega arith)
      (next (next here (accept at_ten 3 true true nobody_there))
        (read at_ten 3 (some registration)))

abbrev confirmed : Server
confirmed = read_client share_url render busy at_ten 2 (some acceptance)

abbrev confirming : Step share_url render size busy confirmed
confirming = read at_ten 2 (some acceptance)

abbrev second_session : Session
second_session = record {
  id = "sess_00ff";
  controller_id = "alice";
  controlled_id = "bob";
  mode = "view-control";
  input_allowed = true;
  created_at = 10_000_000_000;
  last_activity_at = 10_000_000_000;
}

second_session_there : lookup "sess_00ff" confirmed.sessions ≡ some second_session
unfolding read_client lookup handle_session_confirm decode_session_confirm bool_field string_field
    insert normalize_session_mode session_mode_allows_input
second_session_there = refl

session_needs_consent_example :
    ((y : Session) × (lookup "sess_00ff" busy.sessions ≡ some y) × SameSession second_session y)
    ⊎ ConsentedStep confirming second_session
session_needs_consent_example =
    session_needs_consent share_url render size confirming "sess_00ff" second_session
      second_session_there

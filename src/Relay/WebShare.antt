-- ===== src/Relay/WebShare.antt =====
-- internal/relay/webshare.go: the links by which a browser reaches a device.
-- `webShareURL` is the argument `share_url`: it prints a link and decides nothing.
use beacon_desk.Prelude.{
  ℕ, ◌*◌, String, Bool, false, not, ◌&&◌, ◌||◌, Option, none, some, List, [], ◌∷◌, map, ltb, ◌==◌,
  if◌then◌else◌, trim_space, is_some,
}
use beacon_desk.Prelude.Int.{ℤ, pos, ltb_ℤ}
use beacon_desk.Config.{minute, hour}
use beacon_desk.Maps.{Map, lookup, insert, delete, delete_where}
use beacon_desk.Protocol.Types.{
  normalize_session_mode, type_web_share_created, type_web_share_list_result,
  type_web_share_revoked,
}
use beacon_desk.Protocol.Message.{Envelope, must_envelope, unix_milli}
use beacon_desk.Protocol.Payloads.{
  WebSharePayload, WebShareCreatePayload, WebShareRevokePayload, decode_web_share_create,
  decode_web_share_revoke, encode_web_share_created, encode_web_share_list_result,
  encode_web_share_revoked,
}
use beacon_desk.Relay.State.{
  WebShare, Server, Env, Error, Outcome, bad_payload, not_registered, share_id_or_token_required,
  share_not_found, share_token_required, share_link_not_found, share_expired_or_revoked,
  controlled_device_offline, time_add,
}
use beacon_desk.Relay.Client.{conn_write}
use beacon_desk.Relay.Hub.{new_id}
use beacon_desk.Relay.Server.{from_millis}

abbrev pub default_web_share_ttl : ℤ
default_web_share_ttl = pos hour

abbrev pub max_web_share_ttl : ℤ
max_web_share_ttl = pos (7 * 24 * hour)

unfoldable pub normalize_web_share_ttl : ℤ → ℤ
normalize_web_share_ttl ttl =
    if not (ltb_ℤ (pos 0) ttl)
    then default_web_share_ttl
    else if ltb_ℤ max_web_share_ttl ttl
    then max_web_share_ttl
    else if ltb_ℤ ttl (pos minute)
    then pos minute
    else ttl

unfoldable pub web_share_payload : (String → String) → WebShare → WebSharePayload
web_share_payload share_url share = record {
  id = share.id;
  token = share.token;
  url = share_url share.token;
  controlled_id = share.controlled_id;
  controlled_name = share.controlled_name;
  mode = share.mode;
  label = share.label;
  created_at = pos (unix_milli share.created_at);
  expires_at = pos (unix_milli share.expires_at);
  revoked = share.revoked;
}

-- The share that `handleWebShareCreate` builds.
unfoldable pub new_web_share : Server → Env → ℕ → WebShareCreatePayload → WebShare
unfolding normalize_web_share_ttl trim_space
new_web_share s env c payload = record {
  id = new_id "wshr_" env;
  token = env.random_token;
  controlled_id = (s.client_at c).device_id;
  controlled_name = (s.client_at c).device_name;
  mode = normalize_session_mode payload.mode;
  label = trim_space payload.label;
  created_at = env.now;
  expires_at = time_add env.now (normalize_web_share_ttl (from_millis payload.ttl_millis));
  revoked = false;
  revoked_at = 0;
}

unfoldable pub add_web_share : (String → String) → Server → Env → ℕ → WebShare → Outcome
unfolding conn_write web_share_payload
add_web_share share_url s env c share =
    conn_write (record s { shares = insert share.token share s.shares }) c
      (must_envelope env.now type_web_share_created "relay" (s.client_at c).device_id (
        encode_web_share_created (record {
          share = web_share_payload share_url share;
          message = "web control link created; visitors still require target-side approval";
        })))

unfoldable pub handle_web_share_create : (String → String) → Server → Env → ℕ → Envelope → Outcome
unfolding add_web_share new_web_share
handle_web_share_create share_url s env c msg =
    if (s.client_at c).device_id == ""
    then (s, some not_registered)
    else elim (decode_web_share_create msg.payload) [
      | none ↦ (s, some bad_payload)
      | some payload ↦ add_web_share share_url s env c (new_web_share s env c payload)
    ]

-- A share is over once it is revoked or its time has passed.
abbrev pub is_over : ℕ → WebShare → Bool
is_over now share = share.revoked || ltb share.expires_at now

-- The shares of one device that the loop of `listWebShares` collects.
unfoldable pub shares_of : String → ℕ → Map WebShare → List WebShare
shares_of device now [] = []
shares_of device now ((token, share) ∷ rest) =
    let others = shares_of device now rest in
    if is_over now share
    then others
    else if share.controlled_id == device
    then share ∷ others
    else others

unfoldable pub insert_share : WebSharePayload → List WebSharePayload → List WebSharePayload
insert_share a [] = a ∷ []
insert_share a (b ∷ rest) =
    if ltb_ℤ a.created_at b.created_at then b ∷ insert_share a rest else a ∷ b ∷ rest

-- `slices.SortFunc`, newest first.
unfoldable pub sort_shares : List WebSharePayload → List WebSharePayload
unfolding insert_share
sort_shares [] = []
sort_shares (a ∷ rest) = insert_share a (sort_shares rest)

unfoldable pub list_web_shares :
    (String → String) → Server → Env → String → Server × List WebSharePayload
unfolding shares_of sort_shares delete_where
list_web_shares share_url s env device = (
  record s { shares = delete_where (is_over env.now) s.shares s.shares },
  sort_shares (map (web_share_payload share_url) (shares_of device env.now s.shares)),
)

unfoldable pub handle_web_share_list : (String → String) → Server → Env → ℕ → Outcome
unfolding list_web_shares conn_write
handle_web_share_list share_url s env c =
    let device = (s.client_at c).device_id in
    let listed = list_web_shares share_url s env device in
    if device == ""
    then (s, some not_registered)
    else conn_write listed.0 c (
        must_envelope env.now type_web_share_list_result "relay" device
          (encode_web_share_list_result (record { shares = listed.1 })))

-- Is this the share that `handleWebShareRevoke` looks for?
abbrev pub is_revocable : String → WebShareRevokePayload → WebShare → Bool
is_revocable device payload share =
    share.controlled_id == device
    && ((not (payload.id == "") && share.id == payload.id)
        || (not (payload.token == "") && share.token == payload.token))

-- The loop stops at the first share that matches, under the key of the map.
unfoldable pub find_revocable :
    String → WebShareRevokePayload → Map WebShare → Option (String × WebShare)
find_revocable device payload [] = none
find_revocable device payload ((token, share) ∷ rest) =
    if is_revocable device payload share
    then some (token, share)
    else find_revocable device payload rest

unfoldable pub revoke_web_share : Server → Env → ℕ → WebShareRevokePayload → Outcome
unfolding find_revocable conn_write
revoke_web_share s env c payload =
    let device = (s.client_at c).device_id in
    if payload.id == "" && payload.token == ""
    then (s, some share_id_or_token_required)
    else elim (find_revocable device payload s.shares) [
      | none ↦ (s, some share_not_found)
      | some (token, share) ↦
          conn_write (record s { shares = delete token s.shares }) c
            (must_envelope env.now type_web_share_revoked "relay" device (
              encode_web_share_revoked (record {
                id = share.id;
                token = share.token;
                message = "web control link revoked";
              })))
    ]

unfoldable pub handle_web_share_revoke : Server → Env → ℕ → Envelope → Outcome
unfolding revoke_web_share
handle_web_share_revoke s env c msg =
    if (s.client_at c).device_id == ""
    then (s, some not_registered)
    else elim (decode_web_share_revoke msg.payload) [
      | none ↦ (s, some bad_payload)
      | some payload ↦ revoke_web_share s env c payload
    ]

-- `getActiveWebShare`: a copy of the share, or the error.
pub data Active : Type 0 where
  active : WebShare → Active
  inactive : Error → Active

unfoldable pub get_active_web_share : Server → Env → String → Server × Active
get_active_web_share s env token =
    if token == "" then (s, inactive share_token_required) else elim (lookup token s.shares) [
      | none ↦ (s, inactive share_link_not_found)
      | some share ↦
          if is_over env.now share
          then (record s { shares = delete token s.shares }, inactive share_expired_or_revoked)
          else if not (is_some (lookup share.controlled_id s.clients))
          then (s, inactive controlled_device_offline)
          else (s, active share)
    ]

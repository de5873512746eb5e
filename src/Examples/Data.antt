-- ===== src/Examples/Data.antt =====
-- A relay with two devices and a session between them: alice, on connection 1, controls bob, on
-- connection 2, who shares a link.
use beacon_desk.Prelude.{ℕ, String, true, false, Option, some, [], ◌∷◌, ◌=ℕ◌, if◌then◌else◌}
use beacon_desk.Prelude.Int.{pos}
use beacon_desk.Config.{default_relay_config}
use beacon_desk.Protocol.Json.{Json, Fields, object, field, end, text, boolean}
use beacon_desk.Protocol.Message.{Envelope}
use beacon_desk.Relay.State.{
  Client, WebPeer, Session, PendingRequest, WebShare, Server, Env, Error, new_server,
}

abbrev pub at_ten : Env
at_ten = record { now = 10_000_000_000; random_hex = "00ff"; random_token = "tok2" }

abbrev pub share_url : String → String
share_url token = token

abbrev pub render : Error → String
render e = "error"

abbrev pub size : Option Json → ℕ
size payload = 100

abbrev pub blank_client : Client
blank_client = record {
  written = [];
  conn_closed = false;
  writable = true;
  send = [];
  picks_send = false;
  closed = false;
  last_message_at = 9_000;
  device_id = "";
  device_name = "";
  role = "";
  auth_code = "";
  auth_expiry = 0;
  limiter = record { limit_kbps = 8; tokens = 2_000_000_000_000; last_fill = 0 };
}

abbrev pub blank_peer : WebPeer
blank_peer = record {
  conn_closed = false;
  send = [];
  picks_send = false;
  closed = false;
  id = "web_1";
  name = "Web visitor";
  share_token = "tok1";
  share_id = "wshr_1";
  controlled = "bob";
  mode = "view";
}

abbrev pub alice : Client
alice = record blank_client { device_id = "alice"; device_name = "Alice" }

abbrev pub bob : Client
bob = record blank_client {
  device_id = "bob";
  device_name = "Bob";
  auth_code = "123456";
  auth_expiry = 20_000_000_000;
}

abbrev pub all_blank : ℕ → Client
all_blank c = blank_client

abbrev pub no_peers : ℕ → WebPeer
no_peers p = blank_peer

abbrev pub alice_and_bob : ℕ → Client
alice_and_bob c = if c =ℕ 1 then alice else if c =ℕ 2 then bob else blank_client

abbrev pub session_one : Session
session_one = record {
  id = "s1";
  controller_id = "alice";
  controlled_id = "bob";
  mode = "view-control";
  input_allowed = true;
  created_at = 5;
  last_activity_at = 5;
}

abbrev pub link_of_bob : WebShare
link_of_bob = record {
  id = "wshr_1";
  token = "tok1";
  controlled_id = "bob";
  controlled_name = "Bob";
  mode = "view";
  label = "";
  created_at = 0;
  expires_at = 3_600_000_000_000;
  revoked = false;
  revoked_at = 0;
}

abbrev pub asked : PendingRequest
asked = record {
  controller_id = "alice";
  controlled_id = "bob";
  mode = "view-control";
  requested_at = 5;
}

abbrev pub empty_relay : Server
empty_relay = new_server default_relay_config all_blank no_peers

abbrev pub busy : Server
busy = record {
  cfg = default_relay_config;
  auth = record { shared_token = "" };
  clients = ("alice", 1) ∷ ("bob", 2) ∷ [];
  web_peers = ("web_1", 7) ∷ [];
  sessions = ("s1", session_one) ∷ [];
  pending = ("alice\0bob", asked) ∷ [];
  shares = ("tok1", link_of_bob) ∷ [];
  client_at = alice_and_bob;
  peer_at = no_peers;
}

abbrev pub message : String → String → Fields → Envelope
message type to fields = record {
  version = pos 1;
  type = type;
  request_id = "";
  session_id = "s1";
  from = "";
  to = to;
  timestamp = pos 10_000;
  payload = some (object fields);
}

abbrev pub registration : Envelope
registration = message "device.register" "" (field "device_id" (text "carol") end)

abbrev pub mouse : Envelope
mouse = message "input.mouse" "" end

abbrev pub acceptance : Envelope
acceptance =
    message "session.confirm" "alice"
      (field "accepted" (boolean true) (field "input_allowed" (boolean true) end))

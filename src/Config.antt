-- ===== src/Config.antt =====
-- internal/config/config.go: the settings of the relay.
pub mod Parser
use beacon_desk.Prelude.{ℕ, ◌*◌, String, Bool, true}
use beacon_desk.Prelude.Int.{ℤ, pos}

abbrev pub second : ℕ
second = 1_000_000_000

abbrev pub minute : ℕ
minute = 60 * second

abbrev pub hour : ℕ
hour = 60 * minute

pub record RelayConfig : Type 0 where
  pub listen : String
  pub transport : String
  pub web_socket_path : String
  pub web_control_enabled : Bool
  pub web_control_path : String
  pub web_listen : String
  pub public_base_url : String
  pub shared_token : String
  pub tls_cert_file : String
  pub tls_key_file : String
  pub heartbeat_timeout : ℤ
  pub max_clients : ℤ
  pub bandwidth_limit_kbps : ℤ
  pub allow_insecure_plaintext : Bool

abbrev pub default_relay_config : RelayConfig
default_relay_config = record {
  listen = ":8443";
  transport = "tcp";
  web_socket_path = "/ws";
  web_control_enabled = true;
  web_control_path = "/web";
  web_listen = ":8080";
  public_base_url = "";
  shared_token = "";
  tls_cert_file = "";
  tls_key_file = "";
  heartbeat_timeout = pos (45 * second);
  max_clients = pos 1000;
  bandwidth_limit_kbps = pos 4096;
  allow_insecure_plaintext = true;
}

-- ===== src/Config/Parser.antt =====
-- internal/config/config.go, `LoadRelayConfig`: the parser of key=value files. The lines of the file
-- and how its reading ended are arguments, and `lower` is `strings.ToLower`.
use Prim.Native.Char.{code}
use beacon_desk.Prelude.{
  ℕ, ◌+◌, ◌-◌, ◌*◌, String, Bool, true, false, ◌&&◌, ◌||◌, Option, none, some, List, [], ◌∷◌, ◌==◌,
  ◌=ℕ◌, if◌then◌else◌, trim_space, is_digit,
}
use beacon_desk.Prelude.Int.{ℤ, pos, in_int64, scale, wrap64, sub_ℤ}
use beacon_desk.Config.{RelayConfig, default_relay_config, second}

pub data ConfigError : Type 0 where
  cannot_open : ConfigError
  invalid_line : String → ConfigError
  bad_bool : String → ConfigError
  bad_int : String → ConfigError
  unknown_key : String → ConfigError
  scan_failed : ConfigError

-- Does a text start with this character?
abbrev pub starts_with : ℕ → String → Bool
starts_with letter String.[] = false
starts_with letter (String.◌∷◌ c s) = code c =ℕ letter

-- `strings.Cut` at the first "=".
unfoldable pub cut : String → Option (String × String)
cut String.[] = none
cut (String.◌∷◌ c s) =
    let later = cut s in
    if code c =ℕ b'='
    then some (String.[], s)
    else elim later [ none ↦ none | some parts ↦ some (String.◌∷◌ c parts.0, parts.1) ]

-- `strings.TrimLeft` and `strings.TrimRight` of the characters that a test finds.
unfoldable pub trim_left_of : (ℕ → Bool) → String → String
trim_left_of test String.[] = String.[]
trim_left_of test (String.◌∷◌ c s) =
    let rest = trim_left_of test s in if test (code c) then rest else String.◌∷◌ c s

unfoldable pub trim_right_of : (ℕ → Bool) → String → String
trim_right_of test String.[] = String.[]
trim_right_of test (String.◌∷◌ c s) =
    let rest = trim_right_of test s in
    if rest == "" && test (code c) then String.[] else String.◌∷◌ c rest

abbrev pub is_quote : ℕ → Bool
is_quote c = c =ℕ 34 || c =ℕ 39

abbrev pub is_slash : ℕ → Bool
is_slash c = c =ℕ 47

abbrev pub trim_quotes : String → String
trim_quotes s = trim_right_of is_quote (trim_left_of is_quote s)

-- A byte order mark in front of a key.
abbrev pub trim_mark : String → String
trim_mark String.[] = String.[]
trim_mark (String.◌∷◌ c s) = if code c =ℕ 0xfeff then s else String.◌∷◌ c s

-- `strconv.ParseBool`.
unfoldable pub parse_bool : String → Option Bool
parse_bool s =
    if s == "1" || s == "t" || s == "T" || s == "true" || s == "TRUE" || s == "True"
    then some true
    else if s == "0" || s == "f" || s == "F" || s == "false" || s == "FALSE" || s == "False"
    then some false
    else none

unfoldable pub digits : ℕ → String → Option ℕ
digits value String.[] = some value
digits value (String.◌∷◌ c s) =
    let rest = digits (value * 10 + (code c - b'0')) s in if is_digit (code c) then rest else none

-- One digit at least.
abbrev pub natural : String → Option ℕ
natural s = if s == "" then none else digits 0 s

abbrev pub in_range : ℤ → Option ℤ
in_range n = if in_int64 n then some n else none

-- `strconv.Atoi`.
unfoldable pub atoi : String → Option ℤ
atoi String.[] = none
atoi (String.◌∷◌ c s) =
    if code c =ℕ b'-'
    then elim (natural s) [ none ↦ none | some n ↦ in_range (sub_ℤ (pos 0) (pos n)) ]
    else if code c =ℕ b'+'
    then elim (natural s) [ none ↦ none | some n ↦ in_range (pos n) ]
    else elim (natural (String.◌∷◌ c s)) [ none ↦ none | some n ↦ in_range (pos n) ]

abbrev pub Parsed : Type 0
Parsed = RelayConfig × Option ConfigError

abbrev pub with_bool : RelayConfig → String → (Bool → RelayConfig) → Parsed
with_bool cfg value set = elim (parse_bool value) [
  | none ↦ (cfg, some (bad_bool value))
  | some b ↦ (set b, none)
]

abbrev pub with_int : RelayConfig → String → (ℤ → RelayConfig) → Parsed
with_int cfg value set = elim (atoi value) [
  | none ↦ (cfg, some (bad_int value))
  | some n ↦ (set n, none)
]

module _ (lower : String → String) where
  -- The `switch` on the key.
  unfoldable pub set_key : RelayConfig → String → String → Parsed
  set_key cfg key value =
      if key == "listen"
      then (record cfg { listen = value }, none)
      else if key == "transport"
      then (record cfg { transport = lower value }, none)
      else if key == "websocket_path"
      then (record cfg { web_socket_path = value }, none)
      else if key == "web_control_enabled"
      then with_bool cfg value (λ b. record cfg { web_control_enabled = b })
      else if key == "web_control_path"
      then (record cfg { web_control_path = value }, none)
      else if key == "web_listen"
      then (record cfg { web_listen = value }, none)
      else if key == "public_base_url"
      then (record cfg { public_base_url = trim_right_of is_slash value }, none)
      else if key == "shared_token"
      then (record cfg { shared_token = value }, none)
      else if key == "tls_cert_file"
      then (record cfg { tls_cert_file = value }, none)
      else if key == "tls_key_file"
      then (record cfg { tls_key_file = value }, none)
      else if key == "heartbeat_timeout_seconds"
      then with_int cfg value (λ n. record cfg { heartbeat_timeout = wrap64 (scale n second) })
      else if key == "max_clients"
      then with_int cfg value (λ n. record cfg { max_clients = n })
      else if key == "bandwidth_limit_kbps"
      then with_int cfg value (λ n. record cfg { bandwidth_limit_kbps = n })
      else if key == "allow_insecure_plaintext"
      then with_bool cfg value (λ b. record cfg { allow_insecure_plaintext = b })
      else (cfg, some (unknown_key key))

  -- One round of the loop.
  unfoldable pub parse_line : RelayConfig → String → Parsed
  parse_line cfg text =
      let line = trim_space text in
      if line == "" || starts_with b'#' line then (cfg, none) else elim (cut line) [
        | none ↦ (cfg, some (invalid_line line))
        | some parts ↦
            set_key cfg (trim_mark (trim_space parts.0)) (trim_quotes (trim_space parts.1))
      ]

  unfoldable pub parse_lines : List String → Bool → RelayConfig → Parsed
  parse_lines [] complete cfg = (cfg, if complete then none else some scan_failed)
  parse_lines (line ∷ rest) complete cfg =
      let parsed = parse_line cfg line in
      elim parsed.1 [ none ↦ parse_lines rest complete parsed.0 | some e ↦ (parsed.0, some e) ]

  -- `LoadRelayConfig`; `file` has the lines that the scanner gives, and whether it came to the end.
  unfoldable pub load_relay_config : String → Option (List String × Bool) → Parsed
  load_relay_config path file = if path == "" then (default_relay_config, none) else elim file [
    | none ↦ (default_relay_config, some cannot_open)
    | some lines ↦ parse_lines lines.0 lines.1 default_relay_config
  ]

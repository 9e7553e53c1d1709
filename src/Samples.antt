-- ===== src/Samples.antt =====
-- Data for the examples: a configuration, a node's key, and stand-ins for the code that the
-- development takes as a parameter.
use fez_meshcore_controller.Prelude.{
  All, List, Text, [], codes, false, if◌then◌else◌, leb, length, map, none, refl, replicate, some,
  take, true, ℕ, ◌%◌, ◌&&◌, ◌+◌, ◌-◌, ◌<◌, ◌∷◌, ◌≡◌, ◌≢◌,
}
use native.Mathlib.Omega.{arith}
use fez_meshcore_controller.Core.Hex.{Bytes, IsBytes, hex_encode}
use fez_meshcore_controller.Core.Json.{Encoders}
use fez_meshcore_controller.Core.MqttJwt.Token.{Reading}
use fez_meshcore_controller.Daemon.Mqtt.{Formats}
use fez_meshcore_controller.Core.Crypto.{Primitives}
use fez_meshcore_controller.Core.Crypto.Decrypt.{Encryption}
use fez_meshcore_controller.Core.Config.{
  Config, tcp, MqttBrokerConfig, passwd, tcp_transport, ManagedRepeater, managed,
}
use fez_meshcore_controller.Prelude.Int.{pos}
use fez_meshcore_controller.Core.Mesh.{ContactDto, SelfInfoDto}
use fez_meshcore_controller.Core.Mesh.Detail.{ok, err}
use fez_meshcore_controller.Daemon.MeshTask.Node.{Task, Outside}
use fez_meshcore_controller.Core.Mesh.Source.{
  ContactMethods, Names, PayloadType, req, response, text_msg, advert, group_text, group_data,
  anon_req, path, control, unlisted,
}

-- A digest of 32 bytes that begins with the length of the message.
abbrev pub toy_digest : Bytes → Bytes
toy_digest m = (length m % 256) ∷ replicate 31 5

pub toy_digest-IsBytes : (m : Bytes) → IsBytes (toy_digest m)
toy_digest-IsBytes m = ground arith

-- A cipher that exchanges the first two bytes of a block.
abbrev pub swap_front : Bytes → Bytes
swap_front [] = []
swap_front (a ∷ []) = a ∷ []
swap_front (a ∷ b ∷ rest) = b ∷ a ∷ rest

pub length-swap_front : (n : ℕ) (b : Bytes) → length b ≡ n → length (swap_front b) ≡ n
length-swap_front n [] h = h
length-swap_front n (a ∷ []) h = h
length-swap_front n (a ∷ b ∷ rest) h = h

pub swap_front-swap_front : (b : Bytes) → swap_front (swap_front b) ≡ b
swap_front-swap_front [] = refl
swap_front-swap_front (a ∷ []) = refl
swap_front-swap_front (a ∷ b ∷ rest) = refl

abbrev pub toy_primitives : Primitives
toy_primitives = record {
  sha256 = toy_digest;
  hmac_sha256 = λ k m. toy_digest m;
  decrypt_block = λ k b. swap_front b;
  length-sha256 = λ m. refl;
  sha256-IsBytes = toy_digest-IsBytes;
  length-hmac_sha256 = λ k m. refl;
  hmac_sha256-IsBytes = λ k m. toy_digest-IsBytes m;
  length-decrypt_block = λ k b h. length-swap_front 16 b h;
}

abbrev pub toy_encryption : Encryption toy_primitives
toy_encryption = record {
  encrypt_block = λ k b. swap_front b;
  length-encrypt_block = λ k b h. length-swap_front 16 b h;
  decrypt-encrypt = λ k b h. swap_front-swap_front b;
}

abbrev pub payload_code : PayloadType → ℕ
payload_code req = 0
payload_code response = 1
payload_code text_msg = 2
payload_code advert = 4
payload_code group_text = 5
payload_code group_data = 6
payload_code anon_req = 7
payload_code path = 8
payload_code control = 11
payload_code (unlisted n) = n % 16

pub payload_code-lt_16 : (t : PayloadType) → payload_code t < 16
payload_code-lt_16 t = ground arith

abbrev toy_contact_methods : ContactMethods
toy_contact_methods = record {
  prefix = λ c. take 6 c.public_key;
  public_key_hex = λ c. hex_encode c.public_key;
  latitude = λ c. c.adv_lat;
  longitude = λ c. c.adv_lon;
  prefix-key = λ c. refl;
}

abbrev pub toy_names : Names
toy_names = record {
  payload_code = payload_code;
  payload_name = λ t. codes "payload";
  route_name = λ n. codes "route";
  event_name = λ t. codes "event";
  contact = toy_contact_methods;
  payload_code-lt = payload_code-lt_16;
}

abbrev pub sample_broker : Text → ℕ → MqttBrokerConfig
sample_broker name port = record {
  name = name;
  host = codes "mqtt.example.org";
  port = port;
  username = none;
  password = none;
  auth_method = passwd;
  jwt_ttl_secs = 3600;
  jwt_audience = none;
  topic_prefix = codes "mesh";
  tls_enabled = false;
  tls_ca_cert = none;
  tls_client_cert = none;
  tls_client_key = none;
  status_refresh_interval_secs = 60;
  enable_high_level_messages = true;
  enable_packet_trafic_messages = false;
  packet_trafic_topic = codes "packets";
  enable_raw_messages = false;
  raw_topic = codes "raw";
  status_topic = codes "status";
  transport_protocol = tcp_transport;
  websocket_path = codes "/mqtt";
}

abbrev pub sample_config : ℕ → List MqttBrokerConfig → Config
sample_config capacity brokers = record {
  node_label = codes "observer";
  connection = tcp (codes "10.0.0.7") 5000;
  daemon = record {
    socket_path = codes "/run/fez.sock";
    refresh_interval_secs = 30;
    log_level = codes "info";
    log_dir = codes "/var/log";
    packet_log_capacity = capacity;
    db_path = codes "/var/lib/repeaters.db";
    observer_node_managed_config = true;
  };
  managed_repeaters = [];
  regions = [];
  hashtag_channels = [];
  mqtt_brokers = brokers;
}

abbrev pub sample_repeater : ManagedRepeater
sample_repeater = record {
  name = codes "Hill";
  public_key_hex = codes "aabbccddeeff00";
  password = none;
  status = managed;
}

abbrev pub sample_contact : Text → ContactDto
sample_contact prefix = record {
  name = codes "Hill";
  public_key_prefix_hex = prefix;
  last_advert_unix = 5;
  lat = pos 48000000;
  lon = pos 2000000;
  registered = true;
  managed = false;
  repeater_status = none;
  contact_type = 2;
  last_telemetry = none;
}

abbrev pub answer : {A : Type 0} → A → Task ℕ A
answer a n = (a, n + 1)

-- A node that has a repeater of the configuration and a stranger. The world is the clock.
abbrev pub toy_node : Outside
toy_node = record {
  World = ℕ;
  now_unix = λ n. pos n;
  uptime_secs = λ n. n;
  save_to = λ c. answer (ok tt);
  persist = λ n. answer true;
  self_info = answer none;
  device_info = answer none;
  node_stats = answer (record { core = none; radio = none; packets = none });
  contacts =
      answer (sample_contact (codes "aabbccddeeff") ∷ sample_contact (codes "001122334455") ∷ []);
  fetch_contacts = answer (ok (sample_contact (codes "aabbccddeeff") ∷ []));
  declare_contact = λ r. answer (ok tt);
  remove_contact = λ p. answer (err (codes "timeout"));
  autoadd_enabled = answer (ok true);
  disable_auto_add_contacts = answer (ok tt);
  max_channels = answer (some 2);
  get_channel = λ i. answer (err (codes "timeout"));
  remove_channel = λ i. answer (ok tt);
  login = λ p w. answer (ok tt);
  logout = λ p. answer (ok tt);
  request_status = λ p. answer (err (codes "timeout"));
  request_telemetry = λ p. answer (ok []);
  request_neighbours = λ p. answer (err (codes "timeout"));
  request_region_hierarchy = λ p. answer (err (codes "timeout"));
  sign = λ d. answer (ok d);
  disconnect = answer (ok tt);
  reading_text = λ r. codes "0";
}

-- Encoders: JSON is written as `{}`, and base64 as hexadecimal.
abbrev raise_letter : ℕ → ℕ
raise_letter c = if leb b'a' c && leb c b'z' then c - 32 else c

abbrev pub toy_encoders : Encoders
toy_encoders = record {
  to_vec = λ v. codes "{}";
  base64url = λ bs. hex_encode bs;
  to_uppercase = λ t. map raise_letter t;
  to_uppercase-ascii = λ t h. refl;
}

pub hex_encode-dotless : (bs : Bytes) → All (λ c. c ≢ b'.') (hex_encode bs)
unfolding hex_encode
hex_encode-dotless [] = tt
hex_encode-dotless (b ∷ bs) = (ground arith, (ground arith, hex_encode-dotless bs))

abbrev pub toy_reading : Reading toy_encoders
toy_reading = record { base64url-dotless = hex_encode-dotless }

abbrev pub sample_self_info : SelfInfoDto
sample_self_info = record {
  name = codes "Observer";
  public_key_hex = codes "aabb";
  radio_freq_mhz = 869618;
  radio_bw_khz = 62500;
  spreading_factor = 8;
  coding_rate = 8;
  tx_power_dbm = 22;
  lat = pos 48000000;
  lon = pos 2000000;
}

abbrev pub toy_formats : Formats
toy_formats = record {
  encoders = toy_encoders;
  names = toy_names;
  to_rfc3339 = λ t. codes "2026-01-01T00:00:00.000000+00:00";
  format_time = λ t. codes "00:00:00";
  format_date = λ t. codes "01/01/2026";
  format_thousandths = λ n. codes "869.618";
  debug_payload = λ e. codes "Ok";
  client_version = codes "fez-mesh-controller/1";
}

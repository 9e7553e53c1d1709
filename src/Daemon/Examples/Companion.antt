-- ===== src/Daemon/Examples/Companion.antt =====
-- The theorems on the client of core/src/mesh.rs at concrete inputs: a node that knows one
-- repeater, whose reply to the region command comes after the message of another.
use fez_meshcore_controller.Prelude.{
  List, [], arith, codes, if◌then◌else◌, inl, ltb, none, refl, replicate, some, take, true, ℕ, ◌+◌,
  ◌∷◌, ◌≡◌,
}
use fez_meshcore_controller.Prelude.Int.{pos, negsuc}
use fez_meshcore_controller.Core.Config.{ManagedRepeater}
use fez_meshcore_controller.Core.Hex.{Bytes, hex_encode}
use fez_meshcore_controller.Core.Hex.Digits.{decode, decoder, decode-reads}
use fez_meshcore_controller.Core.Mesh.Client.{
  MeshCore, declared, request_region_hierarchy, declare_contact, login, short_key,
}
use fez_meshcore_controller.Core.Mesh.Client.Declared.{IsKept, declare_contact-IsKept}
use fez_meshcore_controller.Core.Mesh.Detail.{Outcome, ok, err}
use fez_meshcore_controller.Core.Mesh.Source.{
  MeshCoreEvent, contact_message, contact_msg_recv, login_success, nothing,
}
use fez_meshcore_controller.Core.Mesh.Regions.{parse_region_hierarchy}
use fez_meshcore_controller.Core.Telemetry.Fields.{Field, gps, payload_bytes, all_readings}
use fez_meshcore_controller.Daemon.MeshTask.Companion.{
  Storage, outside_of, request_telemetry-payload,
}
use fez_meshcore_controller.Daemon.MeshTask.Detail.{password_of, request_telemetry}
use fez_meshcore_controller.Daemon.MeshTask.Node.{Mesh}
use fez_meshcore_controller.Daemon.State.{new}
use fez_meshcore_controller.Core.Task.{Task}
use fez_meshcore_controller.Samples.{sample_config, sample_repeater, toy_names}

abbrev message : Bytes → MeshCoreEvent
message prefix = record {
  event_type = contact_msg_recv;
  payload = contact_message (record {
    sender_prefix = prefix;
    path_len = 0;
    txt_type = 1;
    sender_timestamp = 0;
    text = codes "* F\n Valley^";
    snr = none;
  });
}

abbrev key : Bytes
key = 170 ∷ 187 ∷ 204 ∷ 221 ∷ 238 ∷ 255 ∷ replicate 26 0

abbrev answer : {A : Type 0} → A → Task ℕ (Outcome A)
answer a n = (ok a, n + 1)

abbrev fields : List Field
fields = gps 1 (pos 450000) (pos 20000) (negsuc 99) ∷ []

-- The world is the clock. A stranger's message comes before the repeater's.
abbrev companion : MeshCore
companion = record {
  World = ℕ;
  contact = toy_names.contact;
  hex = decoder;
  hex_error = λ t. codes "invalid hex";
  channel_secret_len = 16;
  nanos = λ n. n;
  timestamp = λ n. pos n;
  self_info = λ n. (none, n);
  contacts = λ n. (declared (codes "Hill") key ∷ [], n);
  get_contact_by_prefix = λ p n. (some (declared (codes "Hill") key), n);
  send_device_query = λ n. (err (codes "timeout"), n + 1);
  get_core_stats = λ n. (err (codes "timeout"), n + 1);
  get_radio_stats = λ n. (err (codes "timeout"), n + 1);
  get_packet_stats = λ n. (err (codes "timeout"), n + 1);
  sign = λ d c. answer d;
  get_contacts = λ since. answer [];
  remove_contact = λ c. answer tt;
  add_contact = λ c. answer tt;
  send_login = λ c w. answer tt;
  send_logout = λ c. answer tt;
  wait_for_any_event = λ ts. answer (record { event_type = login_success; payload = nothing });
  request_telemetry = λ c. answer (payload_bytes fields (0 ∷ 0 ∷ []));
  request_status = λ c n. (err (codes "timeout"), n + 1);
  request_neighbours = λ c k o b l n. (err (codes "timeout"), n + 1);
  send_msg = λ c t. answer tt;
  wait_for_event = λ t r n. (some (message (if ltb n 2 then replicate 6 1 else take 6 key)), n + 1);
  get_autoadd_config = answer 3;
  set_autoadd_config = λ c. answer tt;
  get_channel = λ i n. (err (codes "timeout"), n + 1);
  set_channel = λ i name secret. answer tt;
  disconnect = answer tt;
}

abbrev repeater : ManagedRepeater
repeater = record sample_repeater { public_key_hex = hex_encode key }

declare_contact-IsKept_example : IsKept companion decode-reads repeater [] (repeater ∷ []) 0
declare_contact-IsKept_example =
    declare_contact-IsKept companion decode-reads repeater [] (repeater ∷ []) 0 (inl refl)

request_runs :
    request_region_hierarchy companion (codes "aabb") 0
    ≡ (ok (parse_region_hierarchy (codes "* F\n Valley^") (pos 3)), 3)
unfolding request_region_hierarchy decode
request_runs = refl

declare_runs : declare_contact companion repeater 0 ≡ (ok tt, 1)
unfolding declare_contact decode hex_encode
declare_runs = refl

declare_refuses :
    declare_contact companion sample_repeater 0 ≡ (err (short_key (codes "Hill") 7), 0)
unfolding declare_contact decode
declare_refuses = refl

login_runs : login companion (codes "aabb") (codes "secret") 0 ≡ (ok tt, 2)
unfolding login decode
login_runs = refl

abbrev storage : Storage ℕ
storage = record {
  uptime_secs = λ n. n;
  save_to = λ c. answer tt;
  persist = λ n w. (true, w);
  reading_text = λ r. codes "0";
}

abbrev started : Mesh (outside_of companion storage)
started = record { world = 4; state = new (sample_config 8 []) []; calls = []; updates = [] }

request_telemetry-payload_example :
    (request_telemetry (codes "aabb") started).0
    ≡ ok (record { fetched_at_unix = pos 5; readings = all_readings fields })
unfolding password_of new
request_telemetry-payload_example =
    request_telemetry-payload companion storage (codes "aabb") (170 ∷ 187 ∷ [])
      (declared (codes "Hill") key) fields [] started refl
      ((omega arith, omega arith, omega arith), tt) (unfold decode in refl, refl, refl)

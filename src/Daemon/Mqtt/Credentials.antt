-- ===== src/Daemon/Mqtt/Credentials.antt =====
-- The options of a broker's connection: the transport and what is asked of the mesh task, the
-- device-signed credentials and the counters, of daemon/src/mqtt.rs.
use fez_meshcore_controller.Prelude.{
  Bool, List, Option, Text, [], codes, false, if◌then◌else◌, none, some, true, unwrap_or, ◌++◌, ◌∷◌,
}
use fez_meshcore_controller.Prelude.Int.{pos, ◌+ℤ◌}
use fez_meshcore_controller.Core.Hex.{Bytes}
use fez_meshcore_controller.Core.Config.{
  MqttBrokerConfig, MqttTransportProtocol, tcp_transport, websocket,
}
use fez_meshcore_controller.Core.Mesh.{SelfInfoDto, NodeStatsDto}
use fez_meshcore_controller.Core.Mesh.Detail.{Outcome, ok, err}
use fez_meshcore_controller.Core.MqttJwt.{AuthTokenClaims, signing_input, assemble_token}
use fez_meshcore_controller.Daemon.Command.{DaemonCommand, sign_data, refresh_node_stats}
use fez_meshcore_controller.Daemon.MeshTask.Node.{Task, ◌>>=◌, pure}
use fez_meshcore_controller.Daemon.Mqtt.{Formats, Instant}
use fez_meshcore_controller.Daemon.State.{AppState}

-- What waiting for the mesh task's reply gives, and what other tasks did to the state meanwhile.
pub data MeshReply {ℓ} (A : Type ℓ) : Type ℓ where
  replied : A → MeshReply A
  not_running dropped timed_out : MeshReply A

pub record Waiting (A : Type 0) : Type 0 where
  pub reply : MeshReply A
  pub meanwhile : AppState → AppState

abbrev pub sent : {A : Type 0} → MeshReply A → Bool
sent not_running = false
sent r = true

unfoldable pub ask : {A : Type 0} → DaemonCommand → Waiting A → Task AppState (MeshReply A)
ask cmd w s =
    let asked = if sent w.reply then record s { commands_sent = cmd ∷ s.commands_sent } else s in
    (w.reply, w.meanwhile asked)

abbrev pub signature_of : MeshReply (Outcome Bytes) → Outcome Bytes
signature_of (replied result) = result
signature_of not_running = err (codes "mesh connection task is not running")
signature_of dropped = err (codes "mesh connection task dropped the sign request")
signature_of timed_out = err (codes "timed out waiting for the node to sign the auth token")

unfoldable pub sign_via_mesh : Bytes → Waiting (Outcome Bytes) → Task AppState (Outcome Bytes)
unfolding ask
sign_via_mesh bytes w = do reply ← ask (sign_data bytes) w; pure (signature_of reply)

unfoldable pub claims_of : SelfInfoDto → MqttBrokerConfig → Instant → AuthTokenClaims
unfolding ◌+ℤ◌
claims_of self_info config now = record {
  public_key_hex = self_info.public_key_hex;
  iat = now.unix;
  exp = now.unix +ℤ pos config.jwt_ttl_secs;
  aud = unwrap_or config.jwt_audience config.host;
}

-- The credentials with a signature.
abbrev pub credentials_with : Formats → SelfInfoDto → Text → Outcome Bytes → Outcome (Text × Text)
unfolding assemble_token
credentials_with f self_info input (err reason) = err reason
credentials_with f self_info input (ok signature) = ok (
  codes "v1_" ++ f.encoders.to_uppercase self_info.public_key_hex,
  assemble_token f.encoders input signature,
)

unfoldable pub build_device_signed_credentials :
    Formats
    → SelfInfoDto
    → MqttBrokerConfig
    → Instant
    → Waiting (Outcome Bytes)
    → Task AppState (Outcome (Text × Text))
unfolding claims_of signing_input sign_via_mesh
build_device_signed_credentials f self_info config now w = do
  let input = signing_input f.encoders (claims_of self_info config now)
  signature ← sign_via_mesh input w
  pure (credentials_with f self_info input signature)

-- The reply, or else what is cached after the wait.
abbrev pub stats_or_cached : MeshReply NodeStatsDto → Option NodeStatsDto → Option NodeStatsDto
stats_or_cached (replied stats) cached = some stats
stats_or_cached r cached = cached

unfoldable pub refresh_stats : Waiting NodeStatsDto → Task AppState (Option NodeStatsDto)
unfolding ask
refresh_stats w = do
  reply ← ask refresh_node_stats w
  (λ s. (stats_or_cached reply s.node_stats, s))

-- The polls of the snapshot, a second apart: what other tasks did in each, up to the deadline.
unfoldable pub wait_for_self_info : List (AppState → AppState) → Task AppState (Option SelfInfoDto)
wait_for_self_info [] s = (s.snapshot.self_info, s)
wait_for_self_info (second ∷ seconds) s =
    let later = wait_for_self_info seconds (second s) in
    elim s.snapshot.self_info [ none ↦ later | some info ↦ (some info, s) ]

-- `rumqttc::Transport`, with the certificate and the client's certificate and key.
pub data Transport : Type 0 where
  tls wss : Bytes → Option (Bytes × Bytes) → Transport
  tls_with_default_config wss_with_default_config : Transport

-- `fs::read`, with the text of its error.
abbrev pub Files : Type 0
Files = Text → Outcome Bytes

abbrev pub read_as : Text → Files → Text → Outcome Bytes
read_as field files path = elim (files path) [
  | ok bytes ↦ ok bytes
  | err reason ↦ err (codes "reading " ++ (field ++ (b' ' ∷ path ++ (codes ": " ++ reason))))
]

abbrev pub pair_of : Outcome Bytes → Outcome Bytes → Outcome (Option (Bytes × Bytes))
pair_of (ok cert) (ok key) = ok (some (cert, key))
pair_of (ok cert) (err reason) = err reason
pair_of (err reason) key = err reason

unfoldable pub client_auth_of : Files → Option Text → Option Text → Outcome (Option (Bytes × Bytes))
client_auth_of files (some cert) (some key) =
    pair_of (read_as (codes "tls_client_cert") files cert)
      (read_as (codes "tls_client_key") files key)
client_auth_of files none none = ok none
client_auth_of files cert key =
    err (codes "tls_client_cert and tls_client_key must both be set, or neither")

abbrev pub is_websocket : MqttTransportProtocol → Bool
is_websocket tcp_transport = false
is_websocket websocket = true

abbrev pub with_ca : Bool → Option (Bytes × Bytes) → Outcome Bytes → Outcome Transport
with_ca ws auth (err reason) = err reason
with_ca ws auth (ok ca) = ok (if ws then wss ca auth else tls ca auth)

unfoldable pub transport_of :
    Files → Bool → Option Text → Option (Bytes × Bytes) → Outcome Transport
transport_of files ws (some ca_path) auth =
    with_ca ws auth (read_as (codes "tls_ca_cert") files ca_path)
transport_of files ws none (some auth) =
    err (codes "tls_ca_cert is required when tls_client_cert/tls_client_key are set")
transport_of files ws none none =
    ok (if ws then wss_with_default_config else tls_with_default_config)

abbrev pub then_transport :
    Files → MqttBrokerConfig → Outcome (Option (Bytes × Bytes)) → Outcome Transport
unfolding transport_of
then_transport files config (err reason) = err reason
then_transport files config (ok auth) =
    transport_of files (is_websocket config.transport_protocol) config.tls_ca_cert auth

unfoldable pub build_transport : Files → MqttBrokerConfig → Outcome Transport
unfolding client_auth_of transport_of
build_transport files config =
    then_transport files config (client_auth_of files config.tls_client_cert config.tls_client_key)

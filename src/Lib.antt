-- ===== src/Lib.antt =====
-- A model of the core, the daemon's state and mesh task, and the terminal client of
-- fez-mesh-controller, which supervises the repeaters of a MeshCore radio mesh: a daemon holds the
-- one connection to a node, keeps what it hears, and serves it to terminal clients and MQTT
-- brokers.
--
-- The parts and how they meet. The daemon's mesh task (`session`) works on the node through
-- `MeshClient` and on the shared `AppState`. It turns each event of the node's library into an
-- event for the clients (`map_event`), an entry of the packet log (`build_packet_log_entry`,
-- `record_packet`) and a sighting (`extract_discovered_node`, `upsert_discovered_node`, which also
-- writes the repeater database). A reload of the configuration (`reload_once`) starts and stops
-- the workers of the MQTT brokers. Such a worker (`run_broker`) reports its broker's status to the
-- state, publishes the connection's status, the decoded events and the raw packets, whose bytes it
-- rebuilds (`reconstruct_raw_packet_hex`), and has the node sign its token
-- (`build_device_signed_credentials`); group texts are read with `decode_group_text` and regions
-- recognised with `matching_region_name`; telemetry replies with `decode_telemetry`. The commands
-- of the clients (`handle_command`) change the configuration's repeaters and ask repeaters for
-- their data, one category at a time; the client (`round`) folds the categories into its popup
-- (`apply_repeater_detail_category`), keeps the packets and groups them (`group_packets`), sorts
-- the repeaters (`sort_repeaters`) and sends the commands that its keys stand for.
--
-- The files:
-- - Prelude: Boolean tests, lists, byte texts, integers, bits and hash maps.
-- - Core/Hex: `hex_encode` of core/src/mesh.rs; Core/Hex/Digits has a decoder for the parameter.
-- - Core/Crypto: core/src/meshcore_crypto.rs; Codes and Decrypt have its theorems.
-- - Core/Telemetry: core/src/telemetry.rs; Fields is the encoder of the firmware, RoundTrip the
--   proof.
-- - Core/Channel: core/src/channel.rs; Lossy is `String::from_utf8_lossy`, Message the proof.
-- - Core/Region: core/src/region.rs; Transport has the theorem on its keys, Tree the flattened
--   tree, with Placed on its shape and Fuel on its fuel.
-- - Core/Mesh/Regions: `parse_region_hierarchy` of core/src/mesh.rs; Printed has its printer.
-- - Core/Config: the data of core/src/config.rs, with `matches` and the `Display` of a connection.
-- - Core/Ipc: the messages, the snapshot and the event of core/src/ipc.rs.
-- - Core/Mesh: core/src/mesh.rs. Its data are in Mesh itself; Addressing, Control, Packet,
--   Contacts, Detail and Events have the functions, each with its theorems in the module below it;
--   Source has the data of the crate meshcore-rs, as far as the program reads them, Conversions
--   what is displayed of them. Client is `MeshClient`; Replies has the wait for a reply and
--   Declared the contacts that are declared. Core/Task: `async` and fallible functions.
-- - Daemon/Command: daemon/src/command.rs. Daemon/State: `AppState` of daemon/src/state.rs.
-- - Daemon/RepeaterDb: daemon/src/repeater_db.rs. Daemon/Reload: daemon/src/reload.rs.
-- - Daemon/MeshTask: daemon/src/mesh_task.rs. Node has what it works on, Contacts, Observer,
--   Repeaters, Detail and Command the handlers, each with its theorems below it, Session the loop,
--   Companion the client of Core/Mesh/Client as what the task works on.
-- - Daemon/Server: daemon/src/server.rs; Protocol has the order of what a client is sent.
-- - Cli/PacketGroup: cli/src/tui/packet_group.rs; Open has the loop's invariant.
-- - Cli/Format: cli/src/format.rs. Cli/RepeaterFilter: cli/src/tui/repeater_filter.rs; Placed has
--   the theorems on its sort, over Prelude/Sorting, the comparisons and the stable sort of Rust.
-- - Core/Json: JSON values. Core/MqttJwt: core/src/mqtt_jwt.rs; Token reads a token back.
-- - Daemon/Mqtt: daemon/src/mqtt.rs. Message has the status and the packets, Events the decoded
--   events and their topics, Credentials the options and the requests to the mesh task, Publish
--   what is published, Worker the start and the loop. Message/Status, Events/Naming,
--   Worker/Published and Worker/Started (over Worker/Sound and Worker/Reported) have theorems,
--   Worker/Rules what a branch keeps.
-- - Cli/Wizard: the editor of the region tree of cli/src/wizard.rs; Range, Nesting and Parents
--   have theorems.
-- - Cli/Repeater: `find_contact` of cli/src/repeater.rs; Unique has its theorem.
-- - Cli/App: `App` of cli/src/tui/app.rs; Detail and Filter have its two popups, Selection, Lock
--   and Streaming theorems. Cli/Tui: cli/src/tui/mod.rs; Press has the keys, Bounds and Delete
--   theorems.
-- - System: a detail request through the mesh task, the server and the client.
-- - Samples and the Examples modules: data and concrete instances of the theorems.
--
-- How the code is represented. A `String` or `&str` is the list of its UTF-8 bytes and a `Vec<u8>`
-- a list of numbers. Integers are natural numbers or `ℤ`, with the wrap-around written out where
-- the code shifts or counts; the remaining arithmetic stays within its types. Coordinates are
-- integers of micro-degrees, signal-to-noise ratios integers of quarter decibels, and a telemetry
-- value is its raw integer with the multiplier that divides it: the code only copies these
-- floating-point numbers and compares them with zero. A `HashMap` is an association list, used
-- through `lookup`, `insert` and `remove`. A `&mut self` method takes and returns the state; the
-- locks of `AppState` are held for a method whole, so an interleaving of methods is a list of
-- calls. A broadcast or a command that is sent is put in front of a list, and a broker's worker
-- task is the configuration that it runs with. The SQL of the repeater database is a function on a
-- list of rows.
--
-- Code that is not in the repository is a parameter. `Primitives` has SHA-256, HMAC-SHA-256 and the
-- AES-128 block with their sizes; `Encryption` is the inverse of that block, which only a round
-- trip uses; `HexDecoder` is meshcore-rs's `hex_decode`; `Names` has the numbers and the printed
-- names of meshcore-rs's enumerations, of which the program relies on payload types below 16.
-- `Display` has the distance of two positions, as the bits of a double, and `str::to_lowercase`:
-- besides the comparison with zero, the distance is the one use of a coordinate. `MeshCore` has the
-- calls of meshcore-rs that `MeshClient` wraps, of which the theorems take that a contact's prefix
-- is the first six bytes of its key. `Outside` is what the mesh task calls: the methods of
-- `MeshClient`, the clock, the write of the configuration file and the database; nothing is assumed
-- of its answers, and `outside_of` fills it from a `MeshCore`. `Encoders` has the JSON writer,
-- base64 and `str::to_uppercase`, of which `Reading` has that base64 has no dot; `Formats` prints
-- times, numbers and the payloads that have no form of their own. A handler of the task is a
-- function of the state `Mesh`, which also keeps the calls that the theorems speak of and the
-- categories that were sent. ratatui's table states are the rows that they have selected. A
-- floating-point number in JSON is the integer that it was divided from, with the divisor. The
-- rounds of the MQTT worker's `select!` and what other tasks do between and within them (`others`,
-- `meanwhile`) are an explicit sequence; the ticks of its intervals are rounds, and a broker's
-- messages are the calls to its client.
--
-- Fuel. The telemetry loop (`decode_from`) has fuel for each byte and takes at least two bytes in a
-- pass; `chunks` of the packet page has fuel for each byte and takes at least two bytes in a pass.
-- `lossy_from` has fuel for each byte and takes at least one. `push_with_children` of the region
-- tree has fuel for each region and one, and places a region of a new name at each level.
-- `wait_for_reply` has fuel for each nanosecond until its deadline: it is enough if a wait takes
-- time, as Replies supposes, or if the node sends fewer messages. A client's connection accepts a
-- number of messages (`room`), after which it is closed. All other loops are structural.
--
-- Not modelled: the drawing of the client's pages, the questions of the wizard other than the
-- region tree, the lock file of the daemon, and the loop of mesh_task.rs that reconnects. Left out
-- because they are input and output of third-party crates: the TOML files, sockets, logging, the
-- terminal, the radio link, the MQTT connection itself.
pub mod Prelude
pub mod Core
pub mod Daemon
pub mod Cli
pub mod System
pub mod Samples

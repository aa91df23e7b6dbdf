-- ===== src/Lib.antt =====
-- The protocol, the client and the forwarder of intouch2-mqtt, a bridge between a Gecko in.touch 2
-- spa and MQTT.
--
-- The program is two crates. intouch2 reads and writes the messages of the spa's protocol and keeps
-- a copy of the spa's memory. intouch2-mqtt stands between the spa and its clients (the forwarder),
-- is itself a client of the spa (the client, behind the forwarder's internal pipe), and maps the
-- memory to MQTT. The forwarder reads a datagram, looks up or inserts its peer in the forward
-- mapping, and passes the bytes on; the client downloads the memory, follows its changes, and tells
-- the subscribers of ranges of it, which are the mappings to MQTT. The session with the broker
-- publishes what a mapping shows, and hands it the packets from which it makes commands for the
-- client; main connects the parts.
--
-- Files and the code that they model:
-- - Base, Base/Tests, Base/Lists: names of the libraries, Boolean tests and lists of native numbers.
-- - Nom: the combinators of the crate nom as a record of operations and laws, which every reader
--   takes as its first argument. Nom/Reference is one implementation, for the examples.
-- - Object: intouch2/src/object.rs, object_traits.rs and object_macro.rs. The macro gen_packages!
--   is a function of the table that is its argument: `format_of` is that table, and `compose`,
--   `parse` and `parser_content` are the code that the macro makes. Object/Codec has the
--   DatasContent implementations of intouch2/src/parser.rs. Object/Schema says which values are
--   canonical; RoundTrip, Rejects and Dispatch are about reading what was composed, Totality and
--   Defects about reading other bytes.
-- - Framing: intouch2/src/composer.rs, and the messages of parser.rs: parse_network_data and
--   compose_network_data. Framing/Search is about searching a mark, Framing/Outcome about ends,
--   Framing/Written about what a datagram that is read looks like.
-- - Outcome: calls that may panic. Assoc: HashMap as an association list.
-- - ForwardMap: intouch2-mqtt/src/port_forward_mapping.rs. The number of a cell stands for the
--   shared Arc, and a weak reference can be upgraded as long as its map holds the key. The functions
--   have the names of the source; _remove_id is `remove_id'`. ForwardMap/Table is the abstract view,
--   a table from ids to addresses and contexts; Invariant says that the two maps agree,
--   Deadline is about the deadline that clear_timeouts reports, Touched about a cell's times.
-- - Gecko: intouch2/src/datas.rs, with `write` for copy_from_slice through index_mut. Gecko/Slices
--   has the lemmas on slices, Gecko/Overlay what the memory holds byte by byte; Gecko/Notify and Gecko/Subscribe have the subscribers of
--   intouch2-mqtt/src/spa.rs.
-- - Spa: intouch2-mqtt/src/spa.rs. `connect` is SpaConnection::new; the jobs of init are `drain`
--   (Gecko/Notify), `ping_step`, `command_job`, `on_watercare`, `download` (Spa/Download) and
--   `on_package` (Spa/Memory). The events of `download` hold what other jobs leave in the memory
--   between its turns; Download/Answers is about what it ends with. Spa/Interleaving is a step relation of the jobs that share the memory.
-- - PortForward: intouch2-mqtt/src/port_forward.rs. `find_spa` is the loop of
--   PortForwardBuilder::build; `from_pipe`, `from_client`, `from_spa` and `on_timeout` are the events
--   of PortForward::run, with what is sent as a list of effects. PortForward/Routing is about where
--   packages go, PortForward/Valid about the mapping behind each event. PortForward/Run is the loop
--   over what the workers give; Run/Peers, Clients, Events and Safety are about who is sent to.
-- - Buffers: the pool of intouch2-mqtt/src/lib.rs. Ids: generate_uuid of intouch2/src/lib.rs, and
--   the address to bind to of intouch2-mqtt/src/lib.rs.
-- - Session: intouch2-mqtt/src/mqtt_session.rs. Session/Packet has the packets of mqttrs that the
--   source names, with a record for encode_slice and decode_slice; Pid is AtomicPid, Publish the
--   publishing job of Session::recv (Publish/Ends, Attempts and Termination are about it), Subscribe
--   is mqtt_subscribe, Recv the loop of recv, Connect is SessionBuilder::connect and notify_online,
--   Topic is TopicGenerator with Path::join of the standard library on UTF-8 paths.
-- - Mapping: intouch2-mqtt/src/mapping.rs, with the functions of serde_json as a record. Mapping/Watch
--   is WatchMap with MappingType::subscribe and the publishing loop of add_generic, Publisher is
--   about what is published, Command is the job that listens to a topic. Mapping/Generic is the loop
--   of add_generic over the entries of a mapping, Lifecycle its new, reset and start.
-- - Program: intouch2-mqtt/src/main.rs. Program/Dumped is about the dump of packages, Changes about
--   the publication of the memory's changes.
--
-- A byte and a machine integer are native numbers; sequence numbers wrap at 2 ^ 8, and the sum of two
-- addresses of a command panics or wraps at 2 ^ 16, as the build has overflow checks or not. An Instant is a
-- number. The loop over the elements of a list in a package runs on fuel, one turn for each byte of
-- the input. A loop that waits for messages is a
-- function of the list of what arrives.
--
-- The loop of AtomicPid runs on fuel, and two turns suffice.
--
-- Not modelled: the runtime's scheduling of the jobs, locks, intervals, sockets, failing sends but
-- those of the job that dumps packages, the texts for the log, conversions of lifetimes, the order in which main starts its jobs, and
-- home_assistant.rs, which has structs for serialisation only.
pub mod Base
pub mod Nom
pub mod Object
pub mod Framing
pub mod Outcome
pub mod Assoc
pub mod ForwardMap
pub mod Gecko
pub mod Spa
pub mod PortForward
pub mod Buffers
pub mod Ids
pub mod Mapping
pub mod Program
pub mod Session

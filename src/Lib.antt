-- ===== src/Lib.antt =====
-- shark-MQTT, an MQTT 3.1.1 and 5.0 broker in Go.
--
-- The broker reads packets from connections (protocol), keeps a session for each client
-- (broker/session.go), routes a published message to the clients whose subscriptions match its topic
-- (broker/topic_tree.go), tracks what has been sent at QoS 1 and 2 until it is acknowledged
-- (broker/qos_engine.go), keeps retained messages (store/memory), and asks an authenticator and an
-- access list (broker/auth.go) first. The library models these parts, each as a state and its
-- operations.
--
-- - Prelude: the names that all modules share, tests on numbers and strings, association lists
--   (Prelude.Map) for Go maps, masks on bytes (Prelude.Bytes). A string is the list of its bytes.
-- - Trie: a tree whose nodes have children by level, as the subscription tree and the retained store
--   have them.
-- - Protocol.Topic: protocol/topic.go, and matchSysProtected of broker/topic_tree.go. Protocol.Spec:
--   protocol/spec.go. Protocol.Codec: of protocol/codec.go the fixed header (decodeFixedHeader,
--   encodeFixedHeader, validateFixedHeaderFlags), readVarInt and writeVarInt, readUint16 and
--   writeUint16; Protocol.Codec.Text: readString, readStringBounded, writeString and validateUTF8,
--   with UTF-8 decoding as Go's unicode/utf8 has it. A reader is the list of the bytes that it still
--   has.
-- - Broker.TopicTree: broker/topic_tree.go, the trie, the shared subscriptions
--   (Broker.TopicTree.Shared) and the listing (Broker.TopicTree.Stats). Broker.Auth: broker/auth.go and
--   broker/auth_chain.go, with bcrypt as a parameter. Broker.QosEngine: the in-flight tables, the
--   acknowledgments and doRetry; a call of a callback is an effect in the result.
--   Broker.Session: packet identifiers, in-flight messages, staged QoS 2 publishes, topic aliases,
--   the outbound window and its buffer, with the two steps by which doDeliver of broker/pub_sub.go
--   uses the window; Broker.Session.Subscriptions: the subscriptions of a session
--   and how a topic is matched against them; Broker.Session.Manager: which session a connection gets.
-- - Broker.Wills: broker/will_handler.go, a machine whose events are the calls of its methods and the
--   two branches of its goroutines. Broker.Flapping: broker/flapping.go. Broker.RateLimit:
--   broker/rate_limit.go. Broker.PublishProperties: broker/publish_properties.go.
-- - Store.Memory: the retained store of store/memory/memory.go, the map and its index.
-- - Examples: the theorems at concrete inputs.
--
-- Locks are left out: each operation is one step. Most hold their lock for the whole body;
-- AckPubRec, AckPubRel and doRetry release it before they call back, and the model makes no other
-- operation come between. A delivery takes no lock from its test of the outbound window to its
-- count: these are two steps. A loop over a Go map visits the entries in the order of the list that
-- stands for the map; the theorems speak of what is found by key, which no order changes. Times are
-- numbers. The loops recurse on the list they walk through, on the levels of a topic, or on the
-- attempts that are left: NextPacketID makes 65535 attempts, one for each identifier. The encoder
-- of the variable byte integer recurses on the number itself, which each round divides by 128.
-- Unsigned fields wrap as they are declared; the length of a fixed header is an int that at most
-- four bytes of seven bits make up, and does not wrap.
--
-- A delayed will is a timer that may fire whenever it waits; real time is not modelled. The rate
-- limit on connections takes the product of its rate and its window, a floating-point number, as a
-- field.
--
-- Not modelled: sockets, the scheduling of goroutines, tickers and pools; packet bodies and
-- properties; the rest of the delivery path between the tree and the sessions; persistence; the client, the
-- plugins and the configuration.
pub mod Prelude
pub mod Protocol
pub mod Trie
pub mod Broker
pub mod Store
pub mod Examples

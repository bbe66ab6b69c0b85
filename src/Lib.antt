-- ===== src/Lib.antt =====
-- LibyaLink: a proxy over QUIC, whose core carries TCP streams and UDP messages between a client
-- and a server, with optional obfuscation, port hopping and rule-based outbounds.
--
-- The parts and the files that model them:
--   Protocol   core/internal/protocol: ReadTCPRequest, WriteTCPRequest, ReadTCPResponse and
--              WriteTCPResponse (Protocol/Tcp), UDPMessage with Serialize and ParseUDPMessage
--              (Protocol/Udp), varintPut (Protocol/Varint), the paddings (Protocol/Padding).
--              quicvarint of quic-go is a parameter (Protocol/Quic), and so is rand.Intn.
--   Frag       core/internal/frag: FragUDPMessage (Frag/Split) and Defragger.Feed
--              (Frag/Defragger), which cut the messages of Protocol/Udp and join them.
--   Session    core/client/udp.go: udpConn and udpSessionManager (Session/Client), and the send
--              path with its retry in fragments, also of core/server/udp.go, over SendMessage of
--              core/client/client.go and core/server/server.go (Session/Send). Both use Frag. core/client/reconnect.go: the client that connects again
--              (Session/Reconnect).
--   Server     core/server/udp.go: udpSessionEntry and udpSessionManager (Server/Udp), feed
--              (Server/Udp/Feeding), cleanup and the receive loop (Server/Udp/Loops), as steps of
--              goroutines that interleave (Server/Udp/Reach). It uses Frag and Session/Send.
--   Bbr        core/internal/congestion/bbr: RingBuffer (Bbr/Ring), the
--              packetNumberIndexedQueue over it (Bbr/Queue), WindowedFilter (Bbr/Filter).
--              bandwidth_sampler.go over these three: chooseA0Point and the recent points
--              (Bbr/AckPoints), maxAckHeightTracker (Bbr/AckHeight), bandwidthSampler (Bbr/Sampler)
--              with OnCongestionEvent (Bbr/Sampler/Acks).
--   Congestion core/internal/congestion/common/pacer.go: the token bucket (Congestion/Pacer), in
--              64-bit arithmetic.
--   Ports      extras/utils/portunion.go: parsing, Normalize, Ports and Contains.
--   Hop        extras/transport/udphop/conn.go: the packet connection that changes its socket and
--              its remote port; every critical section is an operation on its state.
--   Obfs       extras/obfs/salamander.go, with blake2b as a parameter, and ReadFrom and WriteTo of
--              extras/obfs/conn.go (Obfs/Conn).
--   Acl        extras/outbounds/acl: the host matchers with geoipMatcher (Acl/Matchers),
--              HostInfo.String, compiledRule and compiledRuleSetImpl with its cache as a parameter
--              (Acl/RuleSet), parseProtoPort (Acl/ProtoPort). geositeMatcher is any test of the
--              name; net.IP.String and idna.ToUnicode are parameters.
--   Auth       extras/auth/userpass.go and password.go.
--   Speedtest  extras/outbounds/speedtest/protocol.go, with the reads of Protocol.
-- Common holds the shared helpers. The modules called Runs hold tests and concrete instances.
--
-- Bytes and Go strings are lists of natural numbers. A text that the rules or the authentication read
-- as text is the list of its code points, so of valid UTF-8, and what the tables of Unicode behind
-- strings.ToLower and strings.TrimSpace say from 128 on is a parameter (Common/Strings). A fixed-width integer wraps with an
-- explicit remainder. A run-time panic is the result `panic`, an error value `err`.
--
-- Fuel and rounds: frag_loop has one unit more than the data has bytes, and each round takes a byte
-- or more; where the header leaves no room the first round panics. It never runs out. The loops of
-- the packet number queue have as many rounds as the ring has items, and each takes one item; so
-- have the search of chooseA0Point and its last loop. The binary search of geoipMatcher has as many
-- rounds as there are networks, and each leaves fewer places. All else is structural. The rings of
-- the sampler have memory enough for every gap between two packet numbers. The limit of
-- FragUDPMessage is one that is not negative, as quic-go reports it. The buffer of SendMessage has
-- any length; the program's has the 4096 bytes of MaxUDPSize.
--
-- Not modelled: the connections of quic-go, the sockets and the DNS of the operating system, the
-- senders of the congestion control, the commands and the local proxies in app, the authentication
-- by other programs, sniffing, and generated code. They are I/O or third-party code, or parts that
-- only call it; the compilation of ACL rules is not modelled beyond the parts named above.
pub mod Common
pub mod Protocol
pub mod Frag
pub mod Bbr
pub mod Ports
pub mod Obfs
pub mod Acl
pub mod Hop
pub mod Session
pub mod Congestion
pub mod Server
pub mod Auth
pub mod Speedtest

-- ===== src/Lib.antt =====
-- IkaGo is a proxy that carries the packets of a game console. The client (cmd/ikago-client) captures
-- packets of a source device, and sends each, without its link layer, over one connection to the server
-- (cmd/ikago-server). The server gives each flow a port of its own, rewrites the packet's source, and
-- sends it upstream; an answer is found by its destination in the server's NAT, rewritten, and carried
-- back. The connection is TCP, or FakeTCP: packets with a TCP header that pcap writes and reads.
--
-- How the parts stand together. internal/pcap parses what gopacket decodes into a PacketIndicator,
-- whose accessors the handlers of both programs use; it cuts packets into fragments and puts fragments
-- together; and it has the FakeTCP connection, which encrypts with internal/crypto. internal/addr has
-- the addresses, whose texts are the keys of the programs' maps.
--
-- The files and the code that they model:
--   Base                 shared: Boolean tests, lists, texts, Go's results, machine words
--   Calls                shared: operations on a state that end well, with an error or with a panic
--   Addr                 internal/addr/addr.go: ICMPQueryAddr, MultiTCPAddr, and net.Addr's texts;
--                        Addr/Decimal the digits of a number, Addr/Text when two texts are the same
--   Gopacket             the structs of github.com/google/gopacket that the code reads and fills, and
--                        the record of what the library computes, which is a parameter
--   Protocol             parseIPProtocol and parseEthernetType of internal/pcap/packet.go
--   Icmp4                internal/pcap/icmp4.go: ParseICMPv4Layer and the methods of ICMPv4Indicator
--   Packet               internal/pcap/packet.go and dns.go: PacketIndicator and its accessors;
--                        Packet/Nat has NATSrc, NATDst, NATProtocol, Src, Dst and the payloads,
--                        Packet/Parse has ParsePacket, ParseEmbPacket and ParseRawPacket
--   Device               the structs of internal/pcap/device.go and raw.go
--   Layers               internal/pcap/layer.go: the layers that the program builds, and Serialize
--   Fragment             internal/pcap/fragment.go: Fragment/Create has CreateFragmentPackets,
--                        CreateIPv4FragmentPackets and CreateTCPSegmentPackets, and Fragment/Defrag
--                        has fragIndicator and EasyDefragmenter
--   Crypt                internal/crypto: ParseCrypt, Encrypt, Decrypt, Cost, DeriveKey, AES-CFB;
--                        Crypt/Methods which cipher a method's name stands for
--   FakeTcp              internal/pcap/faketcpconn.go: the state of FakeTCPConn; FakeTcp/Handshake has
--                        handshakeSYN, handshakeSYNACK, handshakeACK and Reconnect, FakeTcp/Transfer
--                        has what ReadFrom does with a packet, and WriteTo; FakeTcp/Loop has the
--                        loop of ReadFrom, and Write; FakeTcp/Segments what the headers hold
--   Sticky               internal/pcap/sticky.go: Desticker
--   Stat                 internal/stat: TrafficIndicator, TrafficManager and TrafficMonitor
--   Server               cmd/ikago-server/main.go: Server/Dist has the pools, dist, convertFromPort;
--                        Server/State the package's variables as one state, and its maps' keys;
--                        Server/Identity the keys and guides of a packet; Server/Outbound and
--                        Server/Inbound the rewriting of packets in the two directions; Server/Alive
--                        "keep alive"; Server/Listen handleListen; Server/Upstream handleUpstream;
--                        Server/Invariant what every call keeps, Server/Flow a flow and its answers,
--                        Server/Refinement the NAT as a function, and its refinement
--   TcpConn              internal/pcap/tcpconn.go: newTCPConn, Read and Write of TCPConn;
--                        TcpConn/Queue its packets that wait, TcpConn/Streaming many reads
--   Client               cmd/ikago-client/main.go: the package's variables as one state; Client/Publish
--                        publish, Client/Listen handleListen, Client/Upstream handleUpstream;
--                        Client/Known, Client/Delivered and Client/Others what its handlers make
--                        of the devices that were heard
--   Config               internal/config: Config, KCPConfig, their defaults, ParseFile, trimComments
--   Samples and Tests    sample data, tests of single runs
--
-- How code becomes definitions. A function of the code has the name that its Go name has in words
-- joined by underscores. A pointer or an interface that may be nil is an option. A call returns ok, err
-- or panic: panic is a nil dereference, a failed type assertion, an index out of range, or the code's own
-- `panic`. The text of an error is not kept. A method with a receiver that it changes takes the receiver
-- and returns it. Bytes, ports and identifiers are natural numbers; where the code adds or converts
-- fixed-width integers, the wrap-around is written out. A clock is an argument, in nanoseconds; Go's
-- zero time is 0. A map is a list of keys and values.
--
-- Bounds and fuel. The loops of CreateIPv4FragmentPackets and CreateTCPSegmentPackets run on the
-- payload's length plus one, and DeriveKey on the key's length plus one: each round takes or adds at
-- least a byte. The loop of the desticker runs on twice the length of its data plus two: a round finds
-- a header, or cuts off a packet of at least a byte. Running out is the error `diverges`, which the
-- code does not have. `dist` takes at most as many rounds as its pool has slots, as in the code. The
-- server's pools have 16384 ports from 49152 on, and 65536 identifiers.
--
-- What is a parameter: what gopacket serializes and decodes, and the checksums it records; the ciphers,
-- MD5 and the random source; whether a pcap handle, or the connection to a client, takes a packet; the
-- connections of the package net, and the client's connection to the server; files, the environment
-- and the JSON decoder.
--
-- What is not modelled: device discovery, pcap handles and sockets, logging, system commands and command
-- lines; KCP, which is a third-party library; goroutines and locks, and the deadlines of connections;
-- the listener of FakeTCP; starting the two programs, and what hands over to the package net in TCPConn.
pub mod Base
pub mod Calls
pub mod Addr
pub mod Gopacket
pub mod Protocol
pub mod Icmp4
pub mod Packet
pub mod Device
pub mod Layers
pub mod Fragment
pub mod Samples
pub mod Crypt
pub mod FakeTcp
pub mod Sticky
pub mod TcpConn
pub mod Stat
pub mod Server
pub mod Client
pub mod Config

-- ===== src/Lib.antt =====
-- The verification library of go-tari-lib.
--
-- The program is a Go library for the Tari network. Package `address` reads and writes wallet
-- addresses; package `p2p`, with `p2p/rpc`, speaks the protocols of the nodes: the handshake,
-- frames, encrypted sessions, the signed identity of a peer, multiaddresses, and remote calls over
-- substreams; packages `walletGRPC` and `nodeGRPC` call a wallet and a node; the command
-- `cmd/p2p-responder-spike` answers other nodes and remembers who called.
--
-- Conventions. A Go slice or string is the list of its bytes, each a native number, and a slice that
-- is nil is an empty one. A pair of a value and an error is a `Result`; the errors are enumerations,
-- without their texts. What reads or writes is an `Action`: a function of the state to a result
-- beside the state, which keeps what was done before an error. Machine integers keep their
-- wrap-around where the source converts between sizes. Goroutines are the steps of a relation.
--
-- Common     lists, bytes, results, actions, integers: Lists, Bits, Result, Action, Int, Tests.
-- Stdlib     what the code uses of Go's standard library: Utf8 (strings as runes), Hex
--            (encoding/hex), Text (strings.ToLower and comparison), Endian (encoding/binary),
--            Strings (strings and strconv; below it Cut and Decimal), Trim
--            (strings.TrimSpace and ReplaceAll).
-- Address    address/: Network, Features, Emoji, Pubkey, Base58 and Dammsum are the files of these
--            names; Single and Dual are single_address.go and dual_address.go; Tari is address.go,
--            where an address is one of the two. Below each, Codec is about the bytes of an address,
--            Texts about its textual forms, Memo about payment ids, and below Tari Parse and
--            Accepted about Parse.
-- P2p        p2p/: Frame is frame.go, Session session.go, YamuxAdapter yamuxadapter.go, Hashing
--            hashing.go, Identity the frames of identity.go, IdentitySignature identity_signature.go,
--            IdentityExchange the two goroutines of session.go, Ristretto the curve library and
--            RistrettoDh ristretto_dh.go, Handshake handshake.go, Multiaddr multiaddr.go,
--            Responder responder.go (Strays is about the goroutines that its
--            exchanges of identities leave behind), Socks socks.go.
-- P2p.Rpc    p2p/rpc/: CanonicalFrame and StreamTransport are the files of these names, Messages the
--            messages of p2p/proto; NegotiationFrame and Negotiation are negotiation.go; Handshake is
--            handshake.go, GetPeers dht_getpeers.go, ServeGetPeers dht_getpeers_responder.go,
--            ChainMetadata chainmetadata.go. Exchange runs a client against a responder.
-- Grpc       what both clients use of google.golang.org/grpc, and the draining of a stream.
-- WalletGrpc walletGRPC/: Client is client.go (Transfers and Transactions are about it), Deprecated
--            wallet.go, Events the goroutine of StreamTransactionEvents.
-- NodeGrpc   nodeGRPC/client.go: Client and Streams its methods, Deprecated its package functions.
-- ResponderSpike  cmd/p2p-responder-spike/main.go: PeerStore, Addresses and KeyFile.
-- Tests      (below each part) concrete runs.
--
-- How the parts interact. A handshake turns a connection into a `Session`; the exchange of
-- identities and the adapter use its `send_frame` and `receive_frame`. Each call of p2p/rpc is
-- written over the interface `Transport`, a record of operations on the state of a session, and
-- StreamTransport fills it. A stream holds the bytes that are still to arrive and those that were
-- written, so two ends run against each other by giving the one what the other wrote.
-- `SingleAddress` and `DualAddress` share the checksum, the dictionary and the readers of networks
-- and features. The package functions of `walletGRPC` and `nodeGRPC` call the same generated
-- client as the methods. The peer store of the spike feeds the list that `ServeGetPeers` hands out.
--
-- Parameters. The canonical check of a public key and the base58 codec (address), the handshake and
-- cipher states of the noise library, the group of the curve library and BLAKE2b, the parser of IP
-- addresses, upper case and base32 (p2p), the protobuf codecs (p2p/rpc), the generated clients and
-- the dialling of a connection (walletGRPC, nodeGRPC, p2p) and the order in which Go walks over a map
-- (cmd) are arguments of the definitions; what is documented of them is a named record or statement
-- of laws (`IsBase58`, `IsInStep`, `IsNoise`, `IsGroup`, `IsForm`). A call of a generated client is an
-- action on the world.
--
-- Bounds. The loops over slices are structural. The reading of runes takes the number of bytes as
-- fuel, and each rune uses up one byte at least. The loop of `GetPeers` takes the number of
-- iterations that are left, 100000 at the start, as the source counts them. The loop of the adapter's
-- `Read` takes the number of bytes that are to arrive, since each frame uses up two at least. A
-- decimal number of 64 bits has twenty digits at most and a variable-length integer ten bytes at most.
-- Trimming takes the number of bytes. A stream of a remote call is the finite sequence of what
-- its `Recv` returns.
--
-- Not modelled. Timeouts and cancellation, but for the looks at the context that the source takes
-- itself, and the end of the context in the exchange of identities and in the stream of events;
-- the probes, which chain the parts above; the command line, the signals and the logging of the
-- spike; the generated code of the messages. Lower case beyond ASCII is kept to the runes that
-- can become ASCII letters.
pub mod Common
pub mod Stdlib
pub mod Address
pub mod P2p
pub mod Grpc
pub mod WalletGrpc
pub mod NodeGrpc
pub mod ResponderSpike

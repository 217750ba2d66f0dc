-- ===== src/Lib.antt =====
-- A verification library for a decentralised storage system in C++: files are cut into chunks, the
-- chunks and a manifest are stored on peers that a DHT chooses, and read back from them.
--
-- The parts and how they interact. A client cuts a file (src/core/chunk), names every chunk by its
-- SHA-256 (src/core/crypto/shq256.cpp), encrypts it if a key is configured
-- (src/core/crypto/hybrid.cpp), asks the DHT node for the peers that are to hold it (src/core/dht),
-- and sends it to their services (src/core/peer), which keep it with a storage manager
-- (src/core/storage). The list of the chunks is the manifest (src/core/manifest). A tracker
-- (src/tracker/main.cpp) knows which peers are alive and which have a chunk.
--
-- Which file models which part:
--   Prelude, Cpp and FileSystem: shared names; what the program uses of the standard library
--     (extraction from streams, decimal and hexadecimal numbers, std::sort); files on disk.
--   Storage: class StorageManager, with a method per function: storeChunk is store_chunk,
--     enforceLimit is enforce_limit and so on. The record has the fields of the class and the disk.
--     Storage.Invariant has the well-formed states, Storage.Totals sums of sizes, Storage.Steps,
--     Limit and Store the lemmas on evictions and stores, Storage.Retrieval, Eviction and Metadata
--     what the methods promise, and Storage.Cache the abstract cache that the class implements.
--   Manifest and Manifest.RoundTrip: serializeManifest, parseManifestText, writeManifest and
--     readManifest.
--   Chunk and Chunk.Cut: chunkFile.
--   Crypto.Hex, Crypto.Sha256, Crypto.Hybrid with Nonce and RoundTrip: to_hex and from_hex,
--     sha256_hex, and the encryption of chunks and of the file key.
--   Dht.Id, Dht.RoutingTable, Dht.Node with their children: the files of src/core/dht of these
--     names.
--   Net.Socket and Net.Socket.Segmentation: recv_line, recv_all_text, send_all_nothrow and the
--     loops over recv. What arrives is a list of segments, as the network cut it.
--   Net.Endpoint: parse_peer_entry. Net.Connect: how connections are made, with the sockets that are
--     open and their options; Net.Connect.Outcome is on what is left open.
--   Peer.Service, Peer.Client, Peer.Line and Peer.Wire: the handler in PeerService::runLoop, the
--     calls of PeerClient, and what they make of each other's messages. Peer.Lifecycle: start and
--     stop of PeerService with its thread. Peer.Main: src/peer/main.cpp.
--   Tracker with Alive, Locations, Answers, Listing, Invariant and Reachable: the handler of
--     src/tracker/main.cpp. Tracker.Client: class TrackerClient, and its calls against the handler.
--   Dss with Candidates, Integrity, Transfer and RoundTrip: DssClient::putFile and
--     DssClient::getFile over a network with a state of its own. Dss.Puts and Dss.Gets say what
--     they have done when they do not throw, Dss.Resolve and Dss.Printable are on the manifest
--     between them, and Dss.WholeFile on a whole file.
--   Client: src/client. Client.Peers is the loop that reads a list of peers, Client.CommandLine
--     the program of main.cpp, Client.Worker the slots of DssWorker. Client.Window is the state of
--     MainWindow with the embedded peer and the discovery of peers, Client.Window.Preferences its
--     settings, Client.Window.Actions the clicks and the slots for the worker's signals,
--     Client.Window.Discovery, Restart, Handover, Queue and Session what they
--     promise. Client.Qt is what they use of
--     Qt.
--   Tests: the theorems at concrete inputs.
--
-- Conventions. Numbers are natural numbers, and a uint64_t or uint32_t has its wrap-around written
-- out. Texts are lists of byte values. A method that changes an object returns its new state; one
-- that throws returns an error of the component's own type, with the state it leaves. An
-- unordered_map is a list of pairs in the order in which it is walked.
--
-- Loops run on fuel where their recursion is not structural: eviction on the number of entries,
-- reading on the number of bytes left, cutting a file on its length. Each round uses one up, and the
-- theorems on the results show that the fuel is enough.
--
-- OpenSSL is a parameter: the record OpenSsl for AES-GCM, RSA, random bytes and PEM files, and the
-- record Sha256 for the digest, with its documented length. IsAead and IsKeyPair say what the round
-- trips rely on.
--
-- Qt is a parameter too: the record Qt has its functions on texts and on lists of texts, and IsQt
-- says what the window relies on. Whether an address can be reached, a folder made or a service
-- started are functions into Bool.
--
-- The program's surroundings are taken to be ideal in this: a file stream that opens takes all that
-- is written to it, small allocations succeed (those whose size comes from a request or a setting
-- are asked for), and keys for AES have 32 bytes. The tracker's clock counts whole seconds. The
-- parser of a manifest does not reserve its list first: a number of chunks that cannot be reserved
-- is more than a text lists, which is an exception as well.
--
-- Not modelled: the errno of a recv that fails, which ends what arrives as a closed connection does;
-- the threads' interleavings inside a call, the log output and the progress callbacks; how the window
-- makes its widgets and what its dialogs say; the set-up of the tracker's socket; and what the build
-- generates.
pub mod Chunk
pub mod Client
pub mod Cpp
pub mod Crypto
pub mod Dht
pub mod Dss
pub mod FileSystem
pub mod Manifest
pub mod Net
pub mod Peer
pub mod Prelude
pub mod Storage
pub mod Tests
pub mod Tracker

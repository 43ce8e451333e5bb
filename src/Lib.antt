-- ===== src/Lib.antt =====
-- A model of the nevod node, the Python package in node/: a network of nodes on websockets that
-- pass end-to-end encrypted messages between cells (users), each of which has a home node.
--
-- Parts and files. Base holds what all share: lists and tests on native numbers, Base/Outcome
-- (what a call returns or raises), Base/Effects (coroutines: functions from a state to an outcome
-- and a state, where what was written before a raise stays written), Base/Keeps (one rule for each
-- way to build a coroutine, to prove that it keeps an invariant) and Base/Dict. Bytes and Value
-- are Python's bytes and the values of msgpack and JSON.
--
-- - node/crypto.py is Crypto: gen_signing, gen_encryption, sign, verify, encrypt, decrypt, _kdf.
--   The cryptography package is the parameter `Primitives` of Crypto/Library, with the laws
--   `IsLawful`; Crypto/Sample meets them.
-- - node/protocol.py is Protocol and Protocol/Constructors: Packet, sign_data, pack, unpack,
--   sign_packet, verify_packet, the payloads and the make_ functions. unpack checks no types, so a
--   packet from the wire is a `RawPacket`, whose fields are any values; `typed` makes a `Packet`
--   of it. msgpack is the parameter `Codec` of Value/Codec, whose law says that decoding takes
--   back what was encoded, for integers of 64 bits and dicts of distinct keys; Value/Sample meets
--   it.
-- - node/auth.py is Auth: make_challenge, make_response, verify_response.
-- - node/identity.py is Identity: the identities, save and load over the dict that json writes.
-- - node/storage.py is Storage/Entries (the dataclasses and rows) and Storage over Storage/Table:
--   each table is a list of rows in the order of insertion, each method is a function on the four
--   tables, and a method that reads the clock takes the time.
-- - Host is what a running node has: the database, the registry of connections and the trace of
--   what it did. The clock, random draws, the websockets library and the callback of the
--   application are the record `World`, an oracle that answers by the number of the contact, so
--   that a theorem for every `World` holds for every behaviour of the network.
-- - node/transport.py is Transport: ConnectionRegistry, connect, connect_to_node, send_via,
--   send_to, _do_auth, _recv_loop, _handle_incoming. The messages that arrive on a connection
--   until it closes are a list.
-- - node/router.py is Router: parse_addr, route, _send_to_node, _deliver_local, flush_buffer, and
--   the stored form of a packet. sign sets the signature of the packet object that the caller
--   holds, so sends return the packet as it is afterwards.
-- - node/gossip.py is Gossip: _loop, _round, _ping_node, _exchange and the three handlers.
-- - node/node.py is Node: _dispatch and its handlers, join, send_message, register_cell_locally
--   and the entry that create_genesis writes.
-- - node/client.py is Client: connect with its handshake and registration, disconnect, send and
--   the receive loop. Its receive task is idle, scheduled or running, since a cancelled task runs
--   its `finally` only if its loop has begun.
-- - Lifecycle is create, create_genesis, start, stop and _split_address of node/node.py with what
--   they call in node/transport.py, node/gossip.py and node/storage.py; `websockets.serve` is its
--   parameter, and what the closing of a server does, which ends the handlers of the connections
--   that it accepted, is in `close_listening`.
-- - nevod.py is Shell (the chat of `cell connect`: _cell_connect and _split_addr, where each turn
--   is what arrives while the prompt waits and then the line, the interrupt or the exception that
--   readline gives) and Commands (the other commands, over identity files and databases by their
--   paths). Strings has the methods of str that they use.
-- - Network puts clients and nodes together: two cells at one node (Network/Delivery) and at two
--   (Network/Forwarding).
-- - Storage/Refinement gives the four tables their abstract meaning: maps from keys to entries.
-- - Invariant is about what every operation keeps: `Stable` is an invariant that survives the
--   elementary changes of the registry, the tables and the trace, and Invariant/Contact,
--   Handshake, Transport, Router, Gossip and Node go through the operations with it.
--   Invariant/Step is the relation of the steps of a node, each one operation that runs to its
--   end; Invariant/Run and Invariant/Home are invariants of its runs.
-- - Examples has concrete nodes, packets and tables, and each theorem at one of them.
--
-- How the parts interact: the transport authenticates a connection (Auth, Crypto, Protocol),
-- registers it and hands each verified packet to Node.dispatch, which calls Gossip, Router and
-- Storage; Router and Gossip send through the transport again.
--
-- Bounds and fuel: all recursion is on lists, texts or values. `loop` of Gossip counts its rounds,
-- since the code runs without end; `repl` of Shell goes through the turns of a chat, whose end is
-- the end of the input; `decimal` of Bytes/Decimal, which is str of an int, divides for n + 1
-- rounds, and n has fewer digits. Times are natural numbers, so `last_seen < now - TTL` is written
-- with the sum on the other side.
--
-- Not modelled: failures of SQLite, logging, the file system but for files by their paths, click's
-- parsing of options, ids, addresses and node types that are no text (SQLite converts some of
-- them; the model raises where the code passes them on), the interleaving of operations at their
-- await points, the texts of exceptions, the decoding of an incoming text that the chat prints,
-- and generate_zki_v2.py (a PDF). The receive loop of a connection that this node opened is the
-- event `spawned`; its messages are steps of Invariant/Step.
pub mod Base
pub mod Bytes
pub mod Value
pub mod Crypto
pub mod Protocol
pub mod Auth
pub mod Storage
pub mod Identity
pub mod Host
pub mod Transport
pub mod Router
pub mod Gossip
pub mod Node
pub mod Invariant
pub mod Client
pub mod Strings
pub mod Shell
pub mod Lifecycle
pub mod Commands
pub mod Network
pub mod Examples

-- ===== src/Lib.antt =====
-- rxs-supported: models and proofs of parts of a RandomX CPU miner.
--
-- The program reads jobs from mining pools, hashes with RandomX on worker threads and submits what
-- it finds. The network side (src/base/net) reads lines from a pool's connection (LineReader) and
-- hands them to clients; a strategy decides which client is active and forwards its jobs
-- (FailoverStrategy, SinglePoolStrategy). The hashing side (src/crypto) keeps a dataset for the
-- seed of the current job, which a background thread builds on request (RxQueue, RxBasicStorage).
--
-- Files and code:
--
-- Common and its children: the names that the components share, Boolean tests over the native
--   numbers, lists measured by them, and predicates on all elements of a list.
-- Net/LineReader: src/base/net/tools/LineReader.cpp. The state is the bytes held in the buffer,
--   whether it is allocated, and the lines delivered; `parse`, `getline`, `add` and `reset` are the
--   methods, and `end_line` and `end_chunk` the parts of `getline`. The loop runs on fuel, one more
--   than the size of the chunk, which is enough because each round takes a newline off the chunk.
-- Net/Strategy: src/base/net/stratum/strategies/. `Effect` holds the calls that a strategy receives
--   (Event) and makes (Effect), and the interface `Strategy` with its laws; `Failover` and
--   `SinglePool` are the two strategies, one function for each handler, and `Run` what follows from
--   the interface for whole histories. Clients are known by their ids; m_active = -1 is `none`.
-- Net/Job: src/base/net/stratum/Job.cpp. A job is a record with the buffer of its blob; `set_blob` and the
--   other setters give the answer and the job after it, a division by zero in `set_target` is `none`.
--   Net/Job/Strtoull is the C library's function, on text.
-- Net/NetworkState: src/base/net/stratum/NetworkState.cpp, one function for each handler, and `run` for a
--   history of events, the latest first. std::sort is sorting by insertion.
-- Net/Socks5: src/base/net/stratum/Socks5.cpp. `read` and `handshake` give the object after them and the calls
--   made to the client; a read or a write out of bounds is `none`. The two address functions of libuv
--   are parameters.
-- Net/Client: src/base/net/stratum/Client.cpp and BaseClient.cpp, built without TLS and, as a
--   release is, without assertions. `World` is what a call
--   finds outside (the clock, libuv, rapidjson, the listener's answers), taken to be the same during the
--   call; a call gives the client after it and the calls made, and those of the listener are followed
--   after it. Net/Client/Requests is what is sent, Net/Client/Responses what a pool's answer does,
--   Net/Client/Calls one function for each callback, and `run` for a history. A fault (a division by zero,
--   a read past a buffer, an array read as a text) ends the client: `alive` is false. Counts of
--   failures and jobs do not wrap around.
-- Net/Client/Moves: what one line may change, as a relation, for Net/Client/Session and the rest. What a
--   history is taken to be stands in Net/Client/Histories: `Possible` is what libuv and the callers do, `Own`
--   that no socket is read but the connection's, `Steady` that no line is a `client.reconnect`.
-- Net/Url: src/base/net/stratum/Url.cpp, with strtol of the C library in Net/Url/Strtol.
-- Tools/Json: src/base/io/json/Json.cpp, over documents as rapidjson hands them over.
-- Tools/Hashrate: src/backend/common/Hashrate.cpp; the time of the clock is an argument, and a rate is the
--   two numbers whose quotient the program computes as a floating point number.
-- Tools/WalletAddress: src/base/tools/cryptonote/WalletAddress.cpp, with keccak as a parameter and a signed
--   char; `fault` is a read out of bounds.
-- Crypto/Algorithm: src/base/crypto/Algorithm.cpp. A search has five rounds for the fourteen aliases.
-- Common/Decimal: the digits of a number, as snprintf writes them.
-- Common/Maps: the maps of numbers that the clients keep.
-- Crypto/RxSeed, Crypto/RxBasicStorage, Crypto/RxQueue: src/crypto/rx/. The queue's functions are the
--   sections that run under its mutex; `Reach` is every interleaving of callers and background
--   thread, and `drive` is the background thread alone.
--
-- Crypto/Nonce: src/crypto/common/Nonce.cpp. `verdict` is what a thread makes of the counter that it
--   has fetched; `next` is one call, whose loop runs on fuel (two rounds are enough for blocks of up
--   to 2 ^ 31 nonces), and Crypto/Nonce/Threads is any interleaving of the threads' fetches.
-- Crypto/MemoryPool: src/crypto/common/MemoryPool.cpp. `get` and `release` are the methods; in
--   Crypto/MemoryPool/Blocks a history is a list of calls, the latest first, with the blocks held.
-- Common/Bits: masks and disjoint fields under `&` and `|`, at every width.
--
-- Tools/Cvt: src/base/tools/Cvt.cpp, hexadecimal text to bytes and back.
-- Tools/BlobReader: src/base/tools/cryptonote/BlobReader.h. A read is a function of the reader's state
--   with results for the exception, for a `return false` of its caller and for undefined behaviour;
--   do blocks put reads in sequence. A varint's loop has fuel for eleven bytes, the last of which is
--   undefined.
-- Tools/BlockTemplate: src/base/tools/cryptonote/BlockTemplate.cpp, `parse` without the transaction
--   hashes, in stages (`parse_header`, `parse_input`, `parse_output`, `parse_extra`, `parse_hashes`),
--   and `generateHashingBlob`. Its child ExtraField has the extra field, whose loop runs on fuel and
--   has the result `running` when the fuel runs out; no fuel is enough for some fields. Its child Merkle
--   has `calculateMinerTxHash`, `calculateRootHash` and `calculateMerkleTreeHash`, with keccak as a
--   parameter; the levels of a tree have a round for each of its hashes.
--
-- Not modelled: the vendored libraries under src/3rdparty, RandomX itself, the operating system,
-- files and logging, TLS and HTTP; what a listener does when it is called back. Payloads that a
-- strategy passes on unread are of an arbitrary type. Numbers that cannot reach the bounds of their
-- machine types in these parts are native numbers; where they can, the wrap-around is written out.
pub mod Common
pub mod Net
pub mod Crypto
pub mod Tools

-- ===== src/Lib.antt =====
-- XYChat: the core of the chat server, the ratchet of encrypted groups and the client's local data.
--
-- The program. A client sends framed packets with JSON payloads over a TLS socket. Each connection has
-- a RequestHandler in a thread of its own; it cuts the stream into packets, checks each for a replay
-- and for a valid session, and hands it to the handler of its type, which works on an SQLite database.
-- The Server object keeps who is online and routes messages between connections. A client keeps its
-- messages, its outbox and a cursor of the server's event stream in an encrypted local database, and
-- reads and writes group messages with sender keys that move on with each message.
--
-- The parts and their files.
--   Common: native numbers with Boolean tests, lists, texts (lists of code units), sets of ids, the
--     parts of SQL that the program uses, and association lists for Qt's hash tables.
--   Protocol: CommonModule/protocol/Packet.h and PacketCodec.cpp. `encode` and `next_packet` are
--     PacketCodec::encode and nextPacket, the buffer is an argument; `on_ready_read` is the read loop
--     of RequestHandler. Its fuel is one more than the buffer's length: each packet takes its header.
--   RateWindow: Chat-Server/core/RateWindow.h.
--   NonceCache: Chat-Server/core/NonceCache.cpp, and RequestHandler::checkReplayProtection.
--   Server/Registry: the slots of Chat-Server/core/Server.cpp over its three tables.
--   Database: Chat-Server/database/DatabaseManager.cpp. `Db` is the tables as lists of rows; each
--     operation is the statements of a method. Accounts has users, sessions, devices and the login
--     audit, Events the stream of sync events, Prekeys the identity keys and one-time prekeys, Groups
--     the groups and their members, Messages private conversations and messages, Receipts the
--     receipts, cursors and preferences, Contacts the contacts, History what no handler calls yet.
--   Envelope: the decoders and the encoder of encrypted content in CommonModule/encryption/
--     E2eeCrypto.cpp and GroupE2eeCrypto.cpp.
--   Ratchet: the sender keys of CommonModule/encryption/GroupE2eeCrypto.cpp. Skipped is the
--     QMap of skipped message keys, Receive is decryptMessage and Outcome the ways in which a
--     call ends; Chain and Arrival follow the chain of keys, Replay and Delivery what a
--     receiver reads, Sender has runs of encryptMessage and Content the encoders of its
--     messages. The loop of decryptMessage is recursion on the number of its turns, the
--     difference of the iterations.
--   Client: Chat-Client/core. Store and SenderKeys are LocalStore.cpp, the messages and the
--     keys of groups; Sync and Outbox are the event stream and the sending of group messages in
--     NetworkManager.cpp; Outbox/Private has the other requests that carry messages, Outbox/Blocked
--     what may follow on a connection. Sync/Exchange and Sync/CatchUp join the client with the server's
--     `sync_answer`; the number of exchanges is one more than the number of events that are
--     due.
--   Handler: Chat-Server/core/RequestHandler.cpp. `World` is the database, the connection's fields and
--     what it sends. Session, Login, Sessions, Sync, Keys and GroupKeys have the handlers of accounts,
--     events and keys, Groups those of groups, Messages the sending of messages, Receipts their
--     acknowledgement and reading, Changes editing, deletion and preferences, Contacts the contacts,
--     Search the search for users. Notes has what is told to other users; Dispatch has processPacket.
--     Outsiders serves eight of the handlers to a user who is not a member. A call of the transaction
--     methods is the choice between the old and the new tables.
--
-- Conventions. Times are Unix seconds as natural numbers, and an operation takes the clock it reads
-- as an argument. Ids are natural numbers; an id that is not positive is 0. A method that returns
-- -1 or an empty optional on failure returns `none`. A slot, a locked method and a statement of SQL
-- are one step, so interleavings are sequences of calls. Where the code has neither a lock nor a
-- transaction and a theorem depends on it, the parts are steps of their own: the two parts of a
-- login (`admit` and `finish_login`), and the three statements of a pruning (`PruneRun` has their
-- clocks and outcomes, and what others append between them).
--
-- Parameters. Hashing of tokens and passwords, random tokens, reading and printing JSON, Base64,
-- SQLite's LIKE and QString::trimmed are arguments of the definitions that use them. OpenSSL is the
-- record `Crypto`; where a theorem relies on it, `Derives`, `Works`, `Opens` and `Seals` state what it
-- documents. Base64, printed numbers and JSON objects of the client's key store are the record
-- `Formats`, and `Reads` states what they document.
--
-- Not modelled: sockets, TLS, timers and logs; the schema migrations; the list of conversations, which
-- only reads for display; key exchange and key files; of the client, its connection, the choice of
-- the users whose keys it fetches, the building of sender keys' distributions and the interface.
mod Common
pub mod Protocol
pub mod RateWindow
pub mod Ratchet
pub mod NonceCache
pub mod Server
pub mod Database
pub mod Envelope
pub mod Handler
pub mod Client

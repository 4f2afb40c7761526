-- ===== src/Lib.antt =====
-- knock: a chat over one-way message queues. The server (server/) keeps queues and undelivered
-- messages in SQLite and passes messages between WebSocket connections; the client (client/) chats
-- through two queues, one for each direction; both speak the protocol of protocol/.
--
-- The parts and their files:
--   Prelude: Boolean tests, lists, byte strings and their cuts, Go maps as association lists,
--     integers, strconv.Atoi, unique keys.
--   Protocol/Id: NewID and ValidQueueID of protocol/envelope.go over encoding/hex.
--   Protocol/Envelope: Envelope, NewEnvelope and the checks of Parse in protocol/envelope.go, and
--     the payload structs of protocol/payloads.go. encoding/json is the parameter `Json`: it writes
--     a string and compacts a raw text. A frame that is read comes as what json.Unmarshal makes of
--     it.
--   Protocol/Base64, Escapes and Url: what protocol/invite.go uses of encoding/base64 and net/url.
--   Protocol/Invite: protocol/invite.go. String, inviteChecksum and ParseInvite with its errors in
--     their order; SHA-256 is a parameter.
--   Crypto: crypto/crypto.go and fpHex of client/state.go. The curve, the signatures, HKDF, the
--     cipher, the hash and the JSON of a map are the parameter `Primitives`, with the laws that
--     they are known by.
--   Crypto/Vectors: crypto/genvectors/main.go up to the file, with its own DeriveKey and
--     Fingerprint.
--   Files: SaveToFile of identity/identity.go and saveState of client/state.go, as calls that
--     change a disk and may fail; all states of the disk are kept, since the power may go at any
--     time.
--   Identity: DefaultPath and LoadOrCreate of identity/identity.go, loadMyIdentity of
--     client/main.go.
--   Server/Store: the tables of server/store.go as lists of rows in the order of their rowid, and
--     one function for each method of Store. The driver may fail any statement, which then changes
--     nothing: `Faults` says which, and whether foreign keys go unchecked. Store/Order,
--     Effects, Changes, Writes, Sweeps and References hold the proofs.
--   Server/Run: the result of server code, which returns or panics; there is no recover in server/.
--   Server/Channel: server/client.go. The send channel of a connection with its 16 places and its
--     close, SendEnvelope and SendError, a round of readPump and a look of writePump at its
--     channel.
--   Server/Hub/State, Handle and Loop: server/hub.go. The Hub with its two maps, the store and the
--     channels of all connections; register, unregister, releaseQueue and kick; handle with a
--     function for each command; Run as steps over a list of events, each with its own clock,
--     random bytes and faults. `handle` is called for each frame that the reader routes, as Route
--     and Run do. Handle/Serving, Handle/Calmly and Loop/Lasting are about commands and runs that
--     cannot panic.
--   Server/Mailbox: what a run of the server may do to mailboxes by queue id, without tables.
--   Server/Life: sweepLoop of server/main.go beside the hub, with its two periods.
--   Client/State: client/state.go but for the writing of the file, and upsertContact of
--     client/session.go.
--   Client/Address: parseAddr, buildWSURL, validQID, isIndex and toIndex of client/session.go, with
--     net.SplitHostPort written out.
--   Client/Pumps: client/pumps.go. The session's channel between readPump, stdinLoop and writePump,
--     as turns in any order; the reader of payloads is a parameter, and lines come trimmed.
--   Client/Request and Client/Dialogue: runChat up to the pumps, request, dialAddr and myInvite of
--     client/session.go and runNew of client/main.go, over the frames that the server will send,
--     the lines that the user will type and the state file; `Outside` says which calls succeed. A state
--     file may be unreadable.
--     Dialogue/Pairs is about two clients with one link.
--   Client/Program: main of client/main.go; the package flag is a parameter.
--   Tests: data, and a run of each theorem on it.
--
-- How the model stands to the code: a connection is a number in place of a pointer; a connection
-- that comes has a number of its own, and the theorems on runs hold for any choice of numbers. The
-- frames on a channel are envelopes in place of their JSON text. Times are Unix seconds that are
-- not negative. The goroutines meet only at the hub's channels, so a run of the server is a
-- sequence of events: a connection comes or goes, a frame is read and handled, the writer takes a
-- frame. The sweeper meets the hub in the database alone: in Server/Life each statement of a sweep
-- comes between two events, at any time and with any faults. There is no fuel: every loop of the
-- model is structural recursion; the loop of request and that over the user's lines go through
-- lists, at whose end the wait or the input ends. Log lines are left out, but for the slices of ids
-- in them, which panic on a short id; those of releaseQueue are left out as well.
--
-- Not modelled: sockets, deadlines, pings and the read limit (gorilla/websocket); SQL beyond what
-- the statements say; the JSON text of an envelope; what is only shown on the terminal; the
-- server's main function (the HTTP server, the opening of the database); the file of
-- crypto/genvectors/; scripts/.
pub mod Prelude
pub mod Protocol
pub mod Files
pub mod Crypto
pub mod Identity
pub mod Server
pub mod Client
pub mod Tests

-- ===== src/Lib.antt =====
-- zevBot: a WhatsApp bot behind a WebSocket hub, and the stores of its client.
--
-- The program connects to WhatsApp through the whatsmeow library, which is not in this repository, and
-- keeps what that library needs in an SQL database. Clients of the bot send control messages over a
-- WebSocket; the bot answers each and broadcasts events to all.
--
-- The stores. Lid and its children model the map between LIDs and phone numbers (store/sqlstore/lidmap.go):
-- Lid/Tables the table lid_map, its statements and the two caches, Lid/Methods and Lid/Many the methods of
-- CachedLIDMap.
-- Signal models the Signal tables (Signal/Store, store/sqlstore/store.go) and the session cache over them
-- (Signal/Cache, store/sessioncache.go and store/signal.go), with the move of rows from a phone number to
-- its LID in Signal/Migrate. PreKeys/Store has the pre key methods, Contacts/Store the contact methods with
-- their cache, Chats/Store the chat settings, AppState/Store the app state, Tokens/Store the privacy tokens,
-- Events/Secrets the message secrets and the salt, and Events/Buffers the event buffers, all of
-- store/sqlstore/store.go.
--
-- The device. Device/Types has the record of store/store.go and the row of the table device,
-- Device/Container the methods of Container (store/sqlstore/container.go), Device/Methods those of Device
-- (store/store.go), Device/Interfaces the interfaces of store/store.go, Device/Noop NoopStore
-- (store/noop.go), and Device/Protocol the methods that libsignal calls (store/signal.go): a device calls the
-- SQL store or the NoopStore that its field holds. Payload has the version and the payload of
-- store/clientpayload.go, and Cli the command line (cli.go).
--
-- The bot. Bot/Messages has the messages and their payloads (messages.go), Bot/Control handleControl and
-- handleWAEvent (session.go), Bot/Session run with its pairing (session.go), over the events, QR codes and
-- control messages that arrive until its context is done, Bot/Server the hub and its goroutines as steps
-- (ws.go). The bot and the stores meet in the client of whatsmeow, the parameter Client.
--
-- Prelude has the shared names, Table the keyed rows that stand for SQL tables and Go maps, Sql the
-- programs: a program takes the failures of the run, by the number of the statement, and a state of
-- database, memory and statement count, and returns a value or an error and the new state. Sql/Post says
-- what a program leaves behind on both. DoTxn of dbutil is a parameter, Txn, with the law Outcome. Jid has
-- the fields of types.JID, and the rest of whatsmeow's types package as the parameter Types. exsync.Map is
-- SyncMap, libsignal's serializer is Codec, the functions of exslices are arguments. The random private keys
-- are a function of the statement count.
--
-- Loops run over lists, but for slices.Chunk, which has the length of its list for fuel: each round takes
-- an element at least. Channels have their capacity of 64. Locks are not modelled: a method is one step;
-- in the hub each step is what one goroutine does under its lock, or one send. A session runs its loop
-- apart from the event handler that it adds, handleWAEvent, which broadcasts on another goroutine. The
-- payloads of control messages are read by the exact names of their members.
--
-- Versions have parts of 32 bits, whose decimal texts have ten digits at most, the fuel of itoa; ParseVersion
-- reads int, of 64 bits, and wraps to 32. A row with a CHECK or a foreign key is refused as the schema says in
-- the tables of devices and of app state. Where a query may take any of several rows, the model takes one,
-- and the definition says so.
--
-- Not modelled: logging, process start and exit, opening and upgrading the database, which hold no state of
-- the program; the constant fields of the client payload; the texts that are printed.
mod Prelude
mod Table
mod Sql
mod Jid
mod Lid
mod Signal
mod PreKeys
mod Contacts
mod Chats
mod Bot
mod AppState
mod Tokens
mod Events
mod Cli
mod Device
mod Payload
mod Tests

-- ===== src/Lib.antt =====
-- ws-cluster, a cluster of websocket chat servers written in go.
--
-- A client or another server connects to a server; the server keeps a peer for each connection. A
-- peer reads frames from its websocket, decodes the messages in them and hands each to the hub as a
-- packet. The hub handles its packets one at a time: it enters and removes peers, relays messages
-- to clients, servers, groups and domains, and answers the messages that are for itself. What it
-- sends goes to the peers, which write it to their websockets in turn.
--
-- Wire: the package wire. Wire/Io has the byte helpers of wire/common.go (ReadUint8 to
--   WriteAscllString) over the bytes that are left of a reader and an interface `Writer`, whose
--   instance is a buffer; Wire/Addr has NewAddr and the methods of Addr, Wire/Addr/Text its String and
--   Wire/Addr/Parse ParseAddr and its variants, with SplitN and Atoi as they are used there;
--   Wire/Body has the bodies of wire/msg_*.go with their Encode and Decode; Wire/Message has Header
--   and Message of wire/message.go, MakeEmptyBody, MakeEmptyHeaderMessage and MakeEmptyRespMessage.
--   Bytes are numbers; an address is a list of 32 of them. A decoder returns the input that is left
--   on an error too, since the reader has moved by then.
-- Peer: peer/peer.go. Peer/Inbound is the loop of inMessageHandler over one frame. The loop runs on
--   fuel, the length of the frame and one, which is enough since each message takes a byte at least;
--   it starts a goroutine for each message, and Peer/Calls has the orders in which these call OnMessage.
--   Peer/Outbound has writeMessage, with the numbers it gives, and the reading of frame after frame,
--   up to one that is longer than the limit of SetReadLimit;
--   Peer/Connection the states of a connection (SetConnection, Close, closeConnect, connectionClosed)
--   and what ends its goroutines, as steps in any order; Peer/Setup the settings that NewPeer makes;
--   Peer/Cleaning the loop at the end of packetQueueHandler.
-- Queue: the goroutines packetQueueHandler and packetHandler, which hub/hub.go and peer/peer.go both
--   have, with the two channels of capacity 1 between them, as steps in any interleaving.
-- Hub: the package hub. Hub/State has the data of hub/hub.go, hub/clent_peer.go, hub/server_peer.go
--   and hub/group.go; Hub/Session the methods AddSession, DelSession and getAllSessionServers;
--   Hub/Output what a handler sends (PushMessage, broadcast, sendToDomain, answers, packets to
--   groups); Hub/Regist the handlers that enter and remove peers; Hub/Relay recordSession,
--   recordLocation and handleRelayPacket; Hub/Logic handleLogicPacket; Hub/Handler the dispatch in
--   packetHandler; Hub/Group the loop of a group; Hub/Store saveMessagesToDb, over the message store
--   as a parameter, and Hub/Store/Logged the way of a message from the log to that store;
--   Hub/Http the handlers of hub/http_handler.go over parsed requests, with md5 as a parameter, up to
--   what the hub does with the packets that they queue; Hub/Intake the message log before
--   the hub's queue; Hub/Answer a packet and its answer; Hub/Peers
--   OnMessage and OnDisconnect of both kinds of peers, and the way of a message through them, from one
--   server to another as well; Hub/Cluster startCluster, newServerPeer and
--   connect, with the world of other servers as a state that each call may change, and what net/http
--   does to the values of headers (Hub/Cluster/Headers); Hub/Config
--   LoadConfig of hub/config.go, with the flags as variables (Hub/Config/Flags); Hub/Start NewHub and
--   Main of hub/hubmain.go, up to the call of Run.
--   Hub/Http/Query is what the handlers read from a query, as net/url of go 1.12 does.
-- Chat: chat/client.go: the login that newPeer dials, and what the goroutine of main counts.
-- Database: database/mem_cache.go, the group cache, as the events that its goroutine handles, and
--   database/redis_cache.go over the redis client as a parameter (Database/Redis); Database/Store has
--   SaveChatMsg and SaveGroupMsg of database/db_store.go.
-- Filelog: filelog/filelog.go. Filelog/Block has Block and the loop of readloop over the records of
--   one block; Filelog/File has FileLog, the file of blocks with its two numbers, in which every access
--   may fail; Filelog/Loops the cases of writeloop and the rounds of readloop,
--   Filelog/Loops/Events their runs in any interleaving, and Filelog/Loops/Delivery what they deliver.
-- Common: what the others share: Boolean tests, lists, Go maps as association lists, and the two
--   effects, a result with an error and a state that is kept on errors.
-- Tests: runs, and the theorems at concrete inputs.
--
-- How the code is modelled. A handler takes the hub's state to a result and a new state, and a
-- panic or a channel operation that never ends is an error among its results. A pointer to a peer is
-- the number of its connection. What is sent is a list in the state, oldest first. A Go map is
-- an association list, and its order stands for the order of one `range`. Whether a connection is
-- open is read from a function in the state that stays the same while one packet is handled. Numbers
-- of a fixed width wrap around where the code converts to that width. Texts of URLs, the clock and
-- the connections are given. Messages are values: the number that a peer gives to a message it
-- writes is in the frame that it writes; in the program it is written into the header that all holders
-- of the message share, so one without a number is seen with it by whoever reads it later. `%v` of a
-- number runs on the fuel of 20 digits, which every uint64 fits in.
--
-- Not modelled: websockets, timers and the goroutines that Run starts; the routes of httplisten; Close
-- and clean of the hub, which close all connections and wait; BuildServerID, which has no caller; the
-- opening of SQL engines and of redis (database); the JSON of two answers; the dialling in the
-- load-test program chat, and the program send.
pub mod Common
pub mod Wire
pub mod Queue
pub mod Peer
pub mod Hub
pub mod Chat
pub mod Database
pub mod Filelog
mod Tests

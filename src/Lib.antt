-- ===== src/Lib.antt =====
-- tcpudp carries UDP datagrams over many TCP connections at once. A virtual channel has 32 TCP
-- connections; the sender numbers each datagram and spreads the packets over the connections, the
-- receiver parses each connection's byte stream, hands the packets to a reorder thread through one
-- ring for each connection, and delivers the datagrams in the order of their numbers. Gaps are
-- reported to the peer, which sends again over the last 8 connections, and are skipped after 4
-- seconds.
--
-- Files, and the code that each is about (paths from the repository's root):
--   Base, Base/*          Boolean tests, lists and association lists over the native naturals
--   Bytes                 little-endian fields in byte lists (the packed structs of the host)
--   VcPacket, VcPacket/*  src/common/VcProtocol.h, and the packets built in src/common/TcpVirtualChannel.cpp
--   IoThread              src/common/TcpVCIoThread.{h,cpp}: ReadBuffer and readFromConnection, with the
--                         results of recv (src/common/Socket.cpp, RecvTcpDirect) as a list of inputs
--   IoThread/*            its loop, its buffer, whole streams cut into reads, its error paths, and in
--                         Slot the turns of run() for a slot whose connection may be replaced
--   Reorder               src/common/TcpVirtualChannel.cpp: reorderThreadFunc, drainReceivedDataMap and
--                         sendMissingNotifications, one turn of the thread as one function
--   Reorder/*             order, completeness and missing notices over any number of turns
--   Queue/Blocking        src/common/BlockingQueue.{h,cpp}, each method as one step
--   Queue/Blocking/Counter  the same with other threads between its lock and its counter
--   Queue/Spsc            src/common/SpscQueue.h, each atomic access as one step of its thread
--   Cache, Cache/*        src/common/TcpVirtualChannel.{h,cpp}, class SentDataCache
--   Tracker, Status       src/common/TcpVCWriteThread.h: MessageTracker and SocketStatus
--   Channel               src/common/TcpVirtualChannel.cpp: send, processResendRequest,
--                         processMissingNotify, the default callbacks, and the state of open and close
--   Channel/*             any order of these calls, what they leave alone, and what they promise
--   Uvt, Uvt/*            src/common/Protocol.{h,cpp}: UvtUtils, the UDP framing and the bind messages
--   Clients, Clients/*    src/common/Protocol.h, class ConnectionManager
--   Server, Server/*      src/server/Server.cpp (the loop of AcceptConnections), src/server/Peer.cpp,
--                         src/server/VcManager.cpp, src/server/ReplaceSlotPolicy.h, and getDeadSlots and
--                         replaceConnection of src/common/TcpVirtualChannel.cpp
--   Connection            src/common/TcpConnection.{h,cpp}: the methods of a connection
--   Connection/*          its whole life, its send loop, and the generation counter (a seqlock) of the
--                         runtime information, with a reader between the steps of the writer
--   Socket                src/common/Socket.cpp, SendTcpDirect
--   SendThread            src/common/TcpVCSendThread.cpp: the loop of run, a round as one function
--   SendThread/State      the object, its constructor, and replaceConnection
--   SendThread/Rate, Order  rateConnection, and the order in which the connections are tried
--   SendThread/Complete, Attempt  the attempts of a packet, and the rest of a partly written one
--   SendThread/Resend     sendOnResendConn and the part of run that calls it
--   SendThread/Framing, Conserve, Retries  what is written, what is kept, and how often is tried again
--   ReadThread            src/common/TcpVCReadThread.{h,cpp}, the older reader, which nothing creates
--   VcSlots, VcSlots/*    src/common/TcpVirtualChannel.cpp: the connections of a channel by slot, the
--                         callback that open installs, close, getDeadSlots and replaceConnection
--   Client                src/client/Client.{h,cpp}: PrepareVC, TeardownVc, Stop
--   Client/Reconnect      ReconnectVC;  Client/Splice: the watchdog and ReconnectSingleSlot
--   Client/UdpSocket      PrepareUdpSocket and Start
--   Client/Prepare, Stale, Revive  what these calls leave open and closed
--   EndToEnd              the sender's numbers and the reorder thread together; in EndToEnd/Wire the
--                         send thread of one end and the reader of the other
--   */Tests               concrete runs
--
-- State and numbers: a C++ object is a record, its methods are functions from the old record to
-- the new one, and what a callback would be given is part of the result. Times are numbers read
-- from the clock by the caller. A uint64_t is a natural number; where the code's wrap-around
-- matters (the lock-free size of the blocking queue, the next message id, the delays of ReconnectVC)
-- it is written out. A
-- message id has 64 bits, and the theorems that need ids below 2^64 say so.
--
-- Fuel: the parse loop of readFromConnection runs on the number of bytes in the buffer plus one,
-- and drainReceivedDataMap on the number of buffered messages; each round takes at least one.
-- The completion of a partly written packet runs on the number of rounds that the clock grants and
-- the bytes that are left; the send loop of TcpConnection on the bytes to send; ReconnectVC on the
-- attempts that are left. What is said of this is proved in IoThread/Parse, Reorder/Drain,
-- SendThread/Complete and Connection/Sending. The loop of the older reader runs on the length of
-- its buffer plus one, and each round takes ten bytes at least.
--
-- The send thread's sockets: what a round of sends finds (results of send and poll, the clock, the
-- kernel's information) is a World, given slot by slot; the model keeps for each slot the bytes that
-- were written on its connection. The client's descriptors are numbers, and every close is listed.
--
-- Not modelled: sockets, threads as such and the clock (inputs of the model), logging and the text
-- of diagnostics, the JSON library and the reading of the configuration, the score that
-- src/common/NetworkScoreCalculator.cpp computes in floating point for display, and the rest of
-- src/common/Socket.cpp, which calls the system. Memory allocation is taken to succeed.
pub mod Base
pub mod Bytes
pub mod VcPacket
pub mod IoThread
pub mod Reorder
pub mod Queue
pub mod Cache
pub mod Tracker
pub mod Status
pub mod Channel
pub mod Uvt
pub mod Clients
pub mod Server
pub mod Connection
pub mod Socket
pub mod ReadThread
pub mod SendThread
pub mod VcSlots
pub mod Client
pub mod EndToEnd

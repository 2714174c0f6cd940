-- ===== src/Lib.antt =====
-- A model of p2p-network, a BitTorrent-like file transfer in C++: a tracker (src/server) that knows
-- which clients share which torrents, clients (src/client) that download the segments of a file from
-- several peers at once, and the code that both share (src/shared).
--
-- Base holds the helpers: tests on numbers, lists, `std::string` as a list of bytes (`Text`), the
-- little-endian bytes of an unsigned integer, `int` as ℤ, and `Outcome`, what a call comes to: a value
-- and a new state, an exception with the state that it leaves, undefined behaviour, or a call that does
-- not come to an end: one that waits, or whose fuel ran out.
-- Shared models src/shared: the messages of TcpMessage.proto, the file system (`Disk`), `Connection`,
-- sendTcpMsg (`Wire`, with `Client/Sockets/Wire` for the side that reads), Torrent.cpp (`save_to_file` is
-- saveToFile, `of_file` the constructor that reads a torrent file), and in `Options` and `Listener` the
-- option and the accept loops of src/server/main.cpp, src/client/main.cpp and
-- src/client/networking/RequestHandler.cpp.
-- Tracker models src/server: ClientInfo.h, database/Database.cpp (`Database`: a method is an `Action`
-- on the clients, the torrents and the mutex as the calling thread sees it) and TrackerThread.cpp
-- (`Responder`: `respond` is respond, `serve` the loop of run over the results of recv). `Threads` is the
-- whole tracker: the loop of src/server/main.cpp, the variable by which its threads get their
-- connections, and the threads over one database, interleaved.
-- Client models src/client: Segment.cpp and PeerInfo.h (`Segment`), File.cpp (`File`),
-- database/Database.cpp (`LocalDatabase`), file/FileManager.cpp (`FileManager`: the file locks by name,
-- and segments on disk), networking/BaseSocket.cpp, CSocket.cpp and SSocket.cpp (`Sockets`: exchanges
-- with a peer or the tracker), networking/ResponderThread.cpp (`Responder`),
-- download/DownloadManager.cpp (`Manager`, and with the socket to the tracker `Manager/Asking`), and
-- download/DownloadWorker.cpp: the workers of one file interleaved (`Workers`, and with their writes to
-- the disk `Swarm`), and the run of one of them against its peer (`Download`). The steps of `Swarm` take
-- a relation `answers`: what a peer may answer for a segment. `Given content` is that of peers that
-- have the content. A worker of `Swarm` or `Workers` may take up any number at any time, where work goes
-- once through a list: these steps allow every run of the code and more.
-- `Menu` is src/client/main.cpp: runMenu round by round, and main.
-- `LocalDatabase/SaveRead` is the test database_save_read of src/client/tests/tests_main.cpp.
-- Tests has the theorems at concrete inputs.
--
-- Conventions. Unsigned integers are natural numbers, with the wrap-around written out where the code
-- computes with them; the ranges of stored values are hypotheses. Reads of unset variables, vector
-- indices out of range, a lock taken twice by one thread and a function that ends without a return
-- are undefined behaviour (`undefined` or `none`); only the missing return of runTrackerThread, which every
-- thread of the tracker comes to, is taken for an ordinary end. The log is left out.
-- Code outside the repository is a parameter: `hash` is std::hash<std::string>, `parse` and `serialize`
-- the parser and the serialiser of protobuf, `read_int` and `read_word` the extractions from std::cin. A
-- generated message class is read as the record of its fields, a field of the oneof that is not set as
-- its default.
-- Fuel bounds two loops: the search of addTorrent for a free hash, where one unit is enough, since the
-- first call of isHashUnique is undefined behaviour while the mutex is held, and the rounds of the menu,
-- where one unit more than the input has characters is enough.
-- Not modelled: writes that fail on a stream that has opened, the log, the commented-out CLI.cpp, and the thread of a download that the menu starts,
-- which ends with the process. A call of a handler of the tracker is one step: the unlocked iteration of
-- handleSeedNotification over the torrents is not cut further. Left out too are the tests that compare
-- 4 with 4, SockException, which nothing throws, and the copy of the receive buffer into the string
-- `messageString`, which nothing reads. Of runResponderThread only its call of run is modelled.
mod Base
pub mod Shared
pub mod Tracker
pub mod Client
mod Tests

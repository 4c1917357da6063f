-- ===== src/Lib.antt =====
-- MoldUDP64 multicast market data receiver: a model of its core and theorems about it.
--
-- The program receives MoldUDP64 datagrams that carry ITCH messages. FeedArbitrator
-- (include/feed/feed_arbitrator.hpp) passes the datagrams of two redundant lines to one GapBuffer
-- (include/feed/gap_buffer.hpp), which puts them in order, drops duplicates, asks for retransmission
-- and calls on_message for each message. MultiSymbolBook (include/feed/order_book.hpp) decodes the
-- messages with the parsers of include/feed/wire_format.hpp and keeps one OrderBook per symbol; a
-- change of a book's top goes to DecisionEngine (include/feed/decision_engine.hpp), which times itself
-- with the LatencyHistogram of include/feed/stats.hpp. PcapWriter and PcapReader
-- (include/feed/pcap_replay.hpp) write datagrams to a capture file and replay it into a GapBuffer.
-- MulticastReceiver (include/feed/receiver.hpp) reads datagrams from a socket into a GapBuffer and
-- ticks it. src/main.cpp runs the buffer with a counting handler, live or on a capture file;
-- tools/gen_pcap.cpp writes such files; tools/tick_to_trade_bench.cpp drives buffer, books and decision
-- engine with generated orders; tools/timestamp_validate.cpp compares the kernel's timestamps with the
-- program's clock.
--
-- Which file models which part:
--   Common       tests, lists and machine words that all parts share
--   Wire.Endian  be16 to be64, put_be16 to put_be64
--   Wire.Mold    MoldHeader, MoldMessage, RetransmitRequest
--   Wire.Itch    the ITCH message types and parsers; Layout and Orders hold their layouts
--   Gap.State    GapBuffer's data; Gap.Deliver: deliver_packet, flush_buffer; Gap.Retransmit:
--                handle_gap, check_gap_timeout; Gap.Ingest: ingest, tick, buffer_packet;
--                Gap.Gather: a stream of datagrams that arrive in any order
--   Book.Level   the std::map of one side; Book.Maps: std::unordered_map; Book.Order: OrderBook;
--                Book.Multi: MultiSymbolBook; Book.Notify: the calls of on_top_change;
--                Book.View: the book as the orders at rest; Book.Multi.Arrival: the books behind a
--                GapBuffer
--   Arbitrator   FeedArbitrator; Arbitrator.Cover: a stream that arrives over two lines
--   Stats        LatencyHistogram; Stats.Samples: SampleRecorder; Stats.Throughput:
--                ThroughputTracker
--   Decision     DecisionEngine
--   Pcap         PcapWriter and PcapReader of include/feed/pcap_replay.hpp; Pcap.Pacing: until when a
--                real-time replay waits
--   Receiver     MulticastReceiver of include/feed/receiver.hpp; Receiver.Calls: the system calls
--                of open; Receiver.Stream: what its rounds do to the buffer
--   Main         Handler and the two modes of src/main.cpp; Main.Command: its main
--   Args         the command lines of src/main.cpp and of the three tools
--   GenPcap      tools/gen_pcap.cpp
--   Bench        tools/tick_to_trade_bench.cpp
--   Validate     tools/timestamp_validate.cpp
--   Runs         the theorems at concrete inputs
--
-- State is passed explicitly: an operation takes the object's record and returns the new one. A
-- callback that is set is a Bool of the record; its calls are a record of calls in GapBuffer, newest
-- first, and a second result in the other classes. A pointer with a length is the list of its bytes. A
-- w-bit integer is a number, and its wrap-around is written out. -1 and nullptr are `none`. The array
-- of slots is a function from indices. The order of an unordered_map's entries is never read.
--
-- flush_buffer's loop runs on fuel 4096, the number of slots: each round frees an occupied slot, so
-- the fuel is never what stops it, on any buffer. The loop of check_gap_timeout has at most 4096
-- rounds by its own bound.
--
-- The value of the clock is a parameter of DecisionEngine, and the floating-point products p * n are
-- parameters of percentile and summarize. The atomics of the statistics are plain numbers, as only
-- single-threaded use is modelled.
--
-- The reader of capture files runs on fuel, the length of the file: a round takes at least 16 bytes.
-- What its uninitialised frame buffer holds is a parameter. The generator's loop runs on fuel; with
-- messages in every packet, as many rounds as messages are enough.
--
-- Whether a system call succeeds, what recvmsg returns, the control messages and the clock readings are
-- parameters of MulticastReceiver and of tools/timestamp_validate.cpp; the calls of open, with what they
-- are given, are a list. The loop of run takes the list of its rounds, that of timestamp_validate a
-- function from the round's number. The conversions stoull, atoi and inet_pton are parameters: stoull
-- gives `none` where it throws, and atoi and the addresses are given as their bits. The callbacks that main.cpp and the benchmark set do not write to the buffer, so what they
-- compute is a function of the buffer's record of calls. The benchmark's random draws are parameters.
--
-- The handler of main.cpp reads the first byte of a message whatever its length. What lies behind an
-- empty message is a parameter: a function from the number of messages handed over before it.
--
-- Not modelled: file handles, the waiting and the on_packet callback of include/feed/pcap_replay.hpp,
-- means of samples and shares of wins, which are doubles, signals, and everything that prints.
pub mod Common
pub mod Wire
pub mod Gap
pub mod Book
pub mod Arbitrator
pub mod Stats
pub mod Decision
pub mod Pcap
pub mod Receiver
pub mod GenPcap
pub mod Args
pub mod Main
pub mod Bench
pub mod Validate
pub mod Runs

-- ===== src/Lib.antt =====
-- The HTTP/3 library bnl, modelled from its sources.
--
-- Parts. A byte sequence is a queue of buffers (bnl/base/src/base/buffers.cpp) that the codecs
-- read through a lookahead. Numbers travel as variable-length integers
-- (bnl/http3/src/codec/varint), frames consist of such numbers (bnl/http3/src/codec/frame), and
-- the header blocks of QPACK use another code for numbers, which starts in the low bits of a byte
-- (bnl/http3/src/codec/qpack/prefix_int). A header block (bnl/http3/src/codec/qpack) refers to a
-- static table or holds string literals (literal beside it), whose characters may have a Huffman
-- code (huffman beside it). The body codec and the headers codec (bnl/http3/src/codec/body.cpp,
-- headers.cpp) are state machines that put their data into frames. A request stream
-- (bnl/http3/src/endpoint/stream/request.cpp) has a sender and a receiver with one of each; a
-- control stream (control.cpp beside it) carries the settings. A connection
-- (bnl/http3/src/client/connection.cpp, bnl/http3/src/server/connection.cpp) owns the control
-- streams and a map of requests, hands out what its streams have to send, distributes what
-- arrives, and gives events through a generator
-- (bnl/http3/include/bnl/http3/endpoint/generator.hpp).
--
-- Files. Error: the error codes and `result<T>` (bnl/base/include/bnl/http3/result.hpp), with
-- `BNL_TRY` as bind. Reader: a function that reads from a sequence by reference returns the result
-- and what is left of the sequence. Object: a member function returns the result and the object as
-- it is afterwards. Event: `quic::event`, `http3::event` and `header`. Varint, Settings, Frame
-- (Frame.Write for encode.cpp, Frame.Read for decode.cpp), Buffers, PrefixInt, Huffman, Literal,
-- Qpack, Body, Headers, Control, Request, Client, Server and Generator: one definition per
-- function of the source, under its name. The loops and the cases of a long function are
-- definitions of their own. Streams: `std::map` as the list of its entries in the order of their
-- keys. Storage: the storage behind one buffer (bnl/base/src/base/buffer.cpp); all other files see
-- a buffer as the list of its bytes. Huffman.Encoding and Huffman.Decoding are the tables of
-- encode_generated.cpp and decode_generated.cpp, entry by entry, and Qpack.Table the switches of
-- the static table. Huffman.Tree is the tree of the codes, a reference for both tables. Every
-- other file holds lemmas about the file above it, and the Examples files hold runs and instances.
--
-- Interfaces. The headers codec, the requests and the connections take the QPACK codec as the
-- record `Headers.Qpack` of its operations; Qpack.Codec fills it. The hash function XXH64 of the
-- encoder's table is a parameter: a theorem about a header asks that the hashes of the table are
-- met only by its texts. A virtual `process(frame)` is an argument of the function that calls it;
-- `client_process` and `server_process` are its implementations. The generator takes the
-- connection and its `process`.
--
-- Numbers are natural numbers. An operation on `uint8_t`, `uint32_t` or `uint64_t` that can leave
-- its range has the wrap-around written out. A sequence is the list of its bytes, of `Buffer` and
-- of `Buffers` and of their lookaheads alike: Buffers.View and Buffers.Window relate the queue of
-- buffers to that list. The body encoder and the headers encoder keep the queue itself, since they
-- send it buffer by buffer. A function that writes to a pointer returns the bytes that it writes.
--
-- Fuel. The loops of `frame::peek`, `frame::decode` and the settings run on fuel, one more than
-- the length of the sequence: each round takes at least one byte. The loop of `symbol_encode` runs
-- on as much fuel as the code has bits. `stuck` is no value of the program: it stands for a run
-- that is out of fuel, for the read of a union member that is undefined, and for an exception
-- inside a function that is noexcept.
--
-- Not modelled: writes into a buffer through its pointer, the pointers between a sender and its
-- handle, logging, sockets and event loops, and the wrappers around ngtcp2 and OpenSSL, which only
-- call those libraries. Assertions hold by the callers; where a definition is total, it returns a
-- default there, as its comment says, and the theorems ask for what the source asserts.
pub mod Prelude
pub mod Client
pub mod Control
pub mod Error
pub mod Event
pub mod Reader
pub mod Varint
pub mod Server
pub mod Settings
pub mod Streams
pub mod Generator
pub mod Headers
pub mod Huffman
pub mod Literal
pub mod Storage
pub mod Qpack
pub mod Object
pub mod Request
pub mod Frame
pub mod Body
pub mod Buffers
pub mod PrefixInt

-- ===== src/Lib.antt =====
-- A verification library for libnetq, a cross-platform C library of codecs, containers and network
-- helpers.
--
-- Parts of the program and the modules that model them:
--
-- * libnetq/ByteOrder.h, libnetq/Endian.h -- `Endian`: the swaps `NQByteSwap16/32/64` are
--   `byte_swap16/32/64`, with the masks and shifts of the macros; `NQHostToBE16` and its kin are
--   `host_to_be16` and so on, of the host's byte order. `store` and `load` are a word in a host's
--   memory. `Endian.Travel` carries a word between hosts.
-- * libnetq/BufferBuilder.c, .h -- `BufferBuilder.Get` (`NQGetUint16BE` is `get_uint16_be`),
--   `BufferBuilder.Put` (`NQPutUint16BE` is `put_uint16_be`) and `BufferBuilder.Builder`
--   (`NQBufferBuilder_writeUint16BE` is `write_uint16_be`). A read or write past the buffer, which C
--   leaves undefined, is `none`; the builder keeps the memory it was given and its data pointer as a
--   position.
-- * libnetq/web/WebSocketFrame.c, .h -- `WebSocket` (`NQWebSocketHeaderParse` is `header_parse`,
--   `NQWebSocketFrameParse` is `frame_parse`, the unmasking is `unmask`) and `WebSocket.Buffer`
--   (`NQWebSocketBuffer_write` is `write`, `NQWebSocketBuffer_complete` is `complete`, the bytes that
--   `NQWebSocketBuffer_data` and `NQWebSocketBuffer_size` delimit are `wire`). It reads and writes
--   its lengths through `BufferBuilder`. `malloc` is a parameter of the buffer's operations.
-- * libnetq/TimerQueue.c -- `Timer` (`NQTimerQueue_shiftTimer` is `shift_timer`, `NQTimerList_insert`
--   is `insert_by`), its invariant in `Timer.Valid` and `Timer.Run`, what a shift hands out in
--   `Timer.Shift`, identifiers in `Timer.Ids`. An entry is its place in the block; `NQListHead` lists
--   are sequences of places.
-- * libnetq/DispatchQueue.c -- `Dispatch` (`NQDispatchQueue_push` is `push`), with the round of work of
--   libnetq/Looper.c.
-- * libnetq/Looper.c -- `Looper` has the loops over a timer queue: `NQLooper_performTimer` is
--   `perform_timer`, the loop of `NQLooper_finalize` is `finalize_timers`. A call of a callback is an
--   event, and what callbacks and other threads do between two rounds is a parameter.
-- * libnetq/UTF.c -- `Utf` reads and writes one character (`NQUCharNext8` is `uchar_next8`,
--   `NQUCharPush16` is `uchar_push16`), `Utf.Convert` has the four functions on texts
--   (`NQConvertUTF8ToUTF16` is `convert_utf8_to_utf16`, `NQCalculateUTF8Info` is
--   `calculate_utf8_info`). Their loops take as much fuel as the text has units.
-- * libnetq/Leb128.c -- `Leb128.Encode` and `Leb128.Decode` (`NQLeb128EncodeUint32` is
--   `encode_uint32`, `NQLeb128DecodeInt16` is `decode_int16`). The macros of a length are recursions
--   on it, and the ladders of tests are recursions on the rungs that are left.
--   `Leb128.Unsigned` and `Leb128.UnsignedRoundTrip` are about the unsigned widths,
--   `Leb128.Negative`, `Leb128.Ladder`, `Leb128.Signed`, `Leb128.SignedRead`,
--   `Leb128.SignedWidths` and `Leb128.SignedRoundTrip` about the signed ones, `Leb128.Length` about
--   the number of bytes, `Leb128.PastEnd` about reads behind the data. `Leb128.Incremental` is
--   `NQLeb128Dec`.
-- * libnetq/Base64.c -- `Base64` (`NQBase64EncodeEx` is `encode_ex`, `NQBase64DecodeEx` is
--   `decode_ex`), with the tables in `Base64.Alphabet`.
-- * libnetq/Base16.c -- `Base16` (`NQBase16Encode` is `encode`, `NQBase16Decode` is `decode`).
-- * libnetq/json/JSONWriter.c -- `Json`, the steps that write one key, value or bracket, and
--   `Json.Writer`, what a program calls (`NQJSONWriter_writeKey` is `Writer.write_key`, the static
--   `writeKey` is `write_key`), `Json.Value` with `NQJSONWriter_writeJSON` as `write_json`. The
--   callback, its data and the printing of numbers are parameters. The text of a tree is `print` in
--   `Json.Print`, a reader of strings in ASCII `parse_string` in `Json.Escape`, sequences of calls are in
--   `Json.Calls`.
-- * libnetq/ByteBuffer.c -- `ByteBuffer` (`NQByteBuffer_insert` is `insert`): a block with its size
--   and capacity, `malloc` being a parameter; the list that a buffer stands for is in
--   `ByteBuffer.Holds`, sequences of operations are in `ByteBuffer.Run`.
-- * libnetq/DescSet.c -- `DescSet` (`NQDescSet_allocEntry` is `alloc_entry`, `makeIdentifier` is
--   `make_identifier`), with the random numbers as a list. `DescSet.Valid.History` is how a set comes
--   to be, `DescSet.Handles` what identifiers are good for.
-- * libnetq/wasm/Module.c, libnetq/io/DataReader.h, libnetq/io/WriteWrapper.c -- `Wasm`: modules of
--   WebAssembly, `Wasm.Import` their imports and sections, `Wasm.Module` the loop that reads them
--   (`NQWasmModule_fromMemory` is `from_memory`), `Wasm.Write` the writes (`NQWriteWrapper_writeAll`
--   is `write_all`), `Wasm.Text` the text that a module has. A data reader is the bytes that it has
--   left; the write callback is a parameter. The numbers are read by `Leb128.Incremental`
--   (`NQLeb128Dec_update` is `update`).
--
-- `Prelude` holds the tests, lists, integers and bit laws that the parts share.
--
-- Bounds: a pointer with a size or an end is the list of what may be read there; `size_t` has 64
-- bits, and sums that C wraps are written with their modulus. Loops are recursions on the bytes that
-- are left, or take fuel where the end depends on the state: the theorems about them say how much is
-- enough (`perform_timer` as many rounds as the timers are overdue in milliseconds, and one; the loops
-- over a list one more than its length; the sections of a module and the bytes of a write as many as
-- there are bytes).
--
-- Not modelled: the parts that are made of calls of the operating system or of other libraries
-- (sockets, threads, file system, crypto, SQL, XML, web server backends), formatted printing, and,
-- for their size, the parsers for DBC files, HTTP headers and URLs.
pub mod Base16
pub mod Base64
pub mod BufferBuilder
pub mod ByteBuffer
pub mod DescSet
pub mod Dispatch
pub mod Endian
pub mod Json
pub mod Leb128
pub mod Looper
pub mod Prelude
pub mod Timer
pub mod Utf
pub mod Wasm
pub mod WebSocket

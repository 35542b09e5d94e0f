-- ===== src/Lib.antt =====
-- The image proxy for WebHDFS, as executable definitions with proofs. The program takes an HTTP request
-- for a page of a document, fetches the document from a WebHDFS server, has a plugin render the page
-- in a pool of threads, and sends the picture; fetched documents are kept in a cache.
--
-- The parts, and the files of the repository that they model:
-- - Cache: `ImageCache` of webhdfs_image_proxy/image_cache.cpp. The cache keeps handles of streams by
--   their paths; each call is a function of the cache and of what the lock does.
-- - Dynamic: `DynamicMemoryStream` of cpcl/dynamic_memory_stream.cpp, the streams in the cache, as a
--   list of blocks with a size and a position.
-- - Strings: `StringCopy` and the comparisons without case of cpcl/string_util.hpp, on which the header
--   table and the query stand.
-- - Http: the callbacks and the header table of webhdfs_image_proxy/http_parse.cpp and http_parse.hpp.
--   The body of a message goes to a growing stream.
-- - TaskPool: webhdfs_image_proxy/task_pool.cpp, as steps of the pool's callers and of its threads. What
--   is done under the mutex is one step, a schedule is a list of steps in any order.
-- - Split: the iterator of cpcl/split_iterator.hpp and `SplitPair` of webhdfs_image_proxy/connection.cpp.
-- - Query: `Connection::GetQuery` of webhdfs_image_proxy/connection.cpp, with `TryConvert` of
--   cpcl/string_cast.hpp.
-- - Memory: `MemoryStream` of cpcl/memory_stream.cpp, a stream over a fixed piece of memory.
-- - Copy: `IOStream::CopyTo` of cpcl/io_stream.cpp, from any stream to any stream.
-- - Cp1251: the code page 1251 and UTF-16 of cpcl/string_util.h, with the tables of string_util.cpp.
-- - Utf: the UTF-8 of cpcl/string_util.h and string_util.cpp, characters, strings and buffers.
-- - Paths: the parts of a path of cpcl/file_util.hpp.
-- - Format: `formatidiv` of cpcl/formatidiv.hpp, numbers printed to a fixed width.
-- - Response: `BuildRequest` and `BuildResponse` of webhdfs_image_proxy/connection.cpp, with
--   `StringFormatImpl` of cpcl/string_util_posix.hpp. A text in the connection's buffer is a list of bytes.
-- - Chunk: `BuildChunk` and `handle_write_response`, which read a stream through the buffer.
-- - Connection: all handlers of webhdfs_image_proxy/connection.cpp, as functions of the connection with
--   what it shares (streams, cache, pool) and of how the operation ended. `pending` is the list of the
--   asynchronous operations under way, a page in the pool among them; any of them may end next, and between
--   two steps the shared fields may become anything. Connection/Answer has `SendResponse`, Connection/Send
--   `SendPage`, Connection/Forward `SendRequest` and what reaches the server, Connection/Handlers the reads
--   and the choice of the handler. The sockets and the resolver are boost's.
-- - Jpeg: `JpegRenderingDevice` of webhdfs_image_proxy/jpeg_rendering_device.cpp, which a page draws on, and the
--   destination of the compressor in jpeg_compressor_stuff.cpp.
-- - Piece: `trim` and the other operations of cpcl/string_piece.hpp that cut a text.
-- - Mask: `MaskMatch` of cpcl/file_iterator_posix.cpp, the names that a mask with stars matches.
-- - Listing: `FileIterator` of cpcl/file_iterator_posix.cpp and file_iterator.h. Whether the directory opens,
--   and its entries, are the system's.
-- - Csv: the fields of a row of cpcl/csv_reader.hpp, and in Csv/Lines `CsvReader` with its buffer, over any stream. The
--   buffer is given by its size, the place of `head` in it and the text between `head` and `tail`.
-- - Base: the names, tests, list lemmas and integers that the parts share.
--
-- Bytes are numbers below 256 and texts are lists of them. Where a machine integer can wrap, the
-- remainder is written out, with 32 bits for `uint32` and 64 for `size_t`. Uninitialised memory is a
-- parameter `raw`. The second loop of `MemoryStorage::Write` runs on fuel, the length of the data,
-- which is enough as each round takes a byte or more; the loop over the split iterator runs on one
-- round more than the text has characters, which is enough as each round moves behind a character.
-- The writes of a chunked answer run on fuel, two more than there are bytes, as each chunk but the last
-- has a byte. Numbers are printed with fuel for 20 decimal and 16 hexadecimal digits, which 64 bits need.
--
-- The search of `CsvReader` runs on one round more than there are reads, and those over a text in it on the text's
-- length, as each round moves behind a character. `N` is a power of two, as the mask of the new size wants it.
-- The rounds of `MaskMatch` run on the lengths of the mask and the text, and behind a star on that of the text, as
-- each round but the last moves in one of them.
--
-- Not modelled: the sockets and the signals of the server; the other files, the COM streams and the XML
-- helpers of cpcl, which are calls of other libraries, as are tracing and timers; the vendored http_parser,
-- whose callbacks and results are parameters, as are the plugins that load and render documents, and libjpeg.
pub mod Base
pub mod Cache
pub mod Dynamic
pub mod Strings
pub mod Http
pub mod TaskPool
pub mod Split
pub mod Query
pub mod Memory
pub mod Cp1251
pub mod Paths
pub mod Response
pub mod Chunk
pub mod Connection
pub mod Utf
pub mod Copy
pub mod Format
pub mod Jpeg
pub mod Mask
pub mod Piece
pub mod Listing
pub mod Csv

-- ===== src/Lib.antt =====
-- UCE, a FastCGI, HTTP and WebSocket application server with its own library of texts, paths, encodings
-- and data formats. A page is a function of a request; the server (src/fastcgi/src/fcgicc.cc) reads
-- requests from FastCGI records or HTTP, hands them to the page, and renders its output; a connection
-- may be upgraded to WebSocket, and then carries frames. The library (src/lib) decodes what comes in,
-- and escapes and encodes what goes out.
--
-- Base, Base.Tests, Base.Lists, Base.Find, Base.Chars, Base.Maps, Base.Bits, Base.Slices, Base.Names: what the other
-- modules share. A `String` is a list of numbers, its bytes; a `StringMap`, which is a `std::map`, is the
-- list of its entries in ascending order of the keys; `find` gives `none` for `npos`.
-- Text: nibble, trim, split, join, replace and the prefix tests of src/lib/functionlib.cpp and src/lib/types.cpp;
-- Text.Escape: html_escape, shell_escape, json_escape and json_decode_String; Text.Xml: xml_escape_text
-- and xml_escape_attr.
-- Uri: src/lib/uri.cpp, in Percent (uri_encode, uri_decode), Query (parse_query, encode_query) and Route
-- (route_path_normalize to request_route_from_raw_path), Multipart (parse_multipart)
-- and Cookies (parse_cookies).
-- Base64: base64_encode and base64_decode of src/lib/uri.cpp.
-- WebSocket.Frame: ws_encode_frame, ws_close_frame and WSFrame::parse of src/lib/uri.cpp;
-- WebSocket.Utf8: ws_is_valid_utf8; WebSocket.Connection: process_websocket_input of
-- src/fastcgi/src/fcgicc.cc, one function for each case of its switch, and the output queue;
-- WebSocket.Fleet: the functions over all connections, such as websocket_broadcast.
-- Http: the tests and the cleaning of header lines in src/lib/uri.cpp, and the head of a response as
-- assemble_output_buffer of src/fastcgi/src/fcgicc.cc renders it; Http.Message: parse_http_message there,
-- and split_http_headers of src/lib/functionlib.cpp; Http.Upgrade: process_http_request,
-- process_cli_request and the upgrade of a connection, which goes on in WebSocket.Connection.
-- Fastcgi: parse_pairs_fcgi, write_pair_fcgi and write_data_fcgi of src/fastcgi/src/fcgicc.cc;
-- Fastcgi.Request: the requests of a connection; Fastcgi.Reader: read_fgci, one function for each case of
-- its switch; Fastcgi.Response: assemble_output_buffer, request_write_fgci and write_fgci, and set_status
-- of src/lib/types.cpp; Fastcgi.Process: the steps of a connection in process.
-- Compiler: src/lib/compiler-parser.cpp, which makes C++ source of a unit: Compiler.Literal writes string
-- literals, Compiler.Code follows quotes and comments, Compiler.Markup makes code of nested markup,
-- Compiler.Fragment and Compiler.Entry rewrite entry points, Compiler.Preprocess is the pass over the
-- characters, and Compiler.Source is compiler_preprocess_source, the three passes one after another.
-- Tree: DTree of src/lib/dtree.cpp, whose map is a list of entries in ascending order of the keys;
-- Tree.Children: lists, push and pop; Tree.Json: json_encode and json_decode of src/lib/functionlib.cpp.
-- Zip: zip_create of src/lib/zip.cpp, with the names of its entries; Paths: basename, dirname, path_join,
-- path_is_within and expand_path of src/lib/sys.cpp; Memcache: the memcached client there.
-- Noise: gen_noise32, gen_noise64 and gen_int of src/lib/hash.cpp.
-- Gzip: gz_compress and gz_uncompress of src/lib/zip.cpp.
-- Session: the test of a session's identifier, its file, loading and saving, of src/lib/uri.cpp; the
-- files are a map from paths to contents.
-- Tests: runs at concrete inputs, and the theorems at inputs that meet their hypotheses.
--
-- A function that changes an object through a reference returns the new object. A function that throws
-- returns the text of the exception in place of a value.
-- Texts are shorter than 2^31 bytes, so that counters of type `int` and `u32` do not wrap; the lengths in
-- a frame are computed in 64 bits, wrapping as in the source. Where the source joins bits that do not
-- overlap with `|`, the model adds them. Character classes are those of the "C" locale.
-- Loops are recursion on the text where each round takes a part of it. The others run on fuel: split has
-- one round more than the text has bytes, the readers of pairs, of FastCGI and WebSocket input and the
-- loops of the preprocessor as many as there are bytes or lines, and write_data_fcgi one more than the
-- input has bytes; every round but the last takes a byte or a line at least, so a loop ends before its
-- fuel does. The JSON decoder has two rounds for each byte, and `none` is a run that goes on beyond
-- them. Nested markup is shorter than the markup around it, and its fuel is the depth.
-- The text of a floating-point number, the name of a temporary file, the application's callbacks for
-- requests and WebSocket messages, the unit that a #load line names and the setup template of the
-- preprocessor, the hash of a session's text, whether a file can be written, the miniz library's
-- answers when an archive is written, compression, decompression and the checksum of the miniz
-- library, are parameters; so are strtol and the hash where an HTTP request is served, realpath, stoi,
-- and the connection to memcached.
--
-- Not modelled: sockets, files, time and processes; the compiler of pages, but for its preprocessor,
-- and its cache; references and pointers in trees and their conversion to numbers; XML, YAML and
-- markdown, but for the escaping of XML; setting cookies and the start of a session; SHA-1; the
-- wrappers of PCRE2 and of the databases, and reading zip archives, and all third-party code.
pub mod Base
pub mod Text
pub mod Uri
pub mod Base64
pub mod WebSocket
pub mod Zip
pub mod Memcache
pub mod Paths
pub mod Fastcgi
pub mod Compiler
pub mod Noise
pub mod Tree
pub mod Http
pub mod Gzip
pub mod Session
mod Tests

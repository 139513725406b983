-- ===== src/Lib.antt =====
-- The web server of the blog: HTTP requests are parsed as they arrive, dispatched by URI to a
-- handler, and answered; the blog handler stores posts in a database.
--
-- Parts, and how they interact. A session (src/session.cc) reads bytes, gives them to its request
-- parser (src/request_parser.cc, include/request_parser.h), and builds a request from the parser's
-- builder (include/request_builder.h). The request dispatcher (src/request_dispatcher.cc), made
-- once from the configuration that src/NginxConfigParser.cc reads, gives it the handler of the URI;
-- the handler's response is written by way of ResponseHelperLibrary
-- (src/response_helper_library.cc). The blog handler (src/blog_upload_request_handler.cc) decodes
-- the form of the upload page and stores the post by the interface of include/database.h. The
-- response parser (src/response_parser.cc) serves the proxy handler.
--
-- Files.
-- - Base: texts as lists of bytes, the 32-bit int, maps of strings, stoi and to_string, the lemmas
--   that the parts share.
-- - Http: include/header.h, request.h, response.h, the builders (Messages), the character classes
--   of the parsers (Chars), ResponseHelperLibrary (Library, StatusStrings, StockResponses).
-- - RequestParser: request_parser. Steps has the branches of consume, the parent consume and parse;
--   RoundTrip, Chunks, Count and Fields have what is shown of it.
-- - ResponseParser: response_parser, laid out in the same way; ChunkSteps, Chunked and Body are
--   about bodies, Status about codes.
-- - Blog: Blog and database; MockDatabase is src/mock_database.cc, with what a database promises in
--   MockDatabase/Refine, Postgres src/blog_database.cc, Bigtable bigtable/src/blog_bigtable.cc,
--   Decode and Form are urldecode and parseRequestBody, Stores is what Handler relies on of any of
--   the three, Handler is handle_request and what it calls.
-- - Paths: the loop over "%20" and the cut at the last slash that the static handler and the
--   dispatcher share.
-- - Config: NginxConfig. ConfigParser: src/NginxConfigParser.cc; Tokens is ParseToken, Ports the
--   port numbers, Statements the statements and blocks, Locations and Handlers the head of the loop
--   of Parse, Loop its tests of the token type and Parse itself; Fuel, Members, Owed, Marks, Named
--   and Result have what is shown of it.
-- - Handlers: the other handlers; Fixed has echo, error_404, health, redirect and upload_form.
--   Handlers/Proxy is src/proxy_request_handler.cc: RequestText, Links, Html, Reads and Forward have
--   its functions, Forwardable, Sent, Relayed, Corrected, Followed, Cuts, Redirects, Framing and
--   Pages what is shown of them. Static is src/static_request_handler.cc, with Static/SubPath and
--   Static/Served about a path behind the location.
-- - Dispatcher: request_dispatcher. Session: session; Reads, ReadCases, Reach, Serve, Delivery and
--   PostThenGet have what is shown of it. Server: src/server.cc, with the sessions that it accepts.
--   Main: main of src/server_main.cc up to the threads.
--
-- How the code is read. A char is its byte, 0 to 255; it is signed on the target, as Http/Chars
-- says. An int is a number of 32 bits; an overflow, undefined in C++, wraps around. An exception
-- that leaves a function, and a call on a null pointer, is none. A std::map is the list of its
-- entries by key, an unordered_map the list in the order of its iteration. Each handler of the
-- session is one step that other sessions may stand between; what two threads do to one handler at
-- the same time is not modelled. Members that no constructor sets are parameters.
--
-- Fuel. The loops of longest_prefix_match and of the static handler cut a path at its last slash;
-- they run on the length of the path and one round more, and the theorems about them hold with that
-- fuel. digits_onto prints a number on its successor, which is more than its digits. The loop of
-- the configuration parser runs on the length of the file and one round more. The proxy handler
-- follows redirects without a bound: its fuel is the field redirects of World, and a chain of
-- redirects that ends is followed to its end by any fuel above its length.
--
-- Parameters. The file system, the network, libxml2 and gzip, libpqxx and the client of Cloud
-- Bigtable are arguments: Handlers.World, Handlers.Proxy.Forward.Network,
-- Handlers.Proxy.Html.Libraries, Handlers.Proxy.Links.Properties, Blog.Postgres.Pqxx and
-- Blog.Bigtable.Table. What a theorem relies on of them is a record of laws beside it:
-- Handlers.Proxy.Corrected.IsProperties and Blog.Bigtable.Rows.IsTable; Blog.Stores.Stores is what
-- the blog handler relies on of its database.
--
-- Not modelled: the thread pool, the set-up of logging and the signal handlers of
-- src/server_main.cc, which call Boost and the system; a read or an accept that never ends; what
-- two threads do to one handler at the same time; the example program of the bigtable directory.
pub mod Base
pub mod Http
pub mod RequestParser
pub mod ResponseParser
pub mod Blog
pub mod Paths
pub mod Config
pub mod Handlers
pub mod Dispatcher
pub mod Session
pub mod Server
pub mod Main
pub mod ConfigParser
pub mod Tests

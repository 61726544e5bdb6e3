-- ===== src/Lib.antt =====
-- bjoern, a WSGI server in C for libev and CPython: a model of its request handling, with proofs.
--
-- The program. An event loop accepts connections and calls a handler when one may be read or written
-- (bjoern/server.c). What is read goes through an HTTP parser, whose callbacks (bjoern/request.c)
-- fill the WSGI environment of the connection's request; paths are percent-decoded in place
-- (bjoern/common.c). A complete request calls the application (bjoern/wsgi.c), which calls back
-- `start_response` and returns an iterable; the write handler sends the head and the chunks of that
-- iterable, with or without chunked framing, and keeps the connection or closes it.
--
-- The files.
--   Common, and Common/*: shared names, tests, lists and texts. No code.
--   Url: `unquote_url_inplace` and `UNHEX` of bjoern/common.c, on a buffer with indices for pointers.
--     Url/Decode is the specification, Url/InPlace and Url/Laws the proofs.
--   Chunk: `wrap_http_chunk_cruft_around` of bjoern/wsgi.c. Chunk/Hex is printf's `%x`, Chunk/Decode
--     a client that reads chunked bodies, Chunk/Body the proofs.
--   Python: what the C code sees of Python. An application is the tree of its calls of
--     `start_response`, which depends on its environment, an iterator the sequence of its steps; either
--     may do anything finite.
--   Request: the structs of bjoern/request.h and `Request_new`, `Request_reset`, `Request_clean` of
--     bjoern/request.c; Request/Parse its callbacks and `Request_parse`; Request/Header,
--     Request/Body, Request/Environ and Request/Frame are proofs, with `wsgi_base_dict` of
--     `_initialize_request_module` in Request/Environ. Request/Events holds sequences of callbacks,
--     Request/Message a whole request as such a sequence and Request/Parts its headers and its body,
--     Request/Lookup, Request/Keys and Request/Received what is in its dictionary, Request/Whole the
--     theorem on it, Request/Prefix and Request/Quiet the beginnings of it, Request/Asserts the
--     assertion of `on_message_begin` in it.
--   Response: `start_response`, `clean_headers`, `wsgi_getheaders`, `wsgi_iterable_get_next_chunk` and
--     `wsgi_call_application` of bjoern/wsgi.c; Response/Start, Response/Starting, Response/Framing,
--     Response/Head, Response/Carrying and Response/Body the proofs.
--   Server: bjoern/server.c. Server/Accept is `ev_io_on_request`, Server/Read is `ev_io_on_read`,
--     Server/Write is `ev_io_on_write` and what it calls. Server/Stream says what is left to send of
--     a response that is sent in chunks. Server/Between, Server/Progress, Server/Delivery and
--     Server/Ending are proofs on such a response, Server/File and Server/FileDelivery on one sent as
--     a file, Server/Client on what the client reads, Server/Fresh and Server/Answer on the request
--     before it, Server/Continue on `100 Continue`, Server/Faults and Server/Failing on errors,
--     Server/Parting and Server/LastResponse on connections that are not kept alive.
--     Server/Valid and Server/Left hold the invariant of a connection, Server/Steps the calls of the
--     event loop that keep it, Server/Closing counts `close`, and Server/Log and Server/Life are the
--     life of a connection with the replies that were made on it.
--     Server/Arrival is a request that comes in by several reads, Server/Reply the body of a response
--     as the client reads it, Server/Answering the response to a complete
--     request, Server/Exchange a request and its response from end to end, Server/Session one such
--     exchange after the other.
--     Server/Sendfile is bjoern/portable_sendfile.c with a proof.
--     Server/Loop is `server_run` with all its connections, as libev calls the handlers one after
--     the other, and `ev_signal_on_sigint`. Server/Loop/Calls is a call on one of the connections,
--     Server/Loop/Steps what it leaves of all, Server/Loop/Shutdown, Server/Loop/Ending and Server/Loop/Completion how the loop ends.
--   FileWrapper: bjoern/filewrapper.c, with the file as what its `read` answers to each call; in
--     FileWrapper/Contents the proofs. An iteration takes fuel for its calls, one more than the file
--     has bytes left.
--   Extension: `run` of bjoern/_bjoernmodule.c with its arguments and the socket's address, the table
--     of features, the dictionary that `_initialize_request_module` keeps, and `server_run` of
--     bjoern.py; in Extension/Runs the proofs.
--   A file Tests of a part has tests, and an input for each theorem of that part below.
--
-- The model. A pointer that may be NULL is an `Option` or has a constructor for it, `current_chunk`
-- also one for a pointer to an object that was released. Bytes are numbers; a signed C char and its
-- byte are not told apart. The result of a system call is an argument of the handler that makes it:
-- for `write`, a number of bytes, `EAGAIN` or another error. A call of the parser is the list of the
-- callbacks that it makes, each with the parser's fields, and the number of bytes that it reports.
-- In the write handler a failed assertion and the use of released memory are the result `none`. In
-- the read handler what the code does and whether its assertions hold are two definitions: for
-- `on_message_begin` and the callbacks `callback` and `callback_asserts`, for `Request_parse`
-- `request_parse` and `parse_asserts`, for the handler `ev_io_on_read` and `read_asserts`, which
-- `checked_read` puts together with `none` for a failed assertion. Server/Loop and Server/Session run
-- `checked_read`; theorems on one connection that speak of `ev_io_on_read` hold also of a build
-- without assertions. Not modelled is the assertion that Python has an error to print.
-- `error_code` keeps two bits of an error code. The size line of a chunk keeps 32 bits of its
-- length. The loop of `unquote_url_inplace` takes one more than the length of its buffer as fuel, and
-- moves on in each round; the reader of chunked bodies takes more than the number of chunks.
--
-- Not modelled: reference counts and failed allocations; the messages to statsd, which count events
-- and change nothing else; the set-up of sockets in bjoern.py; the HTTP parser and libev, which are
-- libraries: of libev it is used that it calls a handler only while its watcher is active, one call
-- after the other; an iterator or an application that never ends.
pub mod Common
pub mod Url
pub mod Chunk
pub mod Python
pub mod Request
pub mod Response
pub mod Extension
pub mod FileWrapper
pub mod Server

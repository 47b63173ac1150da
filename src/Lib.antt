-- ===== src/Lib.antt =====
-- Verification library of the magilla WebSocket package.
--
-- The package sends and receives WebSocket messages over a net.Conn. On the way out, WriteMessage
-- and NextWriter (conn.go) take the outer mutex, check a text with the UTF-8 validator
-- (utf8_dfa.go), and fill a buffer with a messageWriter, whose flushFrame puts a header in front of
-- the payload, masks it (mask.go) and hands it to Conn.write. WriteControl sends its frames beside
-- these. On the way in, NextReader and its readers call advanceFrame, which parses a header,
-- answers control frames, and leaves the payload to the reader. Connections come from the opening
-- handshake: Upgrader.Upgrade (server.go) checks a request, Dialer.DialContext (client.go) makes
-- one and checks the response, both with the tokenizers of util.go and the parameters of
-- compression.go. A PreparedMessage (prepared.go) keeps the frames of a message for several
-- connections.
--
-- The files:
--   Base: the numbers, lists and tests that all files share; Base/Bits: laws of the bit operations.
--   Utf8: utf8_dfa.go, with UTF-8 itself in Utf8/Spec.
--   Mask: mask.go, `maskBytes` with its word loop; Mask/Laws has masking octet by octet.
--   Opcode, CloseCode, Errors: the constants and error values of conn.go. An `error` that may be
--     nil is an `Option Error`.
--   Frame, Frame/Message: the frames and fragmented messages of RFC 6455, sections 5.2 and 5.4,
--     apart from the code.
--   Conn: the fields of Conn as a record; Conn/Net: the network under it.
--   Conn/Write: newMaskKey, Conn.write and WriteControl.
--   Conn/Message: the messageWriter: flushFrame, payloadRoom, ncopy, Write and Close.
--   Conn/Send: acquireWriteMu, beginMessage, NextWriter, utf8ValidatingWriter and WriteMessage.
--   Conn/Buffer, Header, Flush, Sending, Fragments, Final, Deliver, InFrames, WholeMessage: from a
--     header in the buffer up to a whole message, in this order.
--   Conn/Control: WriteControl. Conn/Broken: a connection with a latched write error.
--   Conn/Read: FormatCloseMessage, Conn.read, advanceFrame in its seven steps, and the handlers.
--   Conn/Receive: NextReader, messageReader.Read, utf8ValidatingReader and ReadMessage.
--   Conn/Incoming, Parse: advanceFrame on the wire format. Conn/Closing: close frames.
--   Conn/Strings: WriteString and ReadFrom of the messageWriter; Conn/Pieces, Streaming: on them.
--   Conn/Open: newConn and setters. Conn/Session: message after message from there on.
--   Conn/Sticky: NextReader after an error.
--   Conn/Contexts: the writes that take a context; Conn/SameDeadline, Overdue: on the write deadline.
--   Conn/ReadContexts: the reads that take a context; Conn/InTime: on them.
--   Conn/Json: WriteJSON of json.go, over an encoder that is a parameter.
--   Conn/Progress, Terminates, Drains: what the readers take off the input, so that they end.
--   Conn/Graceful: CloseGracefully; Conn/Silent, LastFrame: on it. Conn/CloseErrors:
--     CloseError.Error and IsCloseError.
--   Conn/Prepared: prepared.go and WritePreparedMessage; Conn/Prepared/Cached: its cache.
--   Http: what is used of net/http and encoding/base64. Token: util.go, with Laws, Quote, Listed and
--     Fold on its functions.
--   Compression: compression.go: modes, parameters, truncWriter (Account, Trunc) and the sliding window
--     (Window). Compression/Flate: the wrappers over compress/flate, which is a parameter; Deflating,
--     Takeover, Single: messages through them, with context takeover and without.
--   Handshake: what the parts of the opening handshake share. Handshake/Checks: the checks of Upgrade
--     in server.go; Handshake/Extensions: permessage-deflate on both sides; Handshake/Upgrade: the
--     response and the handler; Handshake/Dial: the request of DialContext and its checks. Negotiate,
--     Subprotocol, Response and Accepted: what the two sides make of each other.
--   Conn/Arriving, Continuing, Gathering, Arrived, Beginning, WholeArrival: from one read within a
--     frame to ReadMessage on the frames of a message, in this order; Conn/Exchange: two connections.
--   Conn/Join: join.go, with io.MultiReader as it uses it; Conn/Joined, Concatenated: its reads.
--   H2/StreamConn: h2StreamConn of h2.go; Deadlines, Endings: its steps in any order. H2/Dial, Opening:
--     dialHTTP2 and the branch of DialContext before it; H2/Upgrade: upgradeHTTP2; H2/Agreed, Settled:
--     the two handlers together, and how dialHTTP2 ends.
--   Tests, with Handshakes, Sessions, Dialogue, Streams: runs at concrete inputs.
--
-- How the state corresponds. A Conn is a value that each operation takes and returns. `write_mu` is
-- the token of the outer mutex; one goroutine runs, so the inner mutex is free at each call, and a
-- lock that is not free makes a call block or time out. `write_buf` is the buffer byte by byte, []
-- for nil. The int64 `read_length` is given as its 64 bits. What arrives is a list of bytes, of
-- bounds of single reads, and of errors: a read below gives bytes or an error, never both. A
-- handler of the application decides on an error and leaves the connection alone. The network has a
-- list of answers to the calls that are made of it; without an answer a call succeeds. A string is
-- the list of its bytes, a map a list of pairs. Random bytes come from a list, missing ones are
-- zero. The clock stands still in a call. Bytes are numbers below 256, wherever a theorem says so.
--
-- Bounds and fuel. A loop over bytes recurs on the list. The copying loop of messageWriter.Write
-- has the length of its slice as fuel, and is shown to make progress in every round; a call that
-- ran out of fuel would be `stuck`. The loops of the readers have a fuel above the length of the
-- input, which is finite; each round takes something off it or ends the loop, in NextReader two
-- bytes. io.ReadAll's fuel is an argument, and so are the sizes of its buffers. Lengths are
-- unbounded numbers; the code's casts to byte and uint16 are written out. Words of memory have any
-- size that is a multiple of four bytes, at any alignment, in either byte order. The loops over
-- header values have the length of the value as fuel, of which each round takes a token or ends the
-- loop; decimal digits have the number itself.
--
-- Not modelled: the net.Conn, net/http, crypto and compress/flate, which are not in the repository;
-- of the standard library the model has what is used of headers, base64 lengths and UTF-8 decoding,
-- while SHA-1, base64, strings.TrimSpace and net/url are parameters. Dialing, proxies and TLS,
-- which only call them; the transport of HTTP/2, whose answers are arguments; the contexts and the
-- goroutines that watch them; the error page of a refused upgrade; cookies; the installation of the
-- compressors, so that no connection here has compression at work; ReadJSON; a wait for input that
-- never comes, and what a read deadline does to later input; the documentation and the example
-- programs.
pub mod Base
pub mod Utf8
pub mod Mask
pub mod Opcode
pub mod CloseCode
pub mod Frame
pub mod Errors
pub mod Conn
pub mod Http
pub mod Token
pub mod Compression
pub mod Handshake
pub mod H2
pub mod Tests

-- ===== src/Lib.antt =====
-- The Python SDK of USMP, a secure messaging protocol over TCP and UDP (sdk/python/src/usmp).
--
-- A client and a server run a handshake, after which each holds a session: keys for both directions,
-- sequence numbers, and for UDP a window against replays. A session seals messages into frames, which
-- a transport carries.
--
-- The parts and their files:
--   Errors      errors.py, and the built-in exceptions that the SDK raises or catches
--   Types       types.py: packet types, constants, `USMPFrame` (`Frame`), `SessionInfo`;
--               Types/Texts has their texts
--   Struct      the formats of Python's `struct` that the SDK uses
--   Frame       _frame.py: checksum, `encode_frame`, `decode_frame`, `read_frame`
--   Crypto      _crypto.py: key derivation, additional data, `encrypt`, `decrypt`
--   Transport   transport/base.py: the operations of a transport that a session calls;
--               Transport/Registry is transport/__init__.py, and the begin of `serve`
--   Session     _session.py: `USMPSession`. Session/Window is the replay window, Session/Receive the
--               loop of `recv`
--   Handshake   _handshake.py: both sides; Handshake/Limiter is the table of failed attempts
--   Tcp         transport/tcp.py: `TCPTransport`, with `write_frame` of _frame.py
--   Udp         transport/udp.py: `UDPStream`; Udp/Listener is `UDPListener._handle_udp_datagram`
--   Server      _server.py: the checks of the constructor, the TCP counts, the ends of connections and
--               the watchdog. Server/Cookie is `_allow_udp_cookie`, Server/Udp the UDP half of
--               `_on_transport_connect`, Server/Connections the tasks of TCP connections
--   Client      _client.py: `USMPClient`
--   Release     scripts/validate-release-tag.py, and `parse_tag_info` of
--               scripts/extract-release-notes.py, whose other functions are in Release/Changelog;
--               Release/Manifests has `get_manifest_versions`
--   Ports       scripts/bundle-ports.py: Ports/Commands has the commands, Ports/Paths the files
--   Tests       concrete inputs
-- Prelude has the shared names and the lemmas on tests, lists, bits and dictionaries.
--
-- How the code is modelled. An exception is a value (`Result`). A method with side effects takes and
-- returns the state. A session is generic in its transport, and a transport is a record of functions
-- on its own state (`Transport`), which a section takes as a parameter. What a coroutine reads is an
-- argument: `recv` and the handshake take the frames, or the exceptions, that their reads bring, and a
-- UDP stream has the datagrams that arrive during each attempt to send. A read that still waits is
-- `none`. Code under the send lock is one step. Times are whole nanoseconds.
--
-- The server's connections run at the same time. What they and the datagrams do is a relation
-- between states with one constructor for each stretch of code without an `await` between
-- (`Server.Udp.UdpStep`, `Server.Admission.TcpStep`), and the states reached are all that any order of
-- them gives. A stream is named by its place in the list of all streams, as the two dictionaries and
-- the tasks share it.
--
-- The `cryptography` package and `hmac` are parameters (`Crypto.Backend.Primitives`), with their
-- documented behaviour as `PrimitiveLaws`. `asyncio.StreamReader.readexactly` is
-- `Frame.stream_readexactly`, and a writer of asyncio is the parameter `Tcp.StreamWriter`. Random
-- bytes are arguments. The file that `zipfile` makes of its entries is the parameter `zip_bytes` of
-- Ports/Commands, and a callback for timeouts is the function from the time at which it begins to
-- that at which it ends, if it does (`Server.OnTimeout`).
--
-- `send_loop` runs on fuel, two more than the length of the message: each turn but the last takes at
-- least one byte, and one turn more finds the end. `decimal` has fuel for 20 digits, which hold every
-- port, and every interval of 30 seconds that a clock of 64 bits can name. All else is structural
-- recursion.
--
-- The token bucket counts in parts of a token, 200,000,000 of them, so that a nanosecond brings one;
-- the source computes with floats.
--
-- Not modelled: logging, the messages of errors, the opening of TCP connections, the signals
-- that end `serve`, the semaphore that lets ten handshakes run at once, the round-trip
-- estimate of the UDP stream, and the C core and its ports, which are another program.
pub mod Prelude
pub mod Errors
pub mod Types
pub mod Struct
pub mod Frame
pub mod Crypto
pub mod Transport
pub mod Session
pub mod Handshake
pub mod Server
pub mod Client
pub mod Tcp
pub mod Udp
pub mod Release
pub mod Ports
pub mod Tests

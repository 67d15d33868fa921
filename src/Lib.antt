-- ===== src/Lib.antt =====
-- The fx5 library: an SLMP client for the Mitsubishi FX5 controllers, in C.
--
-- A program takes a context from a pool of two, sets its network settings and a request (a batch read
-- or write of words or bits at a device address), asks for the bytes of the request frame, sends them
-- itself, feeds the bytes it receives to the context and asks for a response to be parsed. The parser
-- works on a ring buffer of 297 bytes: it looks for the subheader of a response, drops what stands in
-- front of it, checks the header, waits until the whole frame has come, and then stores the values
-- or the end code in the context.
--
-- Which file is about which code:
--   Types        include/fx5/fx5.h and include/fx5/fx5_layout.h: enumerations, settings, limits.
--   RingBuf      src/fx5_ringbuf.c. A ring is its storage, two positions and a size. The children give
--                the invariant, the queue that it holds (Contents, Refine), sequences of calls (Run) and
--                what happens above 2 ^ 15 bytes (Overflow).
--   Packed       fx5_get_packed_bit_value, and the bit update of src/fx5_core.c and src/fx5_response.c.
--   Bytes        include/fx5/internal/fx5_utility.h: little-endian numbers in arrays (Array) and in the
--                ring (Stream).
--   Context      struct fx5_context of include/fx5/internal/fx5_private.h and its reset.
--   Request      src/fx5_request.c: device tables, validation and sizes (Devices), the builders
--                (Builders), the bytes of a frame as a specification (Encoding), and that the builders
--                write these (Frame).
--   Response     src/fx5_response.c: headers and resynchronisation (Header, Stream), payloads (Payload,
--                Words, Nibbles, Bits).
--   Api          src/fx5_core.c: the guard (Handle), setters and getters (Configure), fx5_build_request
--                (Build, Frame, Requests), fx5_feed_response_bytes and fx5_parse_response (Receive, Feed,
--                Parse), the pool (Pool, Leases), the invariant of a context (Invariant, Ready), and
--                sequences of calls (Session).
--   Client       tools/fx5_client: fx5_client_utility.c (Text, Numbers), fx5_client_parser.c with the
--                structure of fx5_client_commands.h (Device, Command), fx5_client_config.c (Config, over
--                the lines of Lines), fx5_client_commands.c (Commands), fx5_client_transport.c
--                (Transport), fx5_client_app.c (App, and its start and end in Main), fx5_client_repl.c
--                (Session), main.c (Options, Main). Format is what printf writes.
--   Tests        concrete contexts, frames, lines and peers.
--
-- The client. `main` reads the port, the file fx5_client.ini and the options into a configuration,
-- takes a context from the pool, opens and connects a socket, and runs a script or the console: a line
-- becomes a command, the command is applied to the context, the request frame is built and sent, and
-- what is received is fed to the context and parsed until there is an answer, which is printed.
--
-- Conventions. A pointer to a context is an Option, none for NULL; a function returns what the pointer
-- points to afterwards beside its status. An output pointer is a Boolean, false for NULL, and what is
-- written through it is part of the result. The NULL tests of internal functions, which are never
-- called with NULL, are left out. An array is a list: a read out of range gives 0 and a write out of
-- range does nothing; the theorems are about contexts whose arrays have their full length. The loops
-- of the client's parser that store one value for every point can leave the array of a command: the
-- parser is none from such a write on, as the program is undefined there. Every number
-- of w bits is a natural number, and its wrap-around is written out (u8, u16, u32). The ring of a
-- context owns its storage, as rx_cbuffer.data always points to the buffer of the same context. The
-- default configuration is modelled: 32 value slots, a pool of two, values cleared by fx5_set_request.
--
-- Fuel. The resynchronisation runs on the size of the ring, since every round drops a byte. The loop of
-- fx5_parse_response runs on a fuel of 66: each round that goes on has counted one more dropped byte,
-- and none goes on beyond 64. With no fuel left the model gives none.
--
-- The loop over a list of values in a command runs on the length of the text, as every round takes at
-- least one character, and the loop of fx5_socket_send_all on the number of bytes, as every round sends
-- one. The receive loop of the client runs on a fuel that counts what is received, and is none while
-- there is no answer: it need not end, so the theorems that it does say how many pieces come.
--
-- The text of the client. A C string is the list of its bytes before the terminating 0. The functions
-- of the C library on it (isspace, isdigit, strcmp, strtoul, strtol, fgets, printf and so on) are
-- written out for the C locale and a long of 64 bits.
--
-- The system of the client. The calls of the operating system (getaddrinfo, socket, connect, close,
-- send, setsockopt, recv) and calloc are a parameter: a record of functions on a world of which
-- nothing is known (Transport.System). What a theorem needs of them is a record of hypotheses:
-- SendLog says that send adds the bytes it reports to what the peer gets, IsFinite that finitely
-- many pieces come and that recv gives bytes and not more than there is room for. Whether malloc
-- succeeds, and what an uninitialised variable holds, is told to each call. Files and the standard
-- input are lists of bytes that do not change while they are read, and a read error of a script
-- stands behind what can be read of it. The sockets are those of a POSIX system, in a process that
-- ignores SIGPIPE: a send that fails returns, and ends no process by that signal. The uninitialised
-- request buffer is filled with zeros, as nothing behind the request is sent.
--
-- Not modelled: the Windows branches of the transport, fflush, free and fclose, which change nothing
-- that the program looks at; signals; the unit tests and the Unity framework under tests; what a machine
-- does on an access out of an array.
pub mod Prelude
pub mod RingBuf
pub mod Types
pub mod Packed
pub mod Bytes
pub mod Context
pub mod Request
pub mod Response
pub mod Api
pub mod Client
pub mod Tests

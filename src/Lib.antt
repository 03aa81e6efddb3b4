-- ===== src/Lib.antt =====
-- p2p_messenger: a peer-to-peer messenger. Nodes publish their addresses in a DHT, send each other
-- encrypted and signed messages over UDP, keep holes in their NATs open, and may relay for others.
--
-- The parts and their files (paths of the repository on the right):
--   Wire       the datagrams: src/message.h, src/payload.h, src/signed_message.h (Wire/Message),
--              src/message_serializer.cpp, src/payload_serializer.cpp (Wire/Serializer),
--              src/message_deserializer.cpp, src/payload_deserializer.cpp (Wire/Deserializer); the
--              memcpy calls on which they stand are Wire/Memory
--   Address    `ip:port` as text, as src/message_sender.cpp and src/message_receiver.cpp read it
--   ChatHistory  src/chat_history.cpp
--   Resolver   Resolver/Metadata and Resolver/Book: src/metadata_ip_resolver.cpp; Resolver/Dht:
--              src/dht_ip_resolver.cpp, whose lookups and maps are those of Resolver/Book
--   Node       a running messenger: src/p2p_messenger_impl.cpp (Node/State, Node/Messenger),
--              src/message_sender.cpp (Node/Sender), src/message_receiver.cpp (Node/Receiver),
--              src/udp_hole_puncher.cpp (Node/HolePuncher); the other files of Node are proofs
--   ChatPage   src/chatpage.cpp: the widgets and the slots (ChatPage/Page), the contacts as text
--              (ChatPage); the other files of ChatPage are proofs
--   LoginPage  src/loginpage.cpp: the two slots (LoginPage), and the operations of std::istream that
--              the second reads with (LoginPage/Input)
--   Window     src/p2pmessenger.cpp, and `log_in` of src/chatpage.cpp, which makes the messenger; key
--              files are Node/Identity
--   Runtime    the threads of src/p2p_messenger_impl.cpp, its destructor and those of
--              src/message_sender.cpp and src/message_receiver.cpp (Runtime), and the order of the
--              members in src/p2p_messenger_impl.h (Runtime/Members); the other files are proofs
--   Examples   the theorems at concrete inputs
--
-- How they interact: `send_message` of the messenger asks both resolvers for the address and the key
-- and calls the sender, which serializes, encrypts, signs and hands a datagram to the socket. The
-- receiver's handler takes a datagram apart, and either accepts a message (it enters the sender's
-- address with the metadata resolver, starts to punch a hole and calls the messenger's handler, which
-- writes the history), forwards it, or takes it for the metadata of a hole puncher. The messenger's
-- handlers are the chat page's: each emits a signal, which a slot handles later, after whatever the
-- user does in between. The page calls the messenger to send, to search and to look up; what it sends
-- is posted as a task, which the messenger's threads run.
--
-- How the code is modelled:
--   A buffer or a string is a list of numbers, a size that is written in w bytes wraps, and a pointer
--   that is read from is the list of the bytes behind it. A call comes to a value, an exception or
--   `undefined` (Prelude/Outcome), which stands for an access outside a buffer, pointer arithmetic
--   past its end, a null pointer followed, the first item of an empty list and a variable that was
--   never assigned. Code with state is a `Program`: what was changed before
--   an exception stays changed. The state of a node is one record of all its parts; each handler
--   runs as one step, except where a theorem names the two halves of a `put` or of a `listen`.
--   OpenDHT, Boost.JSON, the network, Qt's strings and Boost's trimming are records of the functions
--   used (External, and Node/Identity for OpenDHT's key files), with what their documentation promises
--   as records of laws. Encryption and signatures draw random numbers:
--   the functions stand for one run's draws. A `std::map` is an association list,
--   walked in the order of its keys where the code walks it.
--   A widget is what it holds. A slot that Qt calls is a `Program` on its page, and a run of the
--   window is any sequence of the user's actions, the signals that are handled and the messenger's
--   own progress (ChatPage/Steps, Window). The window's tasks run one after another; in Runtime
--   up to four handlers are in threads at once, each of which acts when it finishes. An exception
--   that leaves a handler ends the program there, and a handler that works with a destroyed member
--   is undefined behaviour. Of the io_context only what its documentation says is used: `run` hands
--   handlers out, in any order, and lets exceptions through, and `stop` lets no further handler begin
--   and waits for none. A constructor of the messenger that throws when its threads run is undefined
--   behaviour.
--   Every loop is structural but two. The decimal digits of a number take fuel, one more than the
--   number itself, which Address/Decimal shows to be enough by the way back through `stoi`. The loop
--   over the headers of an answer takes one more than the answer has bytes, which LoginPage/Ends shows
--   to be enough; a loop without fuel left would be `undefined`.
--
-- Not modelled: src/main.cpp, which runs Qt's event loop; log output; two handlers that interleave
-- inside their bodies, but for the halves of a `put` and of a `listen`; a history that grows while a
-- click walks it, which is read in one piece here; how Qt sorts items and lays out texts; and the
-- connection to the HTTP service up to what it received.
pub mod Prelude
pub mod External
pub mod Wire
pub mod Address
pub mod ChatHistory
pub mod Resolver
pub mod LoginPage
pub mod Node
pub mod ChatPage
pub mod Runtime
pub mod Window
pub mod Examples

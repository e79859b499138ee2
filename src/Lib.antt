-- ===== src/Lib.antt =====
-- The core of GuyOS: the hub protocol of guyos_core, from the bytes of a stream up to the numbers that a
-- room gives to its chat messages.
--
-- The parts of the program, and the modules that model them:
--   * guyos_core/src/ports/outbound/f1_framing.rs: Framing. A frame is a length of four bytes,
--     big-endian, and as many bytes of UTF-8. `F1FrameDecoder` keeps its limit and its buffer;
--     `feed` and `pop_complete_frame` are its operations. Framing.Pop has the cases of a pop,
--     Framing.RoundTrip relates it to `encode_application_frame`.
--   * guyos_core/src/ports/outbound/fake_guyos_wire_v1_session.rs: Session. One end of a stream over two
--     byte channels with a capacity; a read loops over the received chunks, a write sends one frame.
--     Session.Chunks, Session.Stream, Session.Pair and Session.Faults are about any way in which the
--     bytes arrive.
--   * guyos_core/src/domain/reference_ticket_v1.rs: Ticket. `encode_reference_v1` and
--     `decode_reference_v1`; Ticket.Shape cuts the 57 bytes, Ticket.RoundTrip and Ticket.Sound relate
--     the two functions.
--   * guyos_core/src/domain/guyos_wire_attach.rs: Attach. The attach message and its acknowledgement, the
--     hub's policy, `accept_attach`, and the texts of its errors; Attach.Fields reads the message from
--     JSON, Attach.Handshake says when the hub accepts.
--   * guyos_core/src/domain/guyos_wire_publish.rs: Ledger. `RoomPublishState` numbers the messages of
--     each room. Ledger.Laws is the interface that clients rely on, Ledger.Room fills it,
--     Ledger.History follows any ledger of that interface through a history by one list of ids for each
--     room, and Ledger.Rooms states the result for `RoomPublishState`.
--   * guyos_core/src/domain/guyos_wire_v1.rs: Wire for the messages, the errors and the small helpers,
--     Wire.Encode and Wire.Decode for the codec, Wire.Seq for sequence numbers. Wire.Maps has the objects
--     that the encoder builds, Wire.RoundTrip decodes them, Wire.Inverse and Wire.Json put the codec
--     together, Wire.Plain is about the depth of the encoded values, and Wire.Ranges about the
--     numbers that are decoded.
--   * the rest of guyos_core/src/domain/guyos_wire_v1.rs, from `outbound_wire_error` on, and the error
--     bodies of guyos_core/src/ports/outbound/guyos_wire_v1_session.rs: Hub. `handle_client_message`
--     takes one decoded message of a stream, in a phase of the attach handshake, over the shared ledger.
--     Hub.Phase is the stream as a step relation, Hub.Publishing a publish over any ledger of
--     Ledger.Laws, Hub.Expected says what the observers of a room are to get, Hub.FanOut runs
--     many streams, and Hub.Admission has the reference ticket as the verifier of the hub.
--   * Delivery puts Wire on Session: Delivery.Messages has messages from one end to the other,
--     Delivery.Failures what a hub reports of a failed read, and Delivery.Hosting a stream of the hub
--     from the attach to the end of the stream.
--   * guyos_core/src/error.rs, guyos_core/src/application/client_chat_service.rs and
--     guyos_core/src/ports/outbound/relay_chat_backend.rs: Chat, the chat service over an outbound
--     backend; Chat.Fake is guyos_core/src/ports/outbound/fake_relay_chat_backend.rs, Chat.Echo and
--     Chat.Opening are about both.
--   * guyos_core/src/adapters/outbound/iroh_gossip_relay_backend.rs: Gossip, the receiving loop and the
--     sending of a message, with Gossip.Naming and Gossip.Receiving about these; and Gossip.Opening, the
--     text of a ticket, the stack of the network, and the opening and joining of a room. Gossip.Opening.Stack
--     follows the stack through any sequence of calls, Gossip.Opening.Meeting a ticket from the host to a
--     guest. What the network and the random numbers give to a call is an argument of the call, and what
--     the call asks of the network is a part of its outcome.
--   * guyos_core/src/infrastructure/mod.rs and guyos_core/src/adapters/inbound/chat.rs, with the trait impl of
--     the gossip backend: Gossip.Service, the chat service over the gossip backend as clients have it.
--     Gossip.Service.Host, Gossip.Service.Guest and Gossip.Service.Conversation follow two chats to their
--     first message.
--   * guyos_core/src/llm.rs: Llm, the prompt, the throttled reply and the split of a stream into events,
--     with Llm.Reply, Llm.Search and Llm.Events about these; Llm.Sse, the reader of an event and
--     `SseStream`, with Llm.Sse.Draining about the events of a buffer, Llm.Sse.Polling about repeated polls,
--     Llm.Sse.Pending about waiting, Llm.Sse.Left about what the events leave of a buffer, Llm.Sse.Waking
--     about a task that awaits the events, and Llm.Sse.Served about the bytes that servers write; and Llm.Client,
--     the requests and `run_streaming_reply`, with Llm.Client.Calling about its calls and Llm.Client.Relayed about
--     a whole run. The body of an
--     answer is the sequence of its arrivals, chunks and delays, and its end. A task that awaits the
--     stream is polled again behind a `Pending` only when it is woken: the stream of bytes keeps the waker in
--     a poll that it answers with `Pending` and wakes the task when it has more, and no other poll is made.
--   * guyos_core/src/main.rs: Relay, the configuration of the relay, the loop over the incoming messages and
--     the thread that reads lines; and Relay.Terminal, the command and the loop that sends the lines. Relay.Restarts is about the replies that the loop starts and aborts, with
--     Llm.History about its history, and Relay.Typing and Relay.Terminal.Sending about the lines.
--
-- A client's bytes pass through Session and Framing, its JSON texts through Wire, its messages through
-- Hub, which calls Attach with Ticket as a verifier, and Ledger for a publish.
--
-- Numbers are natural numbers with the bounds of their types written out: a `u32` length is below
-- 2 ^ 32, a `u64` sequence number below 2 ^ 64, `usize` has 64 bits. A text is its UTF-8 bytes. A
-- `&mut self` is a state in and out; a panic of the ledger is `none`; a wait is `pending`. The
-- read loop of a session takes one chunk in each round. The events of a buffer are drained in as many rounds
-- as it has bytes, which is enough since each event takes at least two; a stream is polled a given number
-- of times, and the theorems say how many are enough. The loop that reads lines follows the answers of its
-- channel. A `HashMap` is an association list with one entry for a key (HashMap). Prelude and Text have what the other
-- modules share: lists, results, texts as bytes with UTF-8, words and decimals.
--
-- The hub's client and the relay of the command line share no code but the chat service: the command line
-- takes its messages from Chat over Gossip, and gives its replies back to it.
--
-- The crates serde_json, uuid, time, data-encoding, hmac, sha2 and subtle are parameters (Crates), with
-- their documented laws; Crates.Sample keeps every one of them and is what the tests run on.
--
-- reqwest, the derived JSON readers of the language model's answers, iroh and iroh-gossip are parameters
-- too (Llm.Client, Gossip).
--
-- Not modelled: the parsing of the arguments and the drawing of the QR code, which only call their crates;
-- the task that a generation runs in, of which only the start and the abort are followed; the Swift
-- application and its bindings; the sources of errors (`Error::source`); and the `Send` and `Sync` side of
-- the traits. A future that is dropped half-way is not modelled either.
pub mod Prelude
pub mod Text
pub mod Framing
pub mod Session
pub mod Crates
pub mod Ticket
pub mod Attach
pub mod HashMap
pub mod Ledger
pub mod Wire
pub mod Hub
pub mod Delivery
pub mod Chat
pub mod Llm
pub mod Gossip
pub mod Relay

-- ===== src/Lib.antt =====
-- remoteau: the audio streaming engine (engine/internal). A host captures PCM, packs it into
-- frames (protocol v1 over a stream or UDP, protocol v2 media datagrams beside control
-- messages) and a receiver orders the frames, fills gaps with silence and plays them through a
-- jitter buffer.
--
-- Common: lists, options, results, signed integers, big- and little-endian integers, and
-- circular storage (Common/Circular and Common/Window: the two-part copies that ring.go and
-- jitterbuffer.go share).
--
-- Audio: engine/internal/audio. Audio/Format is format.go (new_format is NewFormat, validate is
-- Format.Validate). Audio/Ring is ring.go: the record Ring is the struct, try_write, read,
-- try_read, write_locked and read_locked are the methods. Audio/Ring/Client has the
-- specification, a bounded queue of bytes, and relates it to all calls.
--
-- Mixer: engine/internal/mixer. Mixer/JitterBuffer is jitterbuffer.go: write and read are Write
-- and Read; put, prime, read_primed and underrun are parts of their bodies, Report has Stats
-- and the getters. Mixer/Streams is mixer.go: add_stream, remove_stream, read and snapshot are
-- the methods of Mixer; a stream holds its jitter buffer by value. Mixer/Samples has the 16-bit
-- samples, over an abstract float32. The outer loop of Read runs on one more fuel than there
-- are frames, and each round mixes at least one.
--
-- Stats: engine/internal/stats, NewAggregate of stats.go.
--
-- Session: engine/internal/session/session.go. Session/Profile is selectProfile.
-- Session/Control has one side of a session as the record Session, with what it has written and
-- what it has still to read, and send, recv, send_hello, complete_hello, exchange_hellos,
-- request_stream and start_stream for the methods; a call is a function on the session that
-- returns a value or an error. Link relates a sent message to the received one, Greeting and
-- Starting run a host and a client against each other. The two functions of SetSealer are
-- parameters. A context does not expire during a call.
--
-- Pairing: engine/internal/pairing/exchange.go. Pairing/Exchange has one side of an exchange,
-- each method a function on it; the curve, SHA-256, HKDF and HMAC are the parameter Crypto, and
-- the random bytes are arguments. Agreement runs the two sides against each other, Checks is
-- about any message that a side accepts.
--
-- Relay: engine/internal/relay/relay.go. Relay/Sealer is the Sealer, over HKDF and GCM as
-- parameters; Relay/Registration is the registration of RunRelay, with strings.TrimSpace as a
-- parameter: it runs over the connections in the order in which they take the mutex.
--
-- Discovery: engine/internal/discovery. Discovery/Message is discovery.go, Discovery/Ports is
-- normalizeDiscoveryPorts of ports.go, Discovery/Responder is the rate limiter of responder.go.
--
-- Codec: engine/internal/codec/codec.go, the configuration and the PCM codec.
--
-- Protocol: engine/internal/protocol. Protocol/V1/Types and Stream are protocol.go,
-- Protocol/V1/Udp is udp.go; Protocol/V2/Media is v2/packet.go, Protocol/V2/Control is
-- v2/control.go. A reader is a function from the bytes that are left to a result and the bytes
-- that it leaves; a writer returns the bytes that it writes.
--
-- Engine: engine/internal/engine. Engine/Media is media.go: accept, tick, flush, emit and
-- emit_fec are the methods of clientMedia; Span measures the window, Emit is about handing a
-- frame on, Rounds about one round of the loop of flush, Flush about the loop, Tick about the
-- timer, Accept about the invariant, Duplicate about a frame that arrives twice.
-- Engine/QualityMode is qualityModeToBounds of qualitymode.go. Engine/Host/Caps is offerCaps,
-- negotiateCaps and codecConfigFromCaps of host.go; the loop that halves a frame runs on 8
-- rounds, and a uint8 can be halved 7 times before it is below 2. Engine/Host/Sending is
-- sendLoop, applyGain and switchCodec of host.go: step is a round of the inner loop, cut the
-- loop, on as much fuel as there are bytes, and a control message takes effect between two
-- reads. Packets relates packets to frames, Frames is about PCM that can be sent, Stalled about
-- a codec that does not take the frames. Engine/Host/Messages is handleControl with
-- applyQuality and switchCodec of host.go; its Handled is about any message. Engine/Host/Resume
-- is storeResumeState and tryResume of host.go, and tryResume of client.go.
--
-- Quality: engine/internal/quality. Quality/Controller is adaptive.go: new_controller and
-- update are NewController and Update.
--
-- Transport: engine/internal/transport. Transport/Sender is sender.go: handshake_from_format,
-- delays_of and retry are parts of RunSender, pump runs a connection over the events that its
-- capture, its socket and its ticker make, and Delivery hands its packets to the tracker of the
-- receiver. The rest is receiver.go: Transport/FrameTracker is the frameTracker,
-- Transport/Silence is writeSilence, Transport/UdpAudio is handleUDPAudio with
-- acceptTrackedFrame, for a source that is known. The loop of writeSilence runs on as much fuel
-- as there are frames, and each round writes at least one.
--
-- Integers: Go's unsigned fields are natural numbers below their width, with the wrap written
-- out where the source can wrap; signed ones are ℤ where a sign can occur. Mutexes are taken
-- for a whole call, so a call is a function on the state; a TryLock that fails is an argument.
-- The loop of flush runs on fuel, 2^32 + 1 rounds: each round but the last passes one of the
-- 2^32 sequence numbers, so the fuel is enough. The doubling of the delay does not reach 2^63
-- nanoseconds. Every loop but these five is a recursion on a list.
--
-- The codec and the floating-point types are parameters. Not modelled: sockets, goroutines,
-- timers, audio devices, libopus, files, and the user interfaces.
pub mod Common
pub mod Audio
pub mod Codec
pub mod Discovery
pub mod Engine
pub mod Mixer
pub mod Pairing
pub mod Protocol
pub mod Quality
pub mod Relay
pub mod Session
pub mod Stats
pub mod Transport

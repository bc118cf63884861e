-- ===== src/Transport/Sender.antt =====
-- engine/internal/transport/sender.go: the handshake of a capture, the packets that a connection
-- sends, and the delays between connections. What `Capture.Read`, the writes and the timers do is a
-- sequence of events. Sequence and capture-frame numbers are uint64.
pub mod Handshakes
pub mod Packets
pub mod Backoff
pub mod Delivery
mod Tests
use remoteau.Common.{
  ℕ, ◌+◌, ◌-◌, ◌*◌, ◌/◌, ◌%◌, ◌^◌, Bool, true, false, not, ◌&&◌, ◌||◌, Option, none, some, List, [],
  ◌∷◌, ◌++◌, length, min, max, ltb, leb, ◌==◌, if◌then◌else◌, Result, ok, err, reject_if, ◌>>=◌,
  ◌>>◌,
}
use remoteau.Common.Int.{ℤ, pos, pos_part, leb_ℤ, ltb_ℤ}
use remoteau.Audio.Format as Formats
use remoteau.Audio.Format.{Format}
use remoteau.Protocol.V1.Types as V1
use remoteau.Protocol.V1.Types.{Handshake, Frame}

pub data Error : Type 0 where
  bad_format : Formats.FormatError → Error
  bad_handshake : V1.Error → Error
  rate_out_of_range channels_out_of_range frame_samples_out_of_range : Error

abbrev format_error : Result Formats.FormatError (Unit {0}) → Result Error (Unit {0})
format_error (ok u) = ok u
format_error (err e) = err (bad_format e)

abbrev handshake_error : Result V1.Error (Unit {0}) → Result Error (Unit {0})
handshake_error (ok u) = ok u
handshake_error (err e) = err (bad_handshake e)

abbrev outside : ℕ → ℕ → ℤ → Bool
outside lo hi z = ltb_ℤ (pos hi) z || ltb_ℤ z (pos lo)

-- The `protocol.Handshake{...}` of a format.
abbrev pub handshake_of : Format → List ℕ → Handshake
handshake_of f name = record {
  version = 1;
  flags = 0;
  sample_rate = pos_part f.rate % 2 ^ 32;
  channels = pos_part f.channels % 2 ^ 8;
  format = 1;
  frame_samples = pos_part f.frame_samples % 2 ^ 16;
  name = name;
}

-- `handshakeFromFormat`
unfoldable pub handshake_from_format : Format → List ℕ → Result Error Handshake
handshake_from_format f name = do
  format_error (Formats.validate f)
  reject_if (outside 8000 192000 f.rate) rate_out_of_range
  reject_if (outside 1 8 f.channels) channels_out_of_range
  reject_if (outside 1 4096 f.frame_samples) frame_samples_out_of_range
  handshake_error (V1.validate (handshake_of f name))
  ok (handshake_of f name)

pub data SenderTransport : Type 0 where
  udp tcp : SenderTransport

-- The delays of `SenderOptions`, in nanoseconds; 0 or less asks for the default.
pub record Options : Type 0 where
  pub reconnect_min_delay : ℤ
  pub reconnect_max_delay : ℤ
  pub reconnect_healthy_after : ℤ

pub record Delays : Type 0 where
  pub min_delay : ℕ
  pub max_delay : ℕ
  pub healthy_after : ℕ

abbrev or_default : ℤ → ℕ → ℕ
or_default d default = if leb_ℤ d (pos 0) then default else pos_part d

-- The defaults that `RunSender` fills in, and its lift of the longest delay.
unfoldable pub delays_of : Options → Delays
delays_of o =
    let shortest = or_default o.reconnect_min_delay 100000000 in
    let longest = or_default o.reconnect_max_delay 5000000000 in
    record {
      min_delay = shortest;
      max_delay = if ltb longest shortest then shortest else longest;
      healthy_after = or_default o.reconnect_healthy_after 2000000000;
    }

-- One attempt, `attemptStats` and whether it ended with an error.
pub record Attempt : Type 0 where
  pub elapsed : ℕ
  pub successful_writes : ℕ
  pub failed : Bool

abbrev pub is_healthy : Delays → Attempt → Bool
is_healthy d a = leb d.healthy_after a.elapsed && not (a.successful_writes == 0)

-- One round of the loop of `RunSender` behind an attempt: the next backoff, and how long it sleeps.
-- Go's doubling would wrap beyond 2^63 nanoseconds, 292 years.
unfoldable pub retry : Delays → ℕ → Attempt → ℕ × Option ℕ
retry d backoff a =
    let slept = if is_healthy d a then d.min_delay else backoff in
    if not a.failed then (backoff, none) else (min (slept * 2) d.max_delay, some slept)

abbrev cons_sleep : Option ℕ → List ℕ → List ℕ
cons_sleep none rest = rest
cons_sleep (some d) rest = d ∷ rest

-- The sleeps of the loop over its attempts.
unfoldable pub sleeps : Delays → ℕ → List Attempt → List ℕ
sleeps d backoff [] = []
sleeps d backoff (a ∷ as_) =
    let (backoff', slept) = retry d backoff a in
    let rest = sleeps d backoff' as_ in cons_sleep slept rest

-- What a connection keeps: the numbers that outlive it, `packet[:filled]`, and its successful writes.
pub record Pump : Type 0 where
  pub seq : ℕ
  pub capture_frame : ℕ
  pub packet_capture_frame : ℕ
  pub filled : List ℕ
  pub successful_writes : ℕ

pub data Outcome : Type 0 where
  written transient fatal : Outcome

-- A read of some bytes, with what the write does if the packet is full then; a read of none; and, on
-- UDP, a HELLO that the ticker sends.
pub data Event : Type 0 where
  got : List ℕ → Outcome → Event
  idle : Event
  hello : Outcome → Event

-- Whether the loop goes on: UDP goes on behind an error that `handleUDPWriteError` calls transient.
abbrev pub goes_on : SenderTransport → Outcome → Bool
goes_on _ written = true
goes_on udp transient = true
goes_on tcp transient = false
goes_on _ fatal = false

abbrev count : Outcome → Pump → Pump
count written p = record p { successful_writes = p.successful_writes + 1 }
count transient p = p
count fatal p = p

-- `if filled == 0 { packetCaptureFrame = *captureFrame }`
abbrev pub first_frame : Pump → ℕ
first_frame p = if length p.filled == 0 then p.capture_frame else p.packet_capture_frame

-- One event: the pump, a packet that is full, and whether the loop goes on.
unfoldable pub step : SenderTransport → ℕ → ℕ → Pump → Event → Pump × Option Frame × Bool
step t bytes_per_frame chunk p (got bytes w) =
    let all = p.filled ++ bytes in
    let read = record p {
      capture_frame = (p.capture_frame + length bytes / bytes_per_frame) % 2 ^ 64;
      packet_capture_frame = first_frame p;
      filled = all;
    } in
    let frame : Frame = record {
      type = 0;
      seq = p.seq;
      capture_frame = first_frame p;
      payload = all;
    } in
    if ltb (length all) chunk then (read, none, true) else (
      count w (record read { seq = (p.seq + 1) % 2 ^ 64; filled = [] }),
      some frame,
      goes_on t w,
    )
step t bytes_per_frame chunk p idle =
    (record p { packet_capture_frame = first_frame p }, none, true)
step t bytes_per_frame chunk p (hello w) = (count w p, none, goes_on t w)

abbrev pub cons_frame : Option Frame → List Frame → List Frame
cons_frame none rest = rest
cons_frame (some f) rest = f ∷ rest

-- The packets of a connection, `runUDPSenderAttempt` or `sendConnection`, in the order in which they
-- are handed to the socket, and what it leaves.
unfoldable pub pump : SenderTransport → ℕ → ℕ → Pump → List Event → Pump × List Frame
pump t bpf chunk p [] = (p, [])
pump t bpf chunk p (e ∷ es) =
    let (p', frame, on) = step t bpf chunk p e in
    let (p'', frames) = pump t bpf chunk p' es in
    if on then (p'', cons_frame frame frames) else (p', cons_frame frame [])

-- `chunkBytes` on UDP
unfoldable pub chunk_bytes : ℕ → ℕ
chunk_bytes bytes_per_frame = max 1 (960 / bytes_per_frame) * bytes_per_frame

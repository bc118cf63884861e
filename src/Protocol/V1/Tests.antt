-- ===== src/Protocol/V1/Tests.antt =====
-- engine/internal/protocol: round trips of a concrete handshake and a concrete frame.
use remoteau.Common.{◌^◌, ◌≡◌, refl, [], ◌∷◌, ◌++◌, arith, ok}
use remoteau.Protocol.V1.Types.{
  Handshake, Frame, validate, with_version, with_type, expected_payload_bytes,
}
use remoteau.Protocol.V1.Stream.{
  write_handshake, read_handshake, write_frame, read_frame, handshake_bytes, frame_bytes, room_for,
}
use remoteau.Protocol.V1.Udp.{
  audio, append_udp_hello, append_udp_audio, decode_udp_datagram, hello_bytes, audio_bytes,
}
use remoteau.Protocol.V1.Bounds.{InRange}
use remoteau.Protocol.V1.RoundTrip.{
  FrameInRange, read_handshake-write_handshake, read_frame-write_frame,
}
use remoteau.Protocol.V1.UdpRoundTrip.{decode_udp_datagram-append_udp_audio}

-- One 16-bit sample of two channels a frame.
abbrev greeting : Handshake
greeting = record {
  version = 0;
  flags = 0;
  sample_rate = 48000;
  channels = 2;
  format = 1;
  frame_samples = 1;
  name = 112 ∷ 99 ∷ [];
}

abbrev sent : Frame
sent = record { type = 0; seq = 300; capture_frame = 2 ^ 40; payload = 1 ∷ 2 ∷ 3 ∷ 4 ∷ [] }

sent-FrameInRange : FrameInRange sent
sent-FrameInRange = omega arith

abbrev versioned : Handshake
versioned = record greeting { version = 1 }

versioned-InRange : InRange versioned
versioned-InRange = omega arith

write_handshake-greeting : write_handshake greeting ≡ ok (handshake_bytes versioned)
unfolding write_handshake validate expected_payload_bytes with_version
write_handshake-greeting = refl

write_frame-sent : write_frame greeting sent ≡ ok (frame_bytes (record sent { type = 1 }))
unfolding write_frame expected_payload_bytes with_type
write_frame-sent = refl

append_udp_hello-greeting : append_udp_hello greeting ≡ ok (hello_bytes versioned)
unfolding append_udp_hello validate expected_payload_bytes with_version
append_udp_hello-greeting = refl

append_udp_audio-sent : append_udp_audio sent ≡ ok (audio_bytes (record sent { type = 1 }))
unfolding append_udp_audio with_type
append_udp_audio-sent = refl

read_handshake-write_handshake_example :
    read_handshake (handshake_bytes versioned ++ (7 ∷ [])) ≡ ok (with_version greeting, 7 ∷ [])
read_handshake-write_handshake_example =
    read_handshake-write_handshake greeting (handshake_bytes versioned) (7 ∷ [])
      write_handshake-greeting

read_frame-write_frame_example :
    read_frame (frame_bytes (record sent { type = 1 }) ++ (7 ∷ [])) greeting (0 ∷ [])
    ≡ (ok (with_type sent, 7 ∷ []), 1 ∷ 2 ∷ 3 ∷ 4 ∷ [])
unfolding room_for
read_frame-write_frame_example =
    read_frame-write_frame greeting sent (frame_bytes (record sent { type = 1 })) (7 ∷ []) (0 ∷ [])
      sent-FrameInRange write_frame-sent

decode_udp_datagram-append_udp_audio_example :
    decode_udp_datagram (audio_bytes (record sent { type = 1 })) ≡ ok (audio (with_type sent))
decode_udp_datagram-append_udp_audio_example =
    decode_udp_datagram-append_udp_audio sent (audio_bytes (record sent { type = 1 }))
      sent-FrameInRange append_udp_audio-sent

-- ===== src/Transport/UdpAudio/Tests.antt =====
-- engine/internal/transport/receiver.go: a source with two frames queued, and a frame after a gap.
use remoteau.Common.{◌+◌, ◌%◌, ◌^◌, ◌≡◌, refl, true, false, [], ◌∷◌, arith}
use remoteau.Common.Int.{pos}
use remoteau.Protocol.V1.Types.{Frame}
use remoteau.Mixer.JitterBuffer.{JitterBuffer}
use remoteau.Mixer.JitterBuffer.Inv.{IsValid}
use remoteau.Transport.FrameTracker.{accept, measure}
use remoteau.Transport.UdpAudio.{
  Source, Counters, Heard, judge, handle_udp_audio, handle_udp_audio-Heard,
}

abbrev queued : JitterBuffer
queued = record {
  format = record { rate = pos 1000; channels = pos 1; frame_samples = pos 1 };
  frame_bytes = 2;
  buf = 3 ∷ 4 ∷ 9 ∷ 9 ∷ 1 ∷ 2 ∷ [];
  read = 4;
  used = 4;
  target_frames = 2;
  high_frames = 3;
  primed = false;
  discarded_frames = 0;
  underrun_frames = 0;
  queue_frames = 2;
}

queued-IsValid : IsValid queued
queued-IsValid = omega arith

abbrev source : Source
source = record {
  buffer = queued;
  tracker = record {
    seen = true;
    expected_seq = 5;
    expected_capture_frame = 100;
    max_gap_frames = pos 0;
  };
  last_seen = 0;
}

abbrev counters : Counters
counters = record { gaps = 0; stale_frames = 0 }

-- One packet of two frames is missing.
abbrev frame : Frame
frame = record { type = 1; seq = 6; capture_frame = 102; payload = 7 ∷ 7 ∷ 8 ∷ 8 ∷ [] }

handle_udp_audio-Heard_example :
    let r = (judge source frame).1 in
    let (c', after) = handle_udp_audio 2 counters source frame 50 in
    Heard source r.gap_frames (7 ∷ 7 ∷ 8 ∷ 8 ∷ []) after
    × (c'.gaps ≡ (0 + r.missing_packets) % 2 ^ 64)
    × (c'.stale_frames ≡ 0)
unfolding accept measure
handle_udp_audio-Heard_example =
    handle_udp_audio-Heard counters source frame 50 queued-IsValid refl refl

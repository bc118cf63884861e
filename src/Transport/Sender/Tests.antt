-- ===== src/Transport/Sender/Tests.antt =====
-- engine/internal/transport/sender.go: a mono capture over packets of two frames.
use remoteau.Common.{
  ℕ, ◌*◌, ◌^◌, ◌<◌, ◌≡◌, refl, true, false, List, [], ◌∷◌, All, length, get_or, min, arith,
}
use remoteau.Common.Int.{pos}
use remoteau.Audio.Format.{Format}
use remoteau.Transport.FrameTracker.{FrameTracker}
use remoteau.Transport.Sender.{
  Options, Attempt, Pump, Event, udp, got, idle, hello, written, transient, delays_of, sleeps, pump,
  step, chunk_bytes,
}
use remoteau.Transport.Sender.Handshakes.{IsSendable}
use remoteau.Transport.Sender.Packets.{IsFilling, AllFit, Pumped, pump-Pumped}
use remoteau.Transport.Sender.Backoff.{IsWithin, AllFail, sleeps_bounds}
use remoteau.Transport.Sender.Delivery.{IsClean, judged, judged-pump}

abbrev mono : Format
mono = record { rate = pos 48000; channels = pos 1; frame_samples = pos 480 }

mono-IsSendable : IsSendable mono []
mono-IsSendable = record {
  rate = (48000, refl, omega arith, omega arith);
  channels = (1, refl, omega arith, omega arith);
  frame_samples = (480, refl, omega arith, omega arith);
  short_name = omega arith;
}

abbrev fresh : Pump
fresh = record {
  seq = 7;
  capture_frame = 100;
  packet_capture_frame = 100;
  filled = [];
  successful_writes = 1;
}

abbrev events : List Event
events =
    hello written
    ∷ got (1 ∷ 2 ∷ []) written
    ∷ idle
    ∷ got (3 ∷ 4 ∷ []) transient
    ∷ got (5 ∷ 6 ∷ []) written
    ∷ got (7 ∷ 8 ∷ []) written
    ∷ []

fresh-IsFilling : IsFilling udp 2 4 fresh
fresh-IsFilling = record {
  room = omega arith;
  whole = refl;
  seq = omega arith;
  start = omega arith;
  capture = refl;
}

events_fit : AllFit udp 2 4 fresh events
unfolding step
events_fit = omega arith

pump-Pumped_example :
    Pumped udp 2 4 fresh events (pump udp 2 4 fresh events).0 (pump udp 2 4 fresh events).1
pump-Pumped_example = pump-Pumped udp 2 4 (omega arith) fresh events fresh-IsFilling events_fit

-- A stereo packet on UDP.
stereo_chunk : chunk_bytes 4 ≡ 960
unfolding chunk_bytes
stereo_chunk = refl

abbrev patient : Options
patient = record {
  reconnect_min_delay = pos 0;
  reconnect_max_delay = pos 0;
  reconnect_healthy_after = pos 0;
}

abbrev tries : List Attempt
tries =
    record { elapsed = 0; successful_writes = 0; failed = true }
    ∷ record { elapsed = 0; successful_writes = 0; failed = true }
    ∷ []

sleeps_bounds_example :
    let d = delays_of patient in
    All (IsWithin d) (sleeps d d.min_delay tries)
    × ((k : ℕ)
        → AllFail d tries
        → k < length tries
        → get_or (sleeps d d.min_delay tries) k 0 ≡ min (d.min_delay * 2 ^ k) d.max_delay)
sleeps_bounds_example = sleeps_bounds patient tries

abbrev tracker : FrameTracker
tracker = record {
  seen = false;
  expected_seq = 0;
  expected_capture_frame = 0;
  max_gap_frames = pos 0;
}

judged-pump_example : All IsClean (judged 2 tracker (pump udp 2 4 fresh events).1)
unfolding pump step
judged-pump_example =
    judged-pump udp 2 4 tracker fresh events (omega arith) fresh-IsFilling events_fit refl
      (omega arith) (omega arith)

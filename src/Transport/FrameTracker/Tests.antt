-- ===== src/Transport/FrameTracker/Tests.antt =====
-- engine/internal/transport/receiver.go: the tracker on concrete frames.
use remoteau.Common.{◌+◌, ◌≡◌, refl, true, List, [], ◌∷◌, arith}
use remoteau.Common.Int.{pos}
use remoteau.Transport.FrameTracker.{
  FrameTracker, accept, measure, advance, cap_gap_frames, advance_capture_frame,
}
use remoteau.Transport.FrameTracker.Accounting.{Arrival, run, run-Accounts}
use remoteau.Transport.FrameTracker.Gaps.{gap_frames-accept}

abbrev tracker : FrameTracker
tracker = record {
  seen = true;
  expected_seq = 5;
  expected_capture_frame = 2400;
  max_gap_frames = pos 1000;
}

-- In order, two packets missing, a late one.
abbrev arrivals : List Arrival
arrivals =
    record { seq = 5; capture_frame = 2400; packet_frames = pos 480 }
    ∷ record { seq = 8; capture_frame = 3840; packet_frames = pos 480 }
    ∷ record { seq = 6; capture_frame = 2880; packet_frames = pos 480 }
    ∷ []

run-arrivals : run tracker arrivals ≡ (
  record tracker { expected_seq = 9; expected_capture_frame = 4320 },
  record { accepted = 2; stale = 1; missing = 2 },
)
unfolding run accept measure advance advance_capture_frame cap_gap_frames
run-arrivals = refl

run-Accounts_example :
    ((run tracker arrivals).0.expected_seq
      ≡ 5 + (run tracker arrivals).1.missing + (run tracker arrivals).1.accepted)
    × ((run tracker arrivals).1.accepted + (run tracker arrivals).1.stale ≡ 3)
run-Accounts_example =
    run-Accounts tracker arrivals refl (omega arith, (omega arith, (omega arith, tt)))

-- The capture clock stood still, so the missing packets count, up to the limit.
gap_frames-accept_example : (accept tracker 8 2400 (pos 480)).1.gap_frames ≡ 1000
gap_frames-accept_example =
    gap_frames-accept tracker 8 2400 480 refl (omega arith) (omega arith) (omega arith)

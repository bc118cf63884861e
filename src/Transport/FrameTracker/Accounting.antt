-- ===== src/Transport/FrameTracker/Accounting.antt =====
-- engine/internal/transport/receiver.go: what the tracker makes of a whole run of frames from one
-- source.
use remoteau.Common.{length, refl, ℕ, ◌+◌, ◌<◌, ◌≡◌, true, if◌then◌else◌, List, [], ◌∷◌, All, arith}
use remoteau.Common.Int.{ℤ}
use remoteau.Transport.FrameTracker.{FrameTracker, AcceptResult, accept, advance, measure, max_u64}

-- The fields of a frame that the tracker reads.
pub record Arrival : Type 0 where
  pub seq : ℕ
  pub capture_frame : ℕ
  pub packet_frames : ℤ

-- What the receiver's counters add up over a run: frames that were passed on, stale ones, packets
-- that were reported missing.
pub record Tally : Type 0 where
  pub accepted : ℕ
  pub stale : ℕ
  pub missing : ℕ

abbrev count : AcceptResult → Tally → Tally
count r n = record {
  accepted = if r.stale then n.accepted else n.accepted + 1;
  stale = if r.stale then n.stale + 1 else n.stale;
  missing = n.missing + r.missing_packets;
}

unfoldable pub run : FrameTracker → List Arrival → FrameTracker × Tally
run t [] = (t, record { accepted = 0; stale = 0; missing = 0 })
run t (a ∷ rest) =
    let (t', r) = accept t a.seq a.capture_frame a.packet_frames in
    let (t'', n) = run t' rest in (t'', count r n)

abbrev pub BelowWrap : Arrival → Type 0
BelowWrap a = a.seq < max_u64

-- One frame on a source that has been seen: it is stale below the expected number, and otherwise
-- moves it on by the frame itself and the packets reported missing.
accept_moves :
    (t : FrameTracker) (a : Arrival)
    → t.seen ≡ true
    → BelowWrap a
    → let (t', r) = accept t a.seq a.capture_frame a.packet_frames in
      (t'.seen ≡ true)
      × (t'.expected_seq ≡ t.expected_seq + r.missing_packets + (if r.stale then 0 else 1))
unfolding accept advance measure
accept_moves t a seen below = ground arith

-- Over any run on a source that has been seen, with sequence numbers below the last uint64, the
-- expected number moves on by exactly the frames accepted and the packets reported missing, and each
-- frame is either accepted or stale: no number is passed twice and no gap is counted twice.
pub run-Accounts :
    (t : FrameTracker) (arrivals : List Arrival)
    → t.seen ≡ true
    → All BelowWrap arrivals
    → let (t', n) = run t arrivals in
      (t'.expected_seq ≡ t.expected_seq + n.missing + n.accepted)
      × (n.accepted + n.stale ≡ length arrivals)
unfolding run
run-Accounts t [] seen below = (omega arith, refl)
run-Accounts t (a ∷ rest) seen (first, below) =
    let moved = accept_moves t a seen first in
    let t' = (accept t a.seq a.capture_frame a.packet_frames).0 in
    ground (arith, moved, run-Accounts t' rest moved.0 below)

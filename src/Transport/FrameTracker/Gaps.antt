-- ===== src/Transport/FrameTracker/Gaps.antt =====
-- engine/internal/transport/receiver.go: the silence that a gap is filled with.
use remoteau.Common.{
  ℕ, ◌+◌, ◌-◌, ◌*◌, ◌/◌, ◌%◌, ◌^◌, ◌≤◌, ◌<◌, ◌≡◌, min, true, ltb, if◌then◌else◌, arith,
}
use remoteau.Common.Int.{pos}
use native.Mathlib.Decide.{dec_lt, ℕ_discrete}
use native.Mathlib.Nat.{div-mul-le_self, lt-div-mul-add}
use remoteau.Transport.FrameTracker.{
  FrameTracker, gap_limit, cap_gap_frames, cap_missing_packet_frames, measure, accept, max_u64,
}

cap_gap_frames-min : (t : FrameTracker) (gap : ℕ) → cap_gap_frames t gap ≡ min gap (gap_limit t)
unfolding cap_gap_frames
cap_gap_frames-min t gap = ground arith

gap_limit-pos : (t : FrameTracker) → 0 < gap_limit t
gap_limit-pos t = ground arith

over_max :
    (missing frames : ℕ) → 0 < frames → max_u64 / frames < missing → max_u64 < missing * frames
over_max missing frames some over =
    let above : max_u64 < max_u64 / frames * frames + frames = lt-div-mul-add some in
    let reach : (max_u64 / frames + 1) * frames ≤ missing * frames = grind (arith, over) in
    omega (arith, above, reach)

within_max : (missing frames : ℕ) → missing ≤ max_u64 / frames → missing * frames ≤ max_u64
within_max missing frames within =
    let reach : missing * frames ≤ max_u64 / frames * frames = grind (arith, within) in
    omega (arith, reach, div-mul-le_self max_u64 frames)

-- The multiplication that would wrap is caught before, so a run of missing packets counts its frames
-- in full, up to the limit (which no configuration sets above the largest uint64).
pub cap_missing_packet_frames-min :
    (t : FrameTracker) (missing frames : ℕ)
    → gap_limit t ≤ max_u64
    → 0 < frames
    → cap_missing_packet_frames t missing (pos frames) ≡ min (missing * frames) (gap_limit t)
unfolding cap_missing_packet_frames
cap_missing_packet_frames-min t missing frames limit some = elim (ℕ_discrete missing 0) [
  | yes e ↦ rw e (ground arith)
  | no ne ↦ elim (dec_lt (max_u64 / frames) missing) [
    | yes over ↦
        let big = over_max missing frames some over in ground (arith, cap_gap_frames-min t max_u64)
    | no within ↦
        let small = within_max missing frames (omega arith) in
        let exact : missing * frames % 2 ^ 64 ≡ missing * frames = omega arith in
        rw exact (ground (arith, cap_gap_frames-min t (missing * frames)))
  ]
]

-- The frames of silence for an accepted frame: the capture clock decides; where it shows no gap,
-- the missing packets do. Neither is more than the limit.
pub gap_frames-accept :
    (t : FrameTracker) (seq capture_frame frames : ℕ)
    → t.seen ≡ true
    → t.expected_seq ≤ seq
    → gap_limit t ≤ max_u64
    → 0 < frames
    → let r = (accept t seq capture_frame (pos frames)).1 in
      r.gap_frames ≡ (
        if ltb t.expected_capture_frame capture_frame
        then min (capture_frame - t.expected_capture_frame) (gap_limit t)
        else min ((seq - t.expected_seq) * frames) (gap_limit t))
unfolding accept measure
gap_frames-accept t seq capture_frame frames seen fresh limit some =
    let missing = seq - t.expected_seq in
    let gap = capture_frame - t.expected_capture_frame in
    elim (dec_lt t.expected_capture_frame capture_frame) [
      | yes ahead ↦ ground (arith, cap_gap_frames-min t gap, gap_limit-pos t)
      | no behind ↦ elim (dec_lt t.expected_seq seq) [
        | yes some_missing ↦
            ground (arith, cap_missing_packet_frames-min t missing frames limit some)
        | no none_missing ↦
            let zero_missing : missing ≡ 0 = omega arith in rw zero_missing (ground arith)
      ]
    ]

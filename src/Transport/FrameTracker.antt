-- ===== src/Transport/FrameTracker.antt =====
-- engine/internal/transport/receiver.go: `frameTracker`, which orders the frames of one source and
-- measures what is missing. Sequence and capture-frame numbers are uint64.
pub mod Accounting
pub mod Gaps
mod Tests
use remoteau.Common.{
  ℕ, ◌+◌, ◌-◌, ◌*◌, ◌/◌, ◌%◌, ◌^◌, Bool, true, false, not, ◌&&◌, ◌||◌, ltb, leb, ◌==◌,
  if◌then◌else◌, List, [], ◌∷◌,
}
use remoteau.Common.Int.{ℤ, pos, pos_part, leb_ℤ}

pub record FrameTracker : Type 0 where
  pub seen : Bool
  pub expected_seq : ℕ
  pub expected_capture_frame : ℕ
  pub max_gap_frames : ℤ

pub record AcceptResult : Type 0 where
  pub expected_seq : ℕ
  pub expected_capture_frame : ℕ
  pub missing_packets : ℕ
  pub capture_gap_frames : ℕ
  pub gap_frames : ℕ
  pub stale : Bool
  pub capture_moved_backward : Bool

abbrev pub max_u64 : ℕ
max_u64 = 2 ^ 64 - 1

-- `protocol.MaxSampleRate * 3`
abbrev pub default_max_gap_frames : ℕ
default_max_gap_frames = 576000

abbrev pub gap_limit : FrameTracker → ℕ
gap_limit t =
    if leb_ℤ t.max_gap_frames (pos 0) then default_max_gap_frames else pos_part t.max_gap_frames

unfoldable pub cap_gap_frames : FrameTracker → ℕ → ℕ
cap_gap_frames t gap = if ltb (gap_limit t) gap then gap_limit t else gap

unfoldable pub cap_missing_packet_frames : FrameTracker → ℕ → ℤ → ℕ
cap_missing_packet_frames t missing packet_frames =
    if missing == 0 || leb_ℤ packet_frames (pos 0)
    then 0
    else if ltb (max_u64 / pos_part packet_frames) missing
    then cap_gap_frames t max_u64
    else cap_gap_frames t (missing * pos_part packet_frames % 2 ^ 64)

unfoldable pub advance_capture_frame : ℕ → ℤ → ℕ
advance_capture_frame capture_frame packet_frames =
    if leb_ℤ packet_frames (pos 0)
    then capture_frame
    else if ltb (max_u64 - capture_frame) (pos_part packet_frames)
    then max_u64
    else capture_frame + pos_part packet_frames

abbrev nothing : AcceptResult
nothing = record {
  expected_seq = 0;
  expected_capture_frame = 0;
  missing_packets = 0;
  capture_gap_frames = 0;
  gap_frames = 0;
  stale = false;
  capture_moved_backward = false;
}

-- The result of a frame that is neither the first one nor stale.
unfoldable pub measure : FrameTracker → ℕ → ℕ → ℤ → AcceptResult
measure t seq capture_frame packet_frames =
    let missing = if ltb t.expected_seq seq then seq - t.expected_seq else 0 in
    let ahead = ltb t.expected_capture_frame capture_frame in
    let capture_gap = if ahead then capture_frame - t.expected_capture_frame else 0 in
    let by_capture = if ahead then cap_gap_frames t capture_gap else 0 in
    record {
      expected_seq = t.expected_seq;
      expected_capture_frame = t.expected_capture_frame;
      missing_packets = missing;
      capture_gap_frames = capture_gap;
      gap_frames =
          if by_capture == 0 && ltb 0 missing
          then cap_missing_packet_frames t missing packet_frames
          else by_capture;
      stale = false;
      capture_moved_backward = ltb capture_frame t.expected_capture_frame;
    }

-- What the tracker expects behind a frame; `seq + 1` wraps.
unfoldable pub advance : FrameTracker → ℕ → ℕ → ℤ → FrameTracker
advance t seq capture_frame packet_frames = record t {
  seen = true;
  expected_seq = (seq + 1) % 2 ^ 64;
  expected_capture_frame = advance_capture_frame capture_frame packet_frames;
}

-- `Accept`
unfoldable pub accept : FrameTracker → ℕ → ℕ → ℤ → FrameTracker × AcceptResult
accept t seq capture_frame packet_frames =
    if not t.seen
    then (advance t seq capture_frame packet_frames, nothing)
    else if ltb seq t.expected_seq
    then (
      t,
      record nothing {
        expected_seq = t.expected_seq;
        expected_capture_frame = t.expected_capture_frame;
        stale = true;
      },
    )
    else (advance t seq capture_frame packet_frames, measure t seq capture_frame packet_frames)

-- ===== src/Mixer/Streams/Snapshot.antt =====
-- engine/internal/mixer/mixer.go: the statistics of all streams.
use remoteau.Common.{◌≤◌, ◌≡◌, refl, ◌∙◌, List, [], ◌∷◌, length, arith}
use remoteau.Stats.{StreamSnapshot, AggregateSnapshot, new_aggregate}
use remoteau.Stats.Sums.{total, new_aggregate-Sums}
use remoteau.Mixer.JitterBuffer.{queued_frames}
use remoteau.Mixer.JitterBuffer.Report.{stats, stats-queued_frames}
use remoteau.Mixer.Samples.{Floats}
use remoteau.Mixer.Streams.{Mixer, Stream}
use remoteau.Mixer.Streams.Registry.{IsRegistry, HasValidBuffers}

module _ (F : Floats) where
  abbrev pub stream_snapshots : List (Stream F) → List StreamSnapshot
  stream_snapshots [] = []
  stream_snapshots (s ∷ rest) =
      record { id = s.id; name = s.name; remote_addr = s.remote_addr; audio = stats s.buffer }
      ∷ stream_snapshots rest

  unfoldable pub snapshot : Mixer F → AggregateSnapshot
  snapshot m = new_aggregate (stream_snapshots m.streams)

  length-stream_snapshots : (ss : List (Stream F)) → length (stream_snapshots ss) ≡ length ss
  length-stream_snapshots [] = refl
  length-stream_snapshots (s ∷ rest) = omega (arith, length-stream_snapshots rest)

  total-stream_snapshots :
      (ss : List (Stream F))
      → HasValidBuffers F ss
      → let shown = stream_snapshots ss in
        (total (λ x. x.audio.queue_size) shown ≡ total (λ s. queued_frames s.buffer) ss)
        × (total (λ x. x.audio.queue_size) shown ≤ total (λ x. x.audio.max_queue_size) shown)
  unfolding total
  total-stream_snapshots [] v = (refl, omega arith)
  total-stream_snapshots (s ∷ rest) (vs, v) =
      let one = stats-queued_frames s.buffer vs in
      let later = total-stream_snapshots rest v in
      (omega (arith, one.0, later.0), omega (arith, one.1, later.1))

  -- The snapshot of a well-formed mixer counts its streams and the frames in all their jitter
  -- buffers, and shows no more frames queued than there is room for.
  pub snapshot_lem :
      (m : Mixer F)
      → IsRegistry F m
      → ((snapshot m).active_streams ≡ length m.streams)
        × ((snapshot m).audio.queue_size ≡ total (λ s. queued_frames s.buffer) m.streams)
        × ((snapshot m).audio.queue_size ≤ (snapshot m).audio.max_queue_size)
  unfolding snapshot
  snapshot_lem m r =
      let (count, sums) = new_aggregate-Sums (stream_snapshots m.streams) in
      let (frames, bound) = total-stream_snapshots m.streams r.buffers in
      (
        count ∙ length-stream_snapshots m.streams,
        omega (arith, sums.queue_size, frames),
        omega (arith, sums.queue_size, sums.max_queue_size, bound),
      )

-- ===== src/Stats.antt =====
-- engine/internal/stats/stats.go: the sums over all streams. `PlayoutLatency` is in nanoseconds.
pub mod Sums
use remoteau.Common.{ℕ, ◌+◌, ◌%◌, ◌^◌, max, List, [], ◌∷◌, length, ltb, if◌then◌else◌}

pub record AudioStats : Type 0 where
  pub queue_size : ℕ
  pub max_queue_size : ℕ
  pub discarded_buffer_count : ℕ
  pub underrun_count : ℕ
  pub playout_latency : ℕ

pub record StreamSnapshot : Type 0 where
  pub id : List ℕ
  pub name : List ℕ
  pub remote_addr : List ℕ
  pub audio : AudioStats

pub record AggregateSnapshot : Type 0 where
  pub active_streams : ℕ
  pub streams : List StreamSnapshot
  pub audio : AudioStats

abbrev pub no_stats : AudioStats
no_stats = record {
  queue_size = 0;
  max_queue_size = 0;
  discarded_buffer_count = 0;
  underrun_count = 0;
  playout_latency = 0;
}

-- The body of the loop of `NewAggregate`; the two counts are uint64 numbers.
abbrev pub add_stats : AudioStats → AudioStats → AudioStats
add_stats s t = record {
  queue_size = s.queue_size + t.queue_size;
  max_queue_size = s.max_queue_size + t.max_queue_size;
  discarded_buffer_count = (s.discarded_buffer_count + t.discarded_buffer_count) % 2 ^ 64;
  underrun_count = (s.underrun_count + t.underrun_count) % 2 ^ 64;
  playout_latency =
      if ltb s.playout_latency t.playout_latency then t.playout_latency else s.playout_latency;
}

unfoldable pub sum_up : AudioStats → List StreamSnapshot → AudioStats
sum_up s [] = s
sum_up s (stream ∷ rest) = sum_up (add_stats s stream.audio) rest

unfoldable pub new_aggregate : List StreamSnapshot → AggregateSnapshot
new_aggregate streams = record {
  active_streams = length streams;
  streams = streams;
  audio = sum_up no_stats streams;
}

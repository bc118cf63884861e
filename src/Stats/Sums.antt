-- ===== src/Stats/Sums.antt =====
-- engine/internal/stats/stats.go: what the aggregate adds up to.
use remoteau.Common.{ℕ, ◌+◌, ◌%◌, ◌^◌, ◌≡◌, refl, max, List, [], ◌∷◌, length, arith}
use remoteau.Stats.{AudioStats, StreamSnapshot, new_aggregate, sum_up, add_stats, no_stats}

-- The sum and the greatest value of a quantity over all streams.
unfoldable pub total {ℓ} : {A : Type ℓ} → (A → ℕ) → List A → ℕ
total f [] = 0
total f (x ∷ xs) = f x + total f xs

unfoldable pub greatest {ℓ} : {A : Type ℓ} → (A → ℕ) → List A → ℕ
greatest f [] = 0
greatest f (x ∷ xs) = max (f x) (greatest f xs)

-- `s` and the streams behind it.
pub record Sums (s : AudioStats) (streams : List StreamSnapshot) (t : AudioStats) : Type 0 where
  pub queue_size : t.queue_size ≡ s.queue_size + total (λ x. x.audio.queue_size) streams
  pub max_queue_size :
      t.max_queue_size ≡ s.max_queue_size + total (λ x. x.audio.max_queue_size) streams
  pub discarded :
      t.discarded_buffer_count % 2 ^ 64
      ≡ (s.discarded_buffer_count + total (λ x. x.audio.discarded_buffer_count) streams) % 2 ^ 64
  pub underruns :
      t.underrun_count % 2 ^ 64
      ≡ (s.underrun_count + total (λ x. x.audio.underrun_count) streams) % 2 ^ 64
  pub latency :
      t.playout_latency ≡ max s.playout_latency (greatest (λ x. x.audio.playout_latency) streams)

sum_up-Sums : (s : AudioStats) (streams : List StreamSnapshot) → Sums s streams (sum_up s streams)
unfolding sum_up total greatest
sum_up-Sums s [] = omega arith
sum_up-Sums s (x ∷ rest) =
    let later = sum_up-Sums (add_stats s x.audio) rest in
    record {
      queue_size = omega (arith, later.queue_size);
      max_queue_size = omega (arith, later.max_queue_size);
      discarded = omega (arith, later.discarded);
      underruns = omega (arith, later.underruns);
      latency = ground (arith, later.latency);
    }

-- The aggregate counts the streams; its sizes are the sums of theirs, its counts the sums up to the
-- wrap of a uint64, its latency the greatest of theirs.
pub new_aggregate-Sums :
    (streams : List StreamSnapshot)
    → ((new_aggregate streams).active_streams ≡ length streams)
      × Sums no_stats streams (new_aggregate streams).audio
unfolding new_aggregate
new_aggregate-Sums streams = (refl, sum_up-Sums no_stats streams)

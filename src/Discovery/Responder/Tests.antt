-- ===== src/Discovery/Responder/Tests.antt =====
-- engine/internal/discovery/responder.go: a burst of queries.
use remoteau.Common.{replicate, ◌≡◌, refl}
use remoteau.Discovery.Responder.{answered, new_limiter, allow}

-- Of twenty queries at once, sixteen are answered.
burst_answered : answered (new_limiter 1) (replicate 20 2) ≡ 16
unfolding answered new_limiter allow
burst_answered = refl

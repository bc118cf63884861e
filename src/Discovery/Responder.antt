-- ===== src/Discovery/Responder.antt =====
-- engine/internal/discovery/responder.go: the limiter of the replies to queries. Times are
-- nanoseconds, and 0 is the zero time; tokens are never negative.
mod Tests
use remoteau.Common.{
  ℕ, ◌+◌, ◌-◌, ◌/◌, ◌≤◌, ◌<◌, ◌≡◌, refl, Bool, true, false, List, [], ◌∷◌, min, leb, ◌==◌,
  if◌then◌else◌, arith, inl, inr, Bool-cases,
}

-- `announceReplyInterval`
abbrev pub interval : ℕ
interval = 20000000

-- `announceReplyBurst`
abbrev pub burst : ℕ
burst = 16

-- `replyRateLimiter`
pub record Limiter : Type 0 where
  pub tokens : ℕ
  pub last : ℕ

-- `newReplyRateLimiter`
unfoldable pub new_limiter : ℕ → Limiter
new_limiter now = record { tokens = burst; last = now }

abbrev started : Limiter → ℕ → Limiter
started l now = if l.last == 0 then new_limiter now else l

abbrev refilled : Limiter → ℕ → Limiter
refilled l now =
    let elapsed = now - l.last in
    let tokens = l.tokens + elapsed / interval in
    if leb (l.last + interval) now
    then record l { tokens = if leb tokens burst then tokens else burst; last = now }
    else l

abbrev spend : Limiter → Limiter × Bool
spend l = if l.tokens == 0 then (l, false) else (record l { tokens = l.tokens - 1 }, true)

-- `Allow`
unfoldable pub allow : Limiter → ℕ → Limiter × Bool
unfolding new_limiter
allow l now = spend (refilled (started l now) now)

-- The queries of `runResponderLoop`, by the times at which they come; how many are answered.
unfoldable pub answered : Limiter → List ℕ → ℕ
answered l [] = 0
answered l (now ∷ later) =
    let (l', replies) = allow l now in
    let rest = answered l' later in if replies then rest + 1 else rest

-- The times do not run backwards, from `from` to `until`.
abbrev pub IsOrdered : ℕ → ℕ → List ℕ → Type 0
IsOrdered from until [] = from ≤ until
IsOrdered from until (t ∷ ts) = (from ≤ t) × IsOrdered t until ts

IsOrdered-le : (from until : ℕ) (ts : List ℕ) → IsOrdered from until ts → from ≤ until
IsOrdered-le from until [] h = h
IsOrdered-le from until (t ∷ ts) (first, h) = omega (arith, IsOrdered-le t until ts h)

IsOrdered-weaken :
    (a b until : ℕ) (ts : List ℕ) → a ≤ b → IsOrdered b until ts → IsOrdered a until ts
IsOrdered-weaken a b until [] h o = omega arith
IsOrdered-weaken a b until (t ∷ ts) h (first, o) = (omega arith, o)

allow_step :
    (l : Limiter) (now : ℕ)
    → 0 < l.last
    → l.last ≤ now
    → let (l', replies) = allow l now in
      (0 < l'.last)
      × (l'.last ≤ now)
      × ((until : ℕ)
          → now ≤ until
          → (if replies then l'.tokens + 1 else l'.tokens) + (until - l'.last) / interval
            ≤ l.tokens + (until - l.last) / interval)
unfolding allow
allow_step l now some_time past =
    let running : (l.last == 0) ≡ false = ground arith in
    elim (Bool-cases (leb (l.last + interval) now)) [
      | inl due ↦ elim (Bool-cases (leb (l.tokens + (now - l.last) / interval) burst)) [
        | inl few ↦ rw (running, due, few) (ground arith, ground arith, λ until h. ground arith)
        | inr many ↦ rw (running, due, many) (ground arith, ground arith, λ until h. ground arith)
      ]
      | inr soon ↦ rw (running, soon) (ground arith, ground arith, λ until h. ground arith)
    ]

answered-le_from :
    (l : Limiter) (times : List ℕ) (until : ℕ)
    → 0 < l.last
    → IsOrdered l.last until times
    → answered l times ≤ l.tokens + (until - l.last) / interval
unfolding answered
answered-le_from l [] until some_time ordered = omega arith
answered-le_from l (now ∷ later) until some_time (past, ordered) =
    let (alive, back, paid) = allow_step l now some_time past in
    let l' = (allow l now).0 in
    let rest =
      answered-le_from l' later until alive
        (IsOrdered-weaken l'.last now until later back ordered) in
    let total = paid until (IsOrdered-le now until later ordered) in ground (arith, rest, total)

-- However many queries come, at times that do not run backwards, at most 16 and one for every full
-- 20 ms since the responder started are answered.
pub answered-le :
    (start : ℕ) (times : List ℕ) (until : ℕ)
    → 0 < start
    → IsOrdered start until times
    → answered (new_limiter start) times ≤ burst + (until - start) / interval
unfolding new_limiter
answered-le start times until some_time ordered =
    answered-le_from (record { tokens = burst; last = start }) times until some_time ordered

-- ===== src/Engine/Media/Accept.antt =====
-- engine/internal/engine/media.go: the branches of `accept`.
use native.Mathlib.Decide.{dec_lt, ℕ_discrete}
use remoteau.Common.{
  ℕ, ◌+◌, ◌%◌, ◌^◌, ◌≤◌, ◌<◌, ◌≡◌, refl, ◌∙◌, true, false, Option, none, some, List, length, ltb,
  arith, inl, inr, Bool-cases,
}
use remoteau.Common.Assoc.{insert-IsMap, length-delete_le}
use remoteau.Engine.Media.{
  Outside, ClientMedia, flush, arrive, accept, accept_first, accept_late, accept_next,
  accept_future, ahead, measure_jitter,
}
use remoteau.Engine.Media.Span.{delete-KeysIn}
use remoteau.Engine.Media.Emit.{emit-Emitted}
use remoteau.Engine.Media.Flush.{IsWindow}
use remoteau.Engine.Media.Tick.{flush-total}

module _ (O : Outside) where
  -- The statistics of an arrival leave the window and the stream alone.
  pub record Untouched (m m' : ClientMedia O) : Type 0 where
    pub next_seq : m'.next_seq ≡ m.next_seq
    pub future : m'.future ≡ m.future
    pub seen : m'.seen ≡ m.seen
    pub connected : m'.connected ≡ m.connected
    pub last_flush : m'.last_flush ≡ m.last_flush
    pub hold_period : m'.hold_period ≡ m.hold_period

  same-Untouched : (m : ClientMedia O) (x : O.Float) → Untouched m (record m { jitter_ms_ewma = x })
  same-Untouched m x = record {
    next_seq = refl;
    future = refl;
    seen = refl;
    connected = refl;
    last_flush = refl;
    hold_period = refl;
  }

  measure_jitter-Untouched :
      (now : ℕ) (last : Option ℕ) (m : ClientMedia O) → Untouched m (measure_jitter O now last m)
  measure_jitter-Untouched now none m = same-Untouched m m.jitter_ms_ewma
  measure_jitter-Untouched now (some last) m =
      elim (Bool-cases (O.less (O.quotient 0 1) m.frame_ms)) [
        | inl positive ↦ rw positive (same-Untouched m _)
        | inr none_set ↦ rw none_set (same-Untouched m m.jitter_ms_ewma)
      ]

  pub arrive-Untouched : (now : ℕ) (m : ClientMedia O) → Untouched m (arrive O now m)
  unfolding arrive
  arrive-Untouched now m =
      let m1 = record m { packets_seen = (m.packets_seen + 1) % 2 ^ 64 } in
      let u = measure_jitter-Untouched now m.last_arrival m1 in
      record {
        next_seq = u.next_seq;
        future = u.future;
        seen = u.seen;
        connected = u.connected;
        last_flush = u.last_flush;
        hold_period = u.hold_period;
      }

  -- The branches of `accept`.
  accept-unseen :
      (now seq : ℕ) (p : List ℕ) (m : ClientMedia O)
      → m.seen ≡ false
      → accept O now seq p m ≡ some (accept_first O now seq p (arrive O now m))
  unfolding accept
  accept-unseen now seq p m unseen = ground arith

  accept-behind :
      (now seq : ℕ) (p : List ℕ) (m : ClientMedia O)
      → m.seen ≡ true
      → 2 ^ 31 ≤ ahead m.next_seq seq
      → accept O now seq p m ≡ some (accept_late O (arrive O now m))
  unfolding accept
  accept-behind now seq p m seen behind = ground arith

  pub accept-expected :
      (now seq : ℕ) (p : List ℕ) (m : ClientMedia O)
      → m.seen ≡ true
      → ahead m.next_seq seq ≡ 0
      → accept O now seq p m ≡ flush O now false (accept_next O seq p (arrive O now m))
  unfolding accept
  accept-expected now seq p m seen here = ground arith

  accept-early :
      (now seq : ℕ) (p : List ℕ) (m : ClientMedia O)
      → m.seen ≡ true
      → 0 < ahead m.next_seq seq
      → ahead m.next_seq seq < 2 ^ 31
      → accept O now seq p m ≡ flush O now false (accept_future O seq p (arrive O now m))
  unfolding accept
  accept-early now seq p m seen ahead_some near = ground arith

  -- Two states with the same window.
  pub IsWindow-same :
      {m m' : ClientMedia O}
      → m'.next_seq < 2 ^ 32
      → m'.future ≡ m.future
      → IsWindow O m
      → IsWindow O m'
  IsWindow-same below same w = record {
    seq_in = below;
    keys_in = rw same w.keys_in;
    distinct = rw same w.distinct;
  }

  accept_future-window :
      (seq : ℕ) (p : List ℕ) (m : ClientMedia O)
      → IsWindow O m
      → seq < 2 ^ 32
      → length m.future ≤ 64
      → IsWindow O (accept_future O seq p m) × (length (accept_future O seq p m).future ≤ 64)
  unfolding accept_future
  accept_future-window seq p m w below room = elim (Bool-cases (ltb (length m.future) 64)) [
    | inl free ↦
        let shorter = length-delete_le seq m.future in
        let few : length m.future < 64 = ground arith in
        rw free (
          record {
            seq_in = w.seq_in;
            keys_in = (below, delete-KeysIn seq m.future w.keys_in);
            distinct = insert-IsMap seq p m.future w.distinct;
          },
          omega (arith, shorter, few),
        )
    | inr full ↦
        rw full (record { seq_in = w.seq_in; keys_in = w.keys_in; distinct = w.distinct }, room)
  ]

  arrive-window : (now : ℕ) (m : ClientMedia O) → IsWindow O m → IsWindow O (arrive O now m)
  arrive-window now m w =
      let u = arrive-Untouched now m in IsWindow-same (rw u.next_seq w.seq_in) u.future w

  accept_first-future :
      (now seq : ℕ) (p : List ℕ) (m : ClientMedia O)
      → ((accept_first O now seq p m).future ≡ m.future)
        × ((accept_first O now seq p m).next_seq ≡ (seq + 1) % 2 ^ 32)
  unfolding accept_first
  accept_first-future now seq p m =
      let e =
        emit-Emitted O (record m { seen = true; next_seq = (seq + 1) % 2 ^ 32 }) (some p) false in
      (e.future, e.next_seq)

  pub accept_next-future :
      (seq : ℕ) (p : List ℕ) (m : ClientMedia O)
      → ((accept_next O seq p m).future ≡ m.future)
        × ((accept_next O seq p m).next_seq ≡ (seq + 1) % 2 ^ 32)
  unfolding accept_next
  accept_next-future seq p m = let e = emit-Emitted O m (some p) false in (e.future, refl)

  accept_late-future :
      (m : ClientMedia O)
      → ((accept_late O m).future ≡ m.future) × ((accept_late O m).next_seq ≡ m.next_seq)
  unfolding accept_late
  accept_late-future m = (refl, refl)

  -- A frame is always taken in without an endless loop, and the window stays one: uint32 numbers,
  -- none of them twice, at most 64 frames held.
  pub accept-IsWindow :
      (now seq : ℕ) (payload : List ℕ) (m : ClientMedia O)
      → IsWindow O m
      → length m.future ≤ 64
      → seq < 2 ^ 32
      → (m' : ClientMedia O) × (accept O now seq payload m ≡ some m')
        × IsWindow O m'
        × (length m'.future ≤ 64)
  accept-IsWindow now seq p m w room below =
      let m1 = arrive O now m in
      let w1 = arrive-window now m w in
      let u = arrive-Untouched now m in
      let room1 : length m1.future ≤ 64 = rw u.future room in
      let next_in : (seq + 1) % 2 ^ 32 < 2 ^ 32 = omega arith in
      elim (Bool-cases m.seen) [
        | inr unseen ↦
            let (same, next) = accept_first-future now seq p m1 in
            (
              accept_first O now seq p m1,
              accept-unseen now seq p m unseen,
              IsWindow-same (rw next next_in) same w1,
              rw same room1,
            )
        | inl seen ↦ elim (dec_lt (ahead m.next_seq seq) (2 ^ 31)) [
          | no behind ↦
              let (same, next) = accept_late-future m1 in
              (
                accept_late O m1,
                accept-behind now seq p m seen (omega arith),
                IsWindow-same (rw next w1.seq_in) same w1,
                rw same room1,
              )
          | yes near ↦ elim (ℕ_discrete (ahead m.next_seq seq) 0) [
            | yes here ↦
                let (same, next) = accept_next-future seq p m1 in
                let w2 = IsWindow-same (rw next next_in) same w1 in
                let (m', ends, w', le) = flush-total O now false (accept_next O seq p m1) w2 in
                let room2 : length (accept_next O seq p m1).future ≤ 64 = rw same room1 in
                (m', accept-expected now seq p m seen here ∙ ends, w', omega (arith, le, room2))
            | no ne ↦
                let (w2, room2) = accept_future-window seq p m1 w1 below room1 in
                let (m', ends, w', le) = flush-total O now false (accept_future O seq p m1) w2 in
                (
                  m',
                  accept-early now seq p m seen (omega arith) near ∙ ends,
                  w',
                  omega (arith, le, room2),
                )
          ]
        ]
      ]

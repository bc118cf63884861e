-- ===== src/Engine/Media/Tick.antt =====
-- engine/internal/engine/media.go: `flush` and `tick`.
use remoteau.Common.{
  ap, inl, inr, Bool-cases, ℕ, ◌+◌, ◌-◌, ◌%◌, ◌^◌, ◌≤◌, ◌≡◌, refl, ◌∙◌, Bool, true, false, not,
  ◌&&◌, Option, some, length, ltb, arith,
}
use remoteau.Engine.Media.{Outside, ClientMedia, flush_loop, flush, tick, measure_depth, measured}
use remoteau.Engine.Media.Span.{span, span-le}
use remoteau.Engine.Media.Flush.{IsWindow, Flushed, flush_loop-Flushed}

module _ (O : Outside) where
  -- What the two changes around the loop leave alone.
  framed :
      {force : Bool} {rounds : ℕ} (now : ℕ) (m m' : ClientMedia O)
      → Flushed O force rounds (record m { last_flush = now }) m'
      → Flushed O force rounds m (measure_depth O m')
  framed now m m' f = record {
    window = record {
      seq_in = f.window.seq_in;
      keys_in = f.window.keys_in;
      distinct = f.window.distinct;
    };
    seen = f.seen;
    connected = f.connected;
    next_seq = f.next_seq;
    shrinks = f.shrinks;
    drained = f.drained;
    taken = f.taken;
    loss = f.loss;
  }

  same-window :
      (now : ℕ) (m : ClientMedia O) → IsWindow O m → IsWindow O (record m { last_flush = now })
  same-window now m w = record { seq_in = w.seq_in; keys_in = w.keys_in; distinct = w.distinct }

  abbrev pub Ends : Bool → ClientMedia O → Option (ClientMedia O) → Type 0
  Ends force m result =
      (rounds : ℕ) × (m' : ClientMedia O) × (result ≡ some m') × Flushed O force rounds m m'

  flush-due :
      (now : ℕ) (force : Bool) (m : ClientMedia O)
      → m.seen ≡ true
      → (not force && ltb (now - m.last_flush) m.hold_period) ≡ false
      → flush O now force m
        ≡ measured O (flush_loop O (2 ^ 32 + 1) force (record m { last_flush = now }))
  unfolding flush
  flush-due now force m seen due = ground arith

  -- On a stream that has begun, a flush that the hold period does not put off ends, whatever is
  -- held: its loop breaks off before the fuel is used up.
  pub flush-runs :
      (now : ℕ) (force : Bool) (m : ClientMedia O)
      → IsWindow O m
      → m.seen ≡ true
      → (not force && ltb (now - m.last_flush) m.hold_period) ≡ false
      → Ends force m (flush O now force m)
  flush-runs now force m w seen due =
      let m0 = record m { last_flush = now } in
      let (rounds, m', ends, f) =
        flush_loop-Flushed O (2 ^ 32 + 1) force m0 (same-window now m w)
          (omega (arith, span-le m.next_seq m.future)) in
      (
        rounds,
        measure_depth O m',
        flush-due now force m seen due ∙ ap (measured O) ends,
        framed now m m' f,
      )

  tick-seen : (now : ℕ) (m : ClientMedia O) → m.seen ≡ true → tick O now m ≡ flush O now true m
  unfolding tick
  tick-seen now m seen = ground arith

  flush-unseen :
      (now : ℕ) (force : Bool) (m : ClientMedia O) → m.seen ≡ false → flush O now force m ≡ some m
  unfolding flush
  flush-unseen now force m unseen = ground arith

  pub flush-early :
      (now : ℕ) (force : Bool) (m : ClientMedia O)
      → (not force && ltb (now - m.last_flush) m.hold_period) ≡ true
      → flush O now force m ≡ some m
  unfolding flush
  flush-early now force m early = ground arith

  -- Every flush ends, and leaves a window that is no larger.
  pub flush-total :
      (now : ℕ) (force : Bool) (m : ClientMedia O)
      → IsWindow O m
      → (m' : ClientMedia O) × (flush O now force m ≡ some m')
        × IsWindow O m'
        × (length m'.future ≤ length m.future)
  flush-total now force m w = elim (Bool-cases m.seen) [
    | inr unseen ↦ (m, flush-unseen now force m unseen, w, omega arith)
    | inl seen ↦ elim (Bool-cases (not force && ltb (now - m.last_flush) m.hold_period)) [
      | inl early ↦ (m, flush-early now force m early, w, omega arith)
      | inr due ↦
          let (rounds, m', ends, f) = flush-runs now force m w seen due in
          (m', ends, f.window, f.shrinks)
    ]
  ]

  -- The window is empty, and the next number stands behind the last one that was held; what the
  -- numbers passed did not bring counts as lost, up to the wrap of a uint64.
  pub record Emptied (rounds : ℕ) (m m' : ClientMedia O) : Type 0 where
    pub window : IsWindow O m'
    pub future : length m'.future ≡ 0
    pub next_seq : m'.next_seq ≡ (m.next_seq + rounds) % 2 ^ 32
    pub loss : (m'.loss_packets + length m.future) % 2 ^ 64 ≡ (m.loss_packets + rounds) % 2 ^ 64

  -- A tick of a stream that has begun, with a codec, ends, and empties the window in exactly as many
  -- rounds as there are numbers up to the last one held: each of them that no packet brought counts
  -- as lost.
  pub tick-Emptied :
      (now : ℕ) (m : ClientMedia O)
      → IsWindow O m
      → m.seen ≡ true
      → m.connected ≡ true
      → (m' : ClientMedia O) × (tick O now m ≡ some m') × Emptied (span m.next_seq m.future) m m'
  tick-Emptied now m w seen c =
      let (rounds, m', ends, f) = flush-runs now true m w seen refl in
      let (empty, exact) = f.drained refl in
      (
        m',
        tick-seen now m seen ∙ ends,
        record {
          window = f.window;
          future = empty;
          next_seq = rw (← exact) f.next_seq;
          loss = omega (arith, f.loss c, empty, exact);
        },
      )

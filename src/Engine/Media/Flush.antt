-- ===== src/Engine/Media/Flush.antt =====
-- engine/internal/engine/media.go: the loop of `flush`.
use remoteau.Common.{
  zero, suc, inl, inr, ℕ, ◌+◌, ◌-◌, ◌%◌, ◌^◌, ◌≤◌, ◌<◌, ◌≡◌, refl, sym, ◌∙◌, Bool, true, false,
  none, some, List, [], ◌∷◌, length, arith,
}
use remoteau.Common.Assoc.{IsMap, delete-IsMap, length-delete_le}
use remoteau.Engine.Media.{Outside, ClientMedia, flush_round, flush_loop}
use remoteau.Engine.Media.Span.{KeysIn, span, span-pos, span-held, delete-KeysIn}
use remoteau.Engine.Media.Rounds.{Round, flush_round-Round}

empty-span : {A : Type 0} (k : ℕ) (l : List (ℕ × A)) → length l ≡ 0 → span k l ≡ 0
unfolding span
empty-span k [] e = refl
empty-span k (x ∷ l) e = absurd (omega arith)

module _ (O : Outside) where
  -- The window: sequence numbers are uint32 numbers, and no number is held twice.
  pub record IsWindow (m : ClientMedia O) : Type 0 where
    pub seq_in : m.next_seq < 2 ^ 32
    pub keys_in : KeysIn m.future
    pub distinct : IsMap m.future

  -- What a flush leaves: it passed `rounds` numbers and nothing that was held behind the last of
  -- them got lost.
  pub record Flushed (force : Bool) (rounds : ℕ) (m m' : ClientMedia O) : Type 0 where
    pub window : IsWindow m'
    pub seen : m'.seen ≡ m.seen
    pub connected : m'.connected ≡ m.connected
    pub next_seq : m'.next_seq ≡ (m.next_seq + rounds) % 2 ^ 32
    pub shrinks : length m'.future ≤ length m.future
    -- A forced flush empties the window and passes every number up to the last that was held.
    pub drained : force ≡ true → (length m'.future ≡ 0) × (rounds ≡ span m.next_seq m.future)
    -- Any other one passes the numbers of the frames that it takes out.
    pub taken : force ≡ false → length m'.future + rounds ≡ length m.future
    -- What was passed and was not held counts as lost, if there is a codec.
    pub loss :
        m.connected ≡ true
        → (m'.loss_packets + length m.future) % 2 ^ 64
          ≡ (m.loss_packets + rounds + length m'.future) % 2 ^ 64

  loop-stops :
      (fuel : ℕ) (force : Bool) (m : ClientMedia O)
      → flush_round O force m ≡ none
      → flush_loop O (suc fuel) force m ≡ some m
  unfolding flush_loop
  loop-stops fuel force m e = rw (e, flush_loop) refl

  loop-goes_on :
      (fuel : ℕ) (force : Bool) (m m1 : ClientMedia O)
      → flush_round O force m ≡ some m1
      → flush_loop O (suc fuel) force m ≡ flush_loop O fuel force m1
  unfolding flush_loop
  loop-goes_on fuel force m m1 e = rw (e, flush_loop) refl

  Round-IsWindow :
      {force : Bool} (m m' : ClientMedia O) → IsWindow m → Round O force m m' → IsWindow m'
  Round-IsWindow m m' w r = record {
    seq_in = rw r.next_seq (omega arith);
    keys_in = rw r.future (delete-KeysIn m.next_seq m.future w.keys_in);
    distinct = rw r.future (delete-IsMap m.next_seq m.future w.distinct);
  }

  Round-span :
      {force : Bool} (m m' : ClientMedia O)
      → IsWindow m
      → Round O force m m'
      → span m'.next_seq m'.future ≡ span m.next_seq m.future - 1
  Round-span m m' w r = rw (r.next_seq, r.future) (span-held m.next_seq m.future w.seq_in w.keys_in)

  -- Nothing was done: a forced flush stops on an empty window only.
  stopped-Flushed :
      (force : Bool) (m : ClientMedia O)
      → IsWindow m
      → (force ≡ true → length m.future ≡ 0)
      → Flushed force 0 m m
  stopped-Flushed force m w empty = record {
    window = w;
    seen = refl;
    connected = refl;
    next_seq = omega (arith, w.seq_in);
    shrinks = omega arith;
    drained = λ f. (empty f, sym (empty-span m.next_seq m.future (empty f)));
    taken = λ f. omega arith;
    loss = λ c. omega arith;
  }

  Round-shrinks :
      {force : Bool} (m m' : ClientMedia O)
      → Round O force m m'
      → length m'.future ≤ length m.future
  Round-shrinks m m' r = rw r.future (length-delete_le m.next_seq m.future)

  -- One round before the others.
  Round-Flushed :
      (force : Bool) (rounds : ℕ) (m m1 m' : ClientMedia O)
      → IsWindow m
      → Round O force m m1
      → Flushed force rounds m1 m'
      → Flushed force (rounds + 1) m m'
  Round-Flushed force rounds m m1 m' w r f =
      let positive = span-pos m.next_seq m.future r.had in
      let shorter = Round-span m m1 w r in
      record {
        window = f.window;
        seen = f.seen ∙ r.seen;
        connected = f.connected ∙ r.connected;
        next_seq = rw f.next_seq (omega (arith, r.next_seq));
        shrinks = omega (arith, f.shrinks, Round-shrinks m m1 r);
        drained = λ e. ((f.drained e).0, omega (arith, (f.drained e).1, shorter, positive));
        taken = λ e. omega (arith, f.taken e, r.held e);
        loss = λ c. omega (arith, f.loss (r.connected ∙ c), r.loss c);
      }

  -- With fuel above the span the loop ends.
  pub flush_loop-Flushed :
      (fuel : ℕ) (force : Bool) (m : ClientMedia O)
      → IsWindow m
      → span m.next_seq m.future < fuel
      → (rounds : ℕ) × (m' : ClientMedia O) × (flush_loop O fuel force m ≡ some m')
        × Flushed force rounds m m'
  flush_loop-Flushed zero force m w enough = absurd (omega arith)
  flush_loop-Flushed (suc fuel) force m w enough = elim (flush_round-Round O force m w.distinct) [
    | inl (stops, empty) ↦ (0, m, loop-stops fuel force m stops, stopped-Flushed force m w empty)
    | inr (m1, goes_on, r) ↦
        let positive = span-pos m.next_seq m.future r.had in
        let shorter = Round-span m m1 w r in
        let (rounds, m', ends, f) =
          flush_loop-Flushed fuel force m1 (Round-IsWindow m m1 w r)
            (omega (arith, enough, shorter, positive)) in
        (
          rounds + 1,
          m',
          loop-goes_on fuel force m m1 goes_on ∙ ends,
          Round-Flushed force rounds m m1 m' w r f,
        )
  ]

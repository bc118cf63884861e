-- ===== src/Engine/Media/Rounds.antt =====
-- engine/internal/engine/media.go: one round of the loop of `flush`.
use remoteau.Common.{
  ◌+◌, ◌%◌, ◌^◌, ◌<◌, ◌≡◌, refl, sym, ◌∙◌, Bool, true, false, not, none, some, length, ◌==◌,
  if◌then◌else◌, arith, inl, inr, ◌⊎◌, Bool-cases, Option-cases,
}
use remoteau.Common.Assoc.{lookup, delete, IsMap, delete-absent, length-delete}
use remoteau.Engine.Media.{Outside, ClientMedia, emit, conceal, flush_round, advance}
use remoteau.Engine.Media.Span.{next_of}
use remoteau.Engine.Media.Emit.{emit-Emitted, conceal-Emitted}

module _ (O : Outside) where
  -- A round of a flush moves on by one number and takes the frame of that number out of the window
  -- if it is there; a missing one counts as lost, which only a forced flush lets happen.
  pub record Round (force : Bool) (m m' : ClientMedia O) : Type 0 where
    pub next_seq : m'.next_seq ≡ next_of m.next_seq
    pub future : m'.future ≡ delete m.next_seq m.future
    pub connected : m'.connected ≡ m.connected
    pub seen : m'.seen ≡ m.seen
    pub had : 0 < length m.future
    pub held : force ≡ false → length m'.future + 1 ≡ length m.future
    pub loss :
        m.connected ≡ true
        → (m'.loss_packets + length m.future) % 2 ^ 64
          ≡ (m.loss_packets + 1 + length m'.future) % 2 ^ 64

  flush_round-missing :
      (m : ClientMedia O) (force : Bool)
      → lookup m.next_seq m.future ≡ none
      → flush_round O force m
        ≡ (if length m.future == 0 then none else if not force then none else some (conceal O m))
  unfolding flush_round
  flush_round-missing m force absent = rw absent refl

  conceal-Round :
      (m : ClientMedia O)
      → lookup m.next_seq m.future ≡ none
      → 0 < length m.future
      → Round true m (conceal O m)
  conceal-Round m absent some_left =
      let e = conceal-Emitted O m in
      let same = delete-absent m.next_seq m.future absent in
      record {
        next_seq = e.next_seq;
        future = e.future ∙ sym same;
        connected = e.connected;
        seen = e.seen;
        had = some_left;
        held = λ f. absurd (cc);
        loss = λ c. rw e.future (omega (arith, e.loss c));
      }

  missing :
      (force : Bool) (m : ClientMedia O)
      → lookup m.next_seq m.future ≡ none
      → ((flush_round O force m ≡ none) × (force ≡ true → length m.future ≡ 0))
        ⊎ ((m' : ClientMedia O) × (flush_round O force m ≡ some m') × Round force m m')
  missing false m absent =
      inl (rw (flush_round-missing m false absent) (ground arith), λ f. absurd (cc))
  missing true m absent = elim (Bool-cases (length m.future == 0)) [
    | inl none_left ↦
        inl (rw (flush_round-missing m true absent, none_left) refl, λ f. ground arith)
    | inr some_left ↦ inr (
      conceal O m,
      rw (flush_round-missing m true absent, some_left) refl,
      conceal-Round m absent (ground arith),
    )
  ]

  -- A round either breaks off, which a forced flush does on an empty window only, or moves on.
  pub flush_round-Round :
      (force : Bool) (m : ClientMedia O)
      → IsMap m.future
      → ((flush_round O force m ≡ none) × (force ≡ true → length m.future ≡ 0))
        ⊎ ((m' : ClientMedia O) × (flush_round O force m ≡ some m') × Round force m m')
  unfolding flush_round
  flush_round-Round force m distinct = elim (Option-cases (lookup m.next_seq m.future)) [
    | inl absent ↦ missing force m absent
    | inr (buf, there) ↦
        let m1 = advance O (record m { future = delete m.next_seq m.future }) in
        let e = emit-Emitted O m1 (some buf) false in
        let shorter = length-delete m.next_seq m.future distinct there in
        inr (
          emit O m1 (some buf) false,
          rw there refl,
          record {
            next_seq = e.next_seq;
            future = e.future;
            connected = e.connected;
            seen = e.seen;
            had = omega (arith, shorter);
            held = λ f. rw e.future shorter;
            loss = λ c. rw e.future (omega (arith, e.loss c, shorter));
          },
        )
  ]

-- ===== src/Engine/Media/Duplicate.antt =====
-- engine/internal/engine/media.go: a second copy of a frame that is held and due.
use remoteau.Common.{
  ℕ, ◌-◌, ◌^◌, ◌<◌, ◌≡◌, ◌∙◌, true, false, some, List, [], ◌∷◌, ltb, ◌==◌, arith, inl, inr,
  Bool-cases,
}
use remoteau.Common.Assoc.{lookup}
use remoteau.Engine.Media.{Outside, ClientMedia, arrive, accept, accept_next, tick, ahead}
use remoteau.Engine.Media.Span.{next_of, span, span-le}
use remoteau.Engine.Media.Emit.{emit-Emitted}
use remoteau.Engine.Media.Flush.{IsWindow}
use remoteau.Engine.Media.Tick.{Emptied, tick-Emptied, flush-early}
use remoteau.Engine.Media.Accept.{
  arrive-Untouched, accept-expected, accept_next-future, IsWindow-same,
}

-- A number that is held lies within the span.
span-reaches :
    {A : Type 0} (next k : ℕ) (m : List (ℕ × A)) {v : A}
    → lookup k m ≡ some v
    → ahead next k < span next m
unfolding span
span-reaches next k [] e = absurd (cc)
span-reaches next k ((j, w) ∷ m) {v} e = elim (Bool-cases (k == j)) [
  | inl same ↦ let there : k ≡ j = ground arith in rw there (omega arith)
  | inr other ↦
      let found : lookup k m ≡ some v = ground arith in omega (arith, span-reaches next k m found)
]

-- If the number just passed is held, the span is the whole circle.
span-circle :
    {A : Type 0} (k : ℕ) (m : List (ℕ × A)) {v : A}
    → k < 2 ^ 32
    → lookup k m ≡ some v
    → span (next_of k) m ≡ 2 ^ 32
span-circle k m below e = omega (arith, span-reaches (next_of k) k m e, span-le (next_of k) m)

module _ (O : Outside) where
  accept_next-rest :
      (seq : ℕ) (p : List ℕ) (m : ClientMedia O)
      → ((accept_next O seq p m).seen ≡ m.seen)
        × ((accept_next O seq p m).last_flush ≡ m.last_flush)
        × ((accept_next O seq p m).hold_period ≡ m.hold_period)
        × ((accept_next O seq p m).connected ≡ m.connected)
  unfolding accept_next
  accept_next-rest seq p m =
      let e = emit-Emitted O m (some p) false in (e.seen, e.last_flush, e.hold_period, e.connected)

  Emptied-rounds : {i j : ℕ} {m1 m2 : ClientMedia O} → i ≡ j → Emptied O i m1 m2 → Emptied O j m1 m2
  Emptied-rounds e f = rw (← e) f

  -- A frame that is held when its own number is due stays in the window if a second copy of it comes
  -- in within the hold period; the next tick then goes once round all uint32 numbers, and conceals
  -- each of them that is not held.
  pub accept-duplicate :
      (now later : ℕ) (payload : List ℕ) (m : ClientMedia O) {held : List ℕ}
      → IsWindow O m
      → m.seen ≡ true
      → m.connected ≡ true
      → lookup m.next_seq m.future ≡ some held
      → now - m.last_flush < m.hold_period
      → (m1 : ClientMedia O) × (m2 : ClientMedia O) × (accept O now m.next_seq payload m ≡ some m1)
        × (tick O later m1 ≡ some m2)
        × Emptied O (2 ^ 32) m1 m2
  accept-duplicate now later p m w seen c held early =
      let m0 = arrive O now m in
      let m1 = accept_next O m.next_seq p m0 in
      let u = arrive-Untouched O now m in
      let (same, next) = accept_next-future O m.next_seq p m0 in
      let (seen1, last1, hold1, on1) = accept_next-rest m.next_seq p m0 in
      let here : ahead m.next_seq m.next_seq ≡ 0 = omega (arith, w.seq_in) in
      let whole : span m1.next_seq m1.future ≡ 2 ^ 32 =
        rw (next, same, u.future) (span-circle m.next_seq m.future w.seq_in held) in
      let off : ltb (now - m1.last_flush) m1.hold_period ≡ true =
        rw (last1, hold1, u.last_flush, u.hold_period) (ground arith) in
      let w1 = IsWindow-same O (rw next (omega arith)) (same ∙ u.future) w in
      let (m2, ends, f) =
        tick-Emptied O later m1 w1 (seen1 ∙ u.seen ∙ seen) (on1 ∙ u.connected ∙ c) in
      (
        m1,
        m2,
        accept-expected O now m.next_seq p m seen here ∙ flush-early O now false m1 off,
        ends,
        Emptied-rounds whole f,
      )

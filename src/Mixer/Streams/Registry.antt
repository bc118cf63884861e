-- ===== src/Mixer/Streams/Registry.antt =====
-- engine/internal/mixer/mixer.go: adding and removing streams.
use remoteau.Common.{
  ℕ, ◌≡◌, refl, ◌∙◌, ap, Bool, true, false, List, [], ◌∷◌, ◌++◌, length, ◌==◌, if◌then◌else◌,
  Result, ok, err, reject_if, ◌>>=◌, ◌>>◌, inl, inr, Bool-cases,
}
use remoteau.Protocol.Streams.{bytes_equal, bytes_equal_refl, bytes_equal_sym}
use remoteau.Mixer.JitterBuffer as Buffers
use remoteau.Mixer.JitterBuffer.{JitterBuffer, new_jitter_buffer}
use remoteau.Mixer.JitterBuffer.Inv.{new_jitter_buffer-IsValid}
use remoteau.Mixer.Samples.{Floats}
use remoteau.Mixer.Streams.{
  Mixer, Stream, Error, buffer_error, no_id, id_taken, has_id, without_id, stream_of, add_stream,
  remove_stream,
}

both_false : (a b : Bool) → (if a then true else b) ≡ false → (a ≡ false) × (b ≡ false)
both_false true b h = absurd (cc)
both_false false b h = (refl, h)

chain-inv :
    {B : Type 0} (empty : Bool) (r : Result Error JitterBuffer) (taken : Bool)
    (f : JitterBuffer → B) {out : B}
    → (reject_if empty no_id >> (r >>= λ b. reject_if taken id_taken >>= λ _. ok (f b))) ≡ ok out
    → (b : JitterBuffer) × (r ≡ ok b) × (taken ≡ false) × (f b ≡ out)
chain-inv true r taken f h = absurd (cc)
chain-inv false (err e) taken f h = absurd (cc)
chain-inv false (ok b) true f h = absurd (cc)
chain-inv false (ok b) false f h = (b, refl, refl, cc)

buffer_error-ok :
    {A : Type 0} (r : Result Buffers.Error A) {a : A} → buffer_error r ≡ ok a → r ≡ ok a
buffer_error-ok (ok b) h = cc
buffer_error-ok (err e) h = absurd (cc)

module _ (F : Floats) where
  abbrev pub HasDistinctIds : List (Stream F) → Type 0
  HasDistinctIds [] = Unit
  HasDistinctIds (s ∷ rest) = (has_id F s.id rest ≡ false) × HasDistinctIds rest

  abbrev pub HasValidBuffers : List (Stream F) → Type 0
  HasValidBuffers [] = Unit
  HasValidBuffers (s ∷ rest) = Buffers.Inv.IsValid s.buffer × HasValidBuffers rest

  -- No id is there twice, and every jitter buffer is valid.
  pub record IsRegistry (m : Mixer F) : Type 0 where
    pub distinct : HasDistinctIds m.streams
    pub buffers : HasValidBuffers m.streams

  has_id-append :
      (id : List ℕ) (xs : List (Stream F)) (s : Stream F)
      → has_id F id xs ≡ false
      → bytes_equal s.id id ≡ false
      → has_id F id (xs ++ (s ∷ [])) ≡ false
  has_id-append id [] s h other = rw other refl
  has_id-append id (x ∷ xs) s h other =
      let (differs, absent) = both_false (bytes_equal x.id id) (has_id F id xs) h in
      rw differs (has_id-append id xs s absent other)

  distinct-append :
      (xs : List (Stream F)) (s : Stream F)
      → HasDistinctIds xs
      → has_id F s.id xs ≡ false
      → HasDistinctIds (xs ++ (s ∷ []))
  distinct-append [] s d h = (refl, tt)
  distinct-append (x ∷ xs) s (fresh, d) h =
      let (differs, absent) = both_false (bytes_equal x.id s.id) (has_id F s.id xs) h in
      (
        has_id-append x.id xs s fresh (bytes_equal_sym s.id x.id ∙ differs),
        distinct-append xs s d absent,
      )

  valid-append :
      (xs : List (Stream F)) (s : Stream F)
      → HasValidBuffers xs
      → Buffers.Inv.IsValid s.buffer
      → HasValidBuffers (xs ++ (s ∷ []))
  valid-append [] s h v = (v, tt)
  valid-append (x ∷ xs) s (vx, h) v = (vx, valid-append xs s h v)

  -- The one with the id comes out again, and nothing else.
  has_id-last : (xs : List (Stream F)) (s : Stream F) → has_id F s.id (xs ++ (s ∷ [])) ≡ true
  has_id-last [] s = rw (bytes_equal_refl s.id) refl
  has_id-last (x ∷ xs) s = elim (Bool-cases (bytes_equal x.id s.id)) [
    | inl same ↦ rw same refl
    | inr differs ↦ rw differs (has_id-last xs s)
  ]

  without_id-last :
      (xs : List (Stream F)) (s : Stream F)
      → has_id F s.id xs ≡ false
      → without_id F s.id (xs ++ (s ∷ [])) ≡ xs
  without_id-last [] s h = rw (bytes_equal_refl s.id) refl
  without_id-last (x ∷ xs) s h =
      let (differs, absent) = both_false (bytes_equal x.id s.id) (has_id F s.id xs) h in
      rw differs (ap (λ rest. x ∷ rest) (without_id-last xs s absent))

  -- What a successful `AddStream` went through.
  add_stream-inv :
      (m : Mixer F) (id name addr : List ℕ) {out : Mixer F × Stream F}
      → add_stream F m id name addr ≡ ok out
      → (b : JitterBuffer) × (new_jitter_buffer (record m.jitter { format = m.format }) ≡ ok b)
        × (has_id F id m.streams ≡ false)
        × (let s = stream_of F id name addr b in
            (record m { streams = m.streams ++ (s ∷ []) }, s) ≡ out)
  unfolding add_stream
  add_stream-inv m id name addr h =
      let made = new_jitter_buffer (record m.jitter { format = m.format }) in
      let (b, ok_b, free, same) =
        chain-inv (length id == 0) (buffer_error made) (has_id F id m.streams)
          (λ b.
            let s = stream_of F id name addr b in (record m { streams = m.streams ++ (s ∷ []) }, s))
          h in
      (b, buffer_error-ok made ok_b, free, same)

  -- A stream that `AddStream` adds stands behind the others, under an id that none of them has, with
  -- an empty jitter buffer, and the mixer stays well formed; `RemoveStream` of that id then gives the
  -- mixer back as it was.
  pub remove_stream-add_stream :
      (m : Mixer F) (id name addr : List ℕ) {m' : Mixer F} {s : Stream F}
      → IsRegistry m
      → add_stream F m id name addr ≡ ok (m', s)
      → IsRegistry m'
        × (m'.streams ≡ m.streams ++ (s ∷ []))
        × (s.id ≡ id)
        × (s.buffer.used ≡ 0)
        × (remove_stream F m' id ≡ (m, true))
  unfolding remove_stream
  remove_stream-add_stream m id name addr r h =
      let (b, made, free, same) = add_stream-inv m id name addr h in
      let (valid, empty, _) =
        new_jitter_buffer-IsValid (record m.jitter { format = m.format }) made in
      let s0 = stream_of F id name addr b in
      rw (← ap (λ x. x.0) same, ← ap (λ x. x.1) same)
        (
          record {
            distinct = distinct-append m.streams s0 r.distinct free;
            buffers = valid-append m.streams s0 r.buffers valid;
          },
          refl,
          refl,
          empty,
          rw (has_id-last m.streams s0) (
              ap (λ left. (record m { streams = left }, true)) (without_id-last m.streams s0 free)),
        )

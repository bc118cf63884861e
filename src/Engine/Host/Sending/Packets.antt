-- ===== src/Engine/Host/Sending/Packets.antt =====
-- engine/internal/engine/host.go: the packets that a send loop has sent, against the frames of which
-- they are made.
use remoteau.Common.{
  ℕ, suc, ◌+◌, ◌%◌, ◌^◌, ◌<◌, ◌≡◌, refl, sym, ap, ◌∙◌, List, [], ◌∷◌, ◌++◌, append_assoc, All,
  length, ok, arith,
}
use remoteau.Protocol.V2.Media.{Media, decode_media}

abbrev pub bytes_of : List (List ℕ) → List ℕ
bytes_of [] = []
bytes_of (f ∷ fs) = f ++ bytes_of fs

-- A packet that a receiver decodes to this frame, with this sequence number and format generation.
abbrev pub IsPacket : ℕ → ℕ → List ℕ → List ℕ → Type 0
IsPacket gen seq frame packet =
    (m : Media) × (decode_media packet ≡ ok m)
    × (m.payload ≡ frame)
    × (m.seq ≡ seq)
    × (m.format_gen ≡ gen % 2 ^ 16)

-- The packets are those of the frames, in order, numbered from `seq` on modulo 2^32.
abbrev pub AllSent : ℕ → ℕ → List (List ℕ) → List (List ℕ) → Type 0
AllSent gen seq [] [] = Unit
AllSent gen seq [] (p ∷ ps) = ⊥
AllSent gen seq (f ∷ fs) [] = ⊥
AllSent gen seq (f ∷ fs) (p ∷ ps) = IsPacket gen seq f p × AllSent gen ((seq + 1) % 2 ^ 32) fs ps

pub AllSent-from :
    (gen : ℕ) (fs ps : List (List ℕ)) {seq seq' : ℕ}
    → seq ≡ seq'
    → AllSent gen seq fs ps
    → AllSent gen seq' fs ps
AllSent-from gen fs ps same h = rw same at h

pub AllSent-append :
    (gen seq : ℕ) (fs ps gs qs : List (List ℕ))
    → seq < 2 ^ 32
    → AllSent gen seq fs ps
    → AllSent gen ((seq + length fs) % 2 ^ 32) gs qs
    → AllSent gen seq (fs ++ gs) (ps ++ qs)
AllSent-append gen seq [] [] gs qs low h k =
    let same : (seq + 0) % 2 ^ 32 ≡ seq = omega arith in AllSent-from gen gs qs same k
AllSent-append gen seq [] (p ∷ ps) gs qs low h k = absurd h
AllSent-append gen seq (f ∷ fs) [] gs qs low h k = absurd h
AllSent-append gen seq (f ∷ fs) (p ∷ ps) gs qs low (packet, h) k =
    let next = (seq + 1) % 2 ^ 32 in
    let same : (seq + suc (length fs)) % 2 ^ 32 ≡ (next + length fs) % 2 ^ 32 = omega arith in
    (packet, AllSent-append gen next fs ps gs qs (omega arith) h (AllSent-from gen gs qs same k))

pub All-append :
    (P : List ℕ → Type 0) (xs ys : List (List ℕ)) → All P xs → All P ys → All P (xs ++ ys)
All-append P [] ys h k = k
All-append P (x ∷ xs) ys (p, h) k = (p, All-append P xs ys h k)

pub bytes_of-append : (xs ys : List (List ℕ)) → bytes_of (xs ++ ys) ≡ bytes_of xs ++ bytes_of ys
bytes_of-append [] ys = refl
bytes_of-append (x ∷ xs) ys =
    ap (λ (t : List ℕ). x ++ t) (bytes_of-append xs ys)
    ∙ sym (append_assoc x (bytes_of xs) (bytes_of ys))

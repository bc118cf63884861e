-- ===== src/Discovery/Ports.antt =====
-- engine/internal/discovery/ports.go and targets.go: the lists of ports and of targets, without what
-- is there twice. Ports that are given are signed.
mod Tests
use remoteau.Common.{
  ℕ, ◌%◌, ◌^◌, ◌≤◌, ◌<◌, ◌≡◌, refl, sym, ap, ◌∙◌, Bool, true, false, not, ◌||◌, List, [], ◌∷◌, ◌++◌,
  All, length, map, ltb, ◌==◌, if◌then◌else◌, Result, ok, err, reject_if, ◌>>=◌, ◌>>◌, arith, inl,
  inr, Bool-cases,
}
use remoteau.Common.Int.{ℤ, pos, pos_part, leb_ℤ, ltb_ℤ}

pub data Error : Type 0 where
  no_ports port_out_of_range : Error

-- `seen` in the two loops.
abbrev pub has : ℕ → List ℕ → Bool
has n [] = false
has n (m ∷ ms) = let later = has n ms in if m == n then true else later

-- The loop of `normalizeDiscoveryPorts`; the ports that are kept are those seen.
unfoldable pub normalize_loop : List ℕ → List ℤ → Result Error (List ℕ)
normalize_loop normalized [] = ok normalized
normalize_loop normalized (port ∷ ports) =
    let p = pos_part port in
    let rest =
      normalize_loop (if has p normalized then normalized else normalized ++ (p ∷ [])) ports in
    if leb_ℤ port (pos 0) || ltb_ℤ (pos 65535) port then err port_out_of_range else rest

-- `normalizeDiscoveryPorts`
unfoldable pub normalize_discovery_ports : List ℤ → Result Error (List ℕ)
unfolding normalize_loop
normalize_discovery_ports ports = do reject_if (length ports == 0) no_ports; normalize_loop [] ports

-- No element is there twice.
abbrev pub IsDistinct : List ℕ → Type 0
IsDistinct [] = Unit
IsDistinct (x ∷ xs) = (has x xs ≡ false) × IsDistinct xs

has-append : (n m : ℕ) (xs : List ℕ) → has n (xs ++ (m ∷ [])) ≡ has n xs || m == n
has-append n m [] = ground arith
has-append n m (x ∷ xs) = ground (arith, has-append n m xs)

IsDistinct-append :
    (n : ℕ) (xs : List ℕ) → IsDistinct xs → has n xs ≡ false → IsDistinct (xs ++ (n ∷ []))
IsDistinct-append n [] d h = (refl, tt)
IsDistinct-append n (x ∷ xs) (fresh, d) h =
    (ground (arith, has-append x n xs), IsDistinct-append n xs d (ground arith))

in_range_of :
    (port : ℤ)
    → (leb_ℤ port (pos 0) || ltb_ℤ (pos 65535) port) ≡ false
    → (0 < pos_part port) × (pos_part port ≤ 65535)
in_range_of port good = ground arith

same_has : (n p : ℕ) (xs : List ℕ) → has p xs ≡ true → p ≡ n → has n xs ≡ true
same_has n p xs h e = rw (← e) h

-- What a run of the loop makes of the ports that are kept so far.
pub record Normalized (before after : List ℕ) (ports : List ℤ) : Type 0 where
  pub distinct : IsDistinct after
  pub in_range : All (λ (p : ℤ). (0 < pos_part p) × (pos_part p ≤ 65535)) ports
  pub members : (n : ℕ) → has n after ≡ has n before || has n (map pos_part ports)

normalize_loop-Normalized :
    (before : List ℕ) (ports : List ℤ) {after : List ℕ}
    → IsDistinct before
    → normalize_loop before ports ≡ ok after
    → Normalized before after ports
unfolding normalize_loop
normalize_loop-Normalized before [] {after} d h =
    let same : before ≡ after = ground arith in
    rw (← same) (record { distinct = d; in_range = tt; members = λ n. ground arith })
normalize_loop-Normalized before (port ∷ ports) {after} d h =
    let p = pos_part port in
    elim (Bool-cases (leb_ℤ port (pos 0) || ltb_ℤ (pos 65535) port)) [
      | inl bad ↦ absurd (ground arith)
      | inr good ↦ elim (Bool-cases (has p before)) [
        | inl old ↦
            let r = normalize_loop-Normalized before ports d (ground arith) in
            record {
              distinct = r.distinct;
              in_range = (in_range_of port good, r.in_range);
              members = λ n. ground (arith, r.members n, same_has n p before old);
            }
        | inr new ↦
            let r =
              normalize_loop-Normalized (before ++ (p ∷ [])) ports
                (IsDistinct-append p before d new) (ground arith) in
            record {
              distinct = r.distinct;
              in_range = (in_range_of port good, r.in_range);
              members = λ n. ground (arith, r.members n, has-append n p before);
            }
      ]
    ]

normalize_loop-total :
    (before : List ℕ) (ports : List ℤ)
    → All (λ (p : ℤ). (0 < pos_part p) × (pos_part p ≤ 65535)) ports
    → (after : List ℕ) × (normalize_loop before ports ≡ ok after)
unfolding normalize_loop
normalize_loop-total before [] h = (before, refl)
normalize_loop-total before (port ∷ ports) (in_range, h) =
    let p = pos_part port in
    let good : (leb_ℤ port (pos 0) || ltb_ℤ (pos 65535) port) ≡ false = ground arith in
    let (after, e) =
      normalize_loop-total (if has p before then before else before ++ (p ∷ [])) ports h in
    (after, rw good e)

-- What `normalizeDiscoveryPorts` returns has each given port once and no other, and all were in range;
-- and it returns such a list whenever there is a port and all are from 1 to 65535.
pub normalize_discovery_ports-Normalized :
    (ports : List ℤ)
    → ((after : List ℕ) → normalize_discovery_ports ports ≡ ok after → Normalized [] after ports)
      × (0 < length ports
          → All (λ (p : ℤ). (0 < pos_part p) × (pos_part p ≤ 65535)) ports
          → (after : List ℕ) × (normalize_discovery_ports ports ≡ ok after))
unfolding normalize_discovery_ports
normalize_discovery_ports-Normalized [] =
    (λ after e. absurd (cc), λ some_port h. absurd (omega arith))
normalize_discovery_ports-Normalized (port ∷ ports) =
    let some_ports : (length (port ∷ ports) == 0) ≡ false = ground arith in
    (
      λ after e.
          normalize_loop-Normalized [] (port ∷ ports) tt (
            ap (λ b. reject_if b no_ports >> normalize_loop [] (port ∷ ports)) (sym some_ports)
            ∙ e),
      λ some_port h. rw some_ports (normalize_loop-total [] (port ∷ ports) h),
    )

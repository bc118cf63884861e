-- ===== src/Relay/Registration/Matches.antt =====
-- engine/internal/relay/relay.go: which connections a relay splices.
use remoteau.Common.{
  ℕ, zero, suc, ◌≢◌, append_assoc, length-append, ◌+◌, ◌≤◌, ◌<◌, ◌≡◌, refl, sym, ap, ◌∙◌, Option,
  none, some, List, [], ◌∷◌, ◌++◌, length, ltb, ◌==◌, if◌then◌else◌, arith, inl, inr, Bool-cases,
  Option-cases,
}
use remoteau.Protocol.Streams.{bytes_equal, bytes_equal_sound}
use remoteau.Relay.Registration.{
  Registration, role_host, Waiting, find, without, Splice, register, run,
}

abbrev pub uses : ℕ → List Splice → ℕ
uses host [] = 0
uses host (s ∷ ss) = (if s.host == host then 1 else 0) + uses host ss

-- How often a connection waits.
abbrev pub waits : ℕ → Waiting → ℕ
waits host [] = 0
waits host ((_, conn) ∷ w) = (if conn == host then 1 else 0) + waits host w

waits-without : (host : ℕ) (id : List ℕ) (w : Waiting) → waits host (without id w) ≤ waits host w
waits-without host id [] = omega arith
waits-without host id ((j, conn) ∷ w) = ground (arith, waits-without host id w)

waits-find :
    (id : List ℕ) (w : Waiting) {conn : ℕ}
    → find id w ≡ some conn
    → waits conn (without id w) + 1 ≤ waits conn w
waits-find id [] h = cc
waits-find id ((j, c) ∷ w) {conn} h = elim (Bool-cases (bytes_equal j id)) [
  | inl same ↦ ground (arith, waits-without conn id w)
  | inr other ↦
      let found : find id w ≡ some conn = ground arith in
      let fewer = waits-find id w found in rw other (omega (arith, fewer))
]

-- A host connection is spliced at most as often as it waits, or once if it is still to come.
uses-le :
    (w : Waiting) (conn : ℕ) (rs : List Registration) (host : ℕ)
    → uses host (run w conn rs) ≤ waits host w + (if ltb host conn then 0 else 1)
unfolding run register
uses-le w conn [] host = omega arith
uses-le w conn (r ∷ rs) host = elim (Bool-cases (r.role == role_host)) [
  | inl is_host ↦ rw is_host (
      ground (
        arith,
        uses-le ((r.id, conn) ∷ without r.id w) (conn + 1) rs host,
        waits-without host r.id w,
      ))
  | inr is_phone ↦ elim (Option-cases (find r.id w)) [
    | inl absent ↦ rw (is_phone, absent) (ground (arith, uses-le w (conn + 1) rs host))
    | inr (h, there) ↦
        let fewer = waits-find r.id w there in
        rw (is_phone, there)
          (ground
            (arith, uses-le (without r.id w) (conn + 1) rs host, waits-without host r.id w, fewer))
  ]
]

abbrev pub nth : List Registration → ℕ → Option Registration
nth [] i = none
nth (r ∷ rs) zero = some r
nth (r ∷ rs) (suc i) = nth rs i

-- The connection `conn` of the relay is a host's, with this id, or a phone's.
abbrev pub IsHost : List Registration → List ℕ → ℕ → Type 0
IsHost all id conn =
    (r : Registration) × (nth all conn ≡ some r) × (r.role ≡ role_host) × (r.id ≡ id)

abbrev pub IsPhone : List Registration → List ℕ → ℕ → Type 0
IsPhone all id conn =
    (r : Registration) × (nth all conn ≡ some r) × (r.role ≢ role_host) × (r.id ≡ id)

abbrev AllWait : List Registration → ℕ → Waiting → Type 0
AllWait all n [] = Unit
AllWait all n ((id, conn) ∷ w) = (IsHost all id conn × (conn < n)) × AllWait all n w

abbrev pub AllMatch : List Registration → List Splice → Type 0
AllMatch all [] = Unit
AllMatch all (s ∷ ss) =
    (IsHost all s.id s.host × IsPhone all s.id s.phone × (s.host < s.phone)) × AllMatch all ss

AllWait-without :
    (all : List Registration) (n : ℕ) (id : List ℕ) (w : Waiting)
    → AllWait all n w
    → AllWait all n (without id w)
AllWait-without all n id [] h = tt
AllWait-without all n id ((j, conn) ∷ w) (first, h) = elim (Bool-cases (bytes_equal j id)) [
  | inl same ↦ rw same (AllWait-without all n id w h)
  | inr other ↦ rw other (first, AllWait-without all n id w h)
]

AllWait-later :
    (all : List Registration) (n : ℕ) (w : Waiting) → AllWait all n w → AllWait all (n + 1) w
AllWait-later all n [] h = tt
AllWait-later all n ((j, conn) ∷ w) ((is, below), h) = ((is, omega arith), AllWait-later all n w h)

AllWait-find :
    (all : List Registration) (n : ℕ) (id : List ℕ) (w : Waiting) {conn : ℕ}
    → AllWait all n w
    → find id w ≡ some conn
    → IsHost all id conn × (conn < n)
AllWait-find all n id [] h e = absurd (cc)
AllWait-find all n id ((j, c) ∷ w) {conn} (((r, there, role, named), below), h) e =
    elim (Bool-cases (bytes_equal j id)) [
      | inl same ↦
          let one : c ≡ conn = ground arith in
          (
            (r, ap (nth all) (sym one) ∙ there, role, named ∙ bytes_equal_sound j id same),
            rw (← one) below,
          )
      | inr other ↦ AllWait-find all n id w h (ground arith)
    ]

nth-here :
    (before : List Registration) (r : Registration) (later : List Registration)
    → nth (before ++ (r ∷ later)) (length before) ≡ some r
nth-here [] r later = refl
nth-here (b ∷ before) r later = nth-here before r later

run-AllMatch :
    (before rs : List Registration) (w : Waiting)
    → AllWait (before ++ rs) (length before) w
    → AllMatch (before ++ rs) (run w (length before) rs)
unfolding run register
run-AllMatch before [] w h = tt
run-AllMatch before (r ∷ rs) w h =
    let all = before ++ (r ∷ rs) in
    let n = length before in
    let here = nth-here before r rs in
    let more : (before ++ (r ∷ [])) ++ rs ≡ all = append_assoc before (r ∷ []) rs in
    let len : length (before ++ (r ∷ [])) ≡ n + 1 = omega (arith, length-append before (r ∷ [])) in
    let go = λ (w' : Waiting) (h' : AllWait all (n + 1) w').
      let ih : AllMatch ((before ++ (r ∷ [])) ++ rs) (run w' (length (before ++ (r ∷ []))) rs) =
        run-AllMatch (before ++ (r ∷ [])) rs w' (rw (more, len) h') in
      rw (more, len) at ih in
    elim (Bool-cases (r.role == role_host)) [
      | inl is_host ↦ rw is_host (
          go ((r.id, n) ∷ without r.id w) (
            ((r, here, ground arith, refl), omega arith),
            AllWait-later all n (without r.id w) (AllWait-without all n r.id w h),
          ))
      | inr is_phone ↦ elim (Option-cases (find r.id w)) [
        | inl absent ↦ rw (is_phone, absent) (go w (AllWait-later all n w h))
        | inr (conn, there) ↦
            let (owner, below) = AllWait-find all n r.id w h there in
            rw (is_phone, there)
              (
                (owner, (r, here, ground arith, refl), below),
                go (without r.id w)
                    (AllWait-later all n (without r.id w) (AllWait-without all n r.id w h)),
              )
      ]
    ]

-- Whatever registers in whatever order, each splice joins a host's connection with a later phone's
-- of the same id, and no host's connection is spliced twice.
pub run-Matches :
    (rs : List Registration)
    → AllMatch rs (run [] 0 rs) × ((host : ℕ) → uses host (run [] 0 rs) ≤ 1)
run-Matches rs = (run-AllMatch [] rs [] tt, λ host. ground (arith, uses-le [] 0 rs host))

-- ===== src/Relay/Registration/Tests.antt =====
-- engine/internal/relay/relay.go: a host that registers again, and two phones.
use remoteau.Common.{ℕ, ◌≤◌, ◌≡◌, refl, some, List, [], ◌∷◌}
use remoteau.Relay.Registration.{Registration, read_registration, role_host, role_phone, run}
use remoteau.Relay.Registration.Matches.{AllMatch, uses, run-Matches}

abbrev came : List Registration
came =
    record { role = role_host; id = 97 ∷ [] }
    ∷ record { role = role_host; id = 97 ∷ [] }
    ∷ record { role = role_phone; id = 97 ∷ [] }
    ∷ record { role = role_phone; id = 97 ∷ [] }
    ∷ []

run-Matches_example : AllMatch came (run [] 0 came) × ((host : ℕ) → uses host (run [] 0 came) ≤ 1)
run-Matches_example = run-Matches came

registration_read :
    read_registration (λ id. id) (72 ∷ 0 ∷ 1 ∷ 97 ∷ []) ≡ some (record { role = 72; id = 97 ∷ [] })
unfolding read_registration
registration_read = refl

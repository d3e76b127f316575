-- ===== src/Tests/Limits.antt =====
-- The login throttle of crates/twl-server/src/ratelimit.rs.
use token_weasel.Prelude.{ℕ, ◌≡◌, refl, Option, none, some, List, [], ◌∷◌, arith, ℕ_discrete}
use token_weasel.Throttle.{Entry, backoff_for_failures, check, run_logins}
use token_weasel.Throttle.Lockout.{check-run_logins}

backoff_run : backoff_for_failures 8 ≡ 4
unfolding backoff_for_failures
backoff_run = refl

-- a client with six failures, blocked until second 100, and one that may try
abbrev two_clients : List (ℕ × Entry)
two_clients =
    (1, record { failures = 6; blocked_until = 100 })
    ∷ (2, record { failures = 1; blocked_until = 0 })
    ∷ []

abbrev three_logins : List (Option ℕ × ℕ)
three_logins = (some 10, 1) ∷ (none, 2) ∷ (some 11, 1) ∷ []

check-run_logins_example : check ℕ_discrete 90 1 (run_logins ℕ_discrete three_logins []) ≡ none
check-run_logins_example =
    check-run_logins ℕ_discrete 11 90 1 three_logins (omega arith, (omega arith, tt)) (omega arith)

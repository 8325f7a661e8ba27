-- ===== src/Booking/Availability/Grid.antt =====
-- The starts that a working interval offers (src/availability/availability-calculator.ts).
use panalbee_clock_backend.Base.{ℕ, ◌+◌, ◌-◌, ◌%◌, Bool, true, false, ◌&&◌, ◌≡◌, beq, leb, arith}

-- A quarter of an hour after another from `starts_at`, up to one that leaves room before the end.
abbrev pub in_grid : ℕ → ℕ → ℕ → ℕ → Bool
in_grid starts_at ends_at duration t =
    leb starts_at t && beq ((t - starts_at) % 900_000) 0 && leb (t + duration) ends_at

pub in_grid-full : (c e d t : ℕ) → leb (c + d) e ≡ false → in_grid c e d t ≡ false
in_grid-full c e d t full = ground arith

pub in_grid-here : (c e d : ℕ) → leb (c + d) e ≡ true → in_grid c e d c ≡ true
in_grid-here c e d room = ground arith

pub in_grid-past : (c e d : ℕ) → in_grid (c + 900_000) e d c ≡ false
in_grid-past c e d = ground arith

pub in_grid-next : (c e d t : ℕ) → beq c t ≡ false → in_grid (c + 900_000) e d t ≡ in_grid c e d t
in_grid-next c e d t other = ground arith

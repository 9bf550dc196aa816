-- ===== src/Hub/Control/Brightness.antt =====
-- Brightness between per cent and the device's levels 0 to 254.
use zigbeemq.Prelude.{ℕ, ◌+◌, ◌≤◌, ◌≡◌, ◌↔◌, ◌⊎◌, arith}
use zigbeemq.Hub.Control.{level_of_percent, percent_of_level}

-- For a brightness of at most 100 per cent the level sent is at most 254, and what a device that
-- stores the level gives back is the brightness set or one per cent less.
percent_of_level-level_of_percent :
    (p : ℕ)
    → p ≤ 100
    → (level_of_percent p ≤ 254)
      × (percent_of_level (level_of_percent p) ≤ p)
      × (p ≤ percent_of_level (level_of_percent p) + 1)
unfolding level_of_percent percent_of_level
percent_of_level-level_of_percent p h = omega arith

-- For a brightness of at most 100 per cent, what a device that stores the level gives back is exactly
-- the brightness set only at 0, 50 and 100 per cent.
pub percent_kept_iff :
    (p : ℕ)
    → p ≤ 100
    → (percent_of_level (level_of_percent p) ≡ p) ↔ ((p ≡ 0) ⊎ (p ≡ 50) ⊎ (p ≡ 100))
unfolding level_of_percent percent_of_level
percent_kept_iff p h = ground arith

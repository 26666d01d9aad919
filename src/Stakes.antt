-- ===== src/Stakes.antt =====
-- The stake distribution that a member observes on a block (exp/onl/stakes.go).
use dd.Base.{ℕ, ◌+◌, Option, none, some, [], ◌∷◌, ◌==◌, if◌then◌else◌}
use dd.Base.Map.{Map}

pub record Stakes : Type 0 where
  pub sum : ℕ
  pub votes : Map ℕ

-- `NewStakes`
abbrev pub new_stakes : ℕ → Stakes
new_stakes sum = record { sum = sum; votes = [] }

unfoldable pub vote_total : Map ℕ → ℕ
vote_total [] = 0
vote_total ((_, stake) ∷ votes) = stake + vote_total votes

-- `Stakes.Finalization` as the exact fraction of its float: the votes over the sum. A sum of 0 is
-- a panic: none.
unfoldable pub finalization : Stakes → Option (ℕ × ℕ)
finalization stk = if stk.sum == 0 then none else some (vote_total stk.votes, stk.sum)

-- ===== src/Slot/Voter/Rank.antt =====
-- The ranks of proposals (exp/slot/round.go): the highest of some, and the proposals of a rank.
use dd.Base.{◌≡◌, ℕ, ◌≤◌, ◌<◌, List, [], ◌∷◌, ◌++◌, arith, ltb, ◌==◌, if◌then◌else◌}
use mathlib.Core.List.{append_assoc}
use dd.Slot.{Proposal, token_rank}

-- the higher rank, and the rank of the highest of some proposals, `t` if none is higher
abbrev higher : ℕ → ℕ → ℕ
higher a b = if ltb a b then b else a

unfoldable pub top_rank : ℕ → List Proposal → ℕ
top_rank t [] = t
top_rank t (p ∷ ps) = top_rank (higher t (token_rank p.token)) ps

-- the proposals of a rank
unfoldable pub of_rank : ℕ → List Proposal → List Proposal
of_rank n [] = []
of_rank n (p ∷ ps) = let rest = of_rank n ps in if token_rank p.token == n then p ∷ rest else rest

-- the highest-ranking of some proposals, all that are as high
abbrev pub highest : List Proposal → List Proposal
highest ps = of_rank (top_rank 0 ps) ps

top_rank-above : (t : ℕ) (ps : List Proposal) → t ≤ top_rank t ps
unfolding top_rank
top_rank-above t [] = omega arith
top_rank-above t (p ∷ ps) = ground (arith, top_rank-above (higher t (token_rank p.token)) ps)

-- what the voter holds after the eligible proposals `qs`, from the candidates `cs` of rank `t`
abbrev pub held : List Proposal → ℕ → List Proposal → List Proposal
held cs t qs = if top_rank t qs == t then cs ++ of_rank t qs else of_rank (top_rank t qs) qs

pub held-higher :
    (cs : List Proposal) (t : ℕ) (p : Proposal) (qs : List Proposal)
    → t < token_rank p.token
    → held (p ∷ []) (token_rank p.token) qs ≡ held cs t (p ∷ qs)
unfolding of_rank top_rank
held-higher cs t p qs h = ground (arith, top_rank-above (token_rank p.token) qs)

pub held-equal :
    (cs : List Proposal) (t : ℕ) (p : Proposal) (qs : List Proposal)
    → token_rank p.token ≡ t
    → held (cs ++ p ∷ []) t qs ≡ held cs t (p ∷ qs)
unfolding of_rank top_rank
held-equal cs t p qs h =
    ground (arith, top_rank-above t qs, append_assoc cs (p ∷ []) (of_rank t qs))

pub held-lower :
    (cs : List Proposal) (t : ℕ) (p : Proposal) (qs : List Proposal)
    → token_rank p.token < t
    → held cs t qs ≡ held cs t (p ∷ qs)
unfolding of_rank top_rank
held-lower cs t p qs h = ground (arith, top_rank-above t qs)

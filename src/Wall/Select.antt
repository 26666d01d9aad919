-- ===== src/Wall/Select.antt =====
-- The selection of the longest chain (`selectLongestChain` of exp/onl/wall/chain/chain.go).
use mathlib.Core.Path.{subst}
use dd.Base.{
  ◌≡◌, refl, sym, ◌∙◌, ℕ, zero, suc, ◌+◌, ◌-◌, ◌/◌, ◌%◌, ◌^◌, ◌<◌, true, none, some, List, [], ◌∷◌,
  ok, All, arith, length, leb, if◌then◌else◌, Option-cases, Bool-cases, inl, inr,
}
use dd.Base.Bytes.{Bytes, u64_mod}
use dd.Base.Map.{Map, get, put, has}
use dd.Base.Sort.{sort_slice, All-sort_slice}
use dd.Externals.{Decimals}
use dd.Block.{set_bytes}
use dd.Wall.{WallBlock}
use dd.Wall.Threshold.{dec}
use dd.Wall.Chain.{
  MemChain, round_key, weigh_round_blocks, with_decimals, higher_token, firsts, sort_round,
  select_round, select_rounds, select_longest_chain,
}
use dd.Wall.Form.{IsWall, AllStored, has-put_kept, put-either}

pub some-has : {V : Type 0} (k : Bytes) (m : Map V) → has k m ≡ true → (v : V) × (get k m ≡ some v)
unfolding has
some-has k m h = elim (Option-cases (get k m)) [
  | inl absent ↦ absurd (ground arith)
  | inr found ↦ found
]

-- What the selection keeps of a chain: it only changes the weights, the order in a round and the
-- tip.
pub record Kept {Decimal : Type 0} (ch ch' : MemChain Decimal) : Type 0 where
  pub wall : IsWall ch'
  pub same_blocks : ch'.blocks ≡ ch.blocks
  pub same_genesis : ch'.genesis ≡ ch.genesis
  pub same_maxr : ch'.maxr ≡ ch.maxr
  pub same_idns : ch'.idns ≡ ch.idns
  pub same_params : ch'.params ≡ ch.params

module _ {Decimal : Type 0} where
  Kept-trans : {a b c : MemChain Decimal} → Kept a b → Kept b c → Kept a c
  Kept-trans h k = record {
    wall = k.wall;
    same_blocks = k.same_blocks ∙ h.same_blocks;
    same_genesis = k.same_genesis ∙ h.same_genesis;
    same_maxr = k.same_maxr ∙ h.same_maxr;
    same_idns = k.same_idns ∙ h.same_idns;
    same_params = k.same_params ∙ h.same_params;
  }

  Kept-self : (ch : MemChain Decimal) → IsWall ch → Kept ch ch
  Kept-self ch w = record {
    wall = w;
    same_blocks = refl;
    same_genesis = refl;
    same_maxr = refl;
    same_idns = refl;
    same_params = refl;
  }

  -- a weight that is set, with or without the tip
  weight-Kept :
      (ch : MemChain Decimal) (id tip : Bytes) (n : ℕ)
      → IsWall ch
      → Kept ch (record ch { weights = put id n ch.weights; tip = tip })
  weight-Kept ch id tip n w = record {
    wall = record {
      genesis_known = w.genesis_known;
      named = w.named;
      linked = w.linked;
      weighed = λ j b at.
          let (own, prev) = w.weighed j b at in
          (has-put_kept id j n ch.weights own, has-put_kept id b.vote.prev n ch.weights prev);
      tokens = w.tokens;
      listed = w.listed;
    };
    same_blocks = refl;
    same_genesis = refl;
    same_maxr = refl;
    same_idns = refl;
    same_params = refl;
  }

  -- the chain and the weight of the tip after the block `id` of weight `sumw`
  abbrev stepped : MemChain Decimal → ℕ → Bytes → ℕ → MemChain Decimal × ℕ
  stepped ch tipw id sumw =
      if leb tipw sumw
      then (record ch { weights = put id sumw ch.weights; tip = id }, sumw)
      else (record ch { weights = put id sumw ch.weights }, tipw)

  stepped-Kept :
      (ch : MemChain Decimal) (tipw : ℕ) (id : Bytes) (sumw : ℕ)
      → IsWall ch
      → Kept ch (stepped ch tipw id sumw).0
  stepped-Kept ch tipw id sumw w = elim (Bool-cases (leb tipw sumw)) [
    | inl heavy ↦ rw heavy (weight-Kept ch id id sumw w)
    | inr light ↦ rw light (weight-Kept ch id ch.tip sumw w)
  ]

  weigh_round_blocks-step :
      (i : ℕ) (id : Bytes) (ids : List Bytes) (ch : MemChain Decimal) (tipw : ℕ) (b : WallBlock)
      (prevw : ℕ)
      → get id ch.blocks ≡ some b
      → get b.vote.prev ch.weights ≡ some prevw
      → weigh_round_blocks i (id ∷ ids) (ch, tipw)
        ≡ weigh_round_blocks
            (suc i)
            ids
            (stepped ch tipw id ((prevw + ch.params.weight_points / suc i) % u64_mod))
  unfolding weigh_round_blocks
  weigh_round_blocks-step i id ids ch tipw b prevw at known =
      rw (at, weigh_round_blocks) (rw (known, weigh_round_blocks) refl)

  -- weighing blocks that are there neither fails nor panics
  weigh_round_blocks-Kept :
      (i : ℕ) (ids : List Bytes) (ch : MemChain Decimal) (tipw : ℕ)
      → IsWall ch
      → AllStored ch.blocks ids
      → (st : MemChain Decimal × ℕ) × (weigh_round_blocks i ids (ch, tipw) ≡ ok st) × Kept ch st.0
  weigh_round_blocks-Kept i [] ch tipw w h =
      ((ch, tipw), unfold weigh_round_blocks in refl, Kept-self ch w)
  weigh_round_blocks-Kept i (id ∷ ids) ch tipw w h =
      let (b, at) = some-has id ch.blocks h.0 in
      let (prevw, known) = some-has b.vote.prev ch.weights (w.weighed id b at).1 in
      let sumw : ℕ = (prevw + ch.params.weight_points / suc i) % u64_mod in
      let (ch', tipw') = stepped ch tipw id sumw in
      let kept = stepped-Kept ch tipw id sumw w in
      let (st, done, rest) =
        weigh_round_blocks-Kept (suc i) ids ch' tipw' kept.wall
          (subst (λ blocks. AllStored blocks ids) (sym kept.same_blocks) h.1) in
      (st, weigh_round_blocks-step i id ids ch tipw b prevw at known ∙ done, Kept-trans kept rest)

-- The documented promise of a division: it reports no error when the divisor is not 0.
abbrev pub Divides : Decimals → Type 0
Divides d = (a b : ℕ) → 0 < b → (x : d.Decimal) × (d.quo (d.whole a) (d.whole b) ≡ some x)

module _ ⦃d : Decimals⦄ where
  AllStored-firsts :
      (blocks : Map WallBlock) (xs : List (Bytes × d.Decimal))
      → All (λ (x : Bytes × d.Decimal). has x.0 blocks ≡ true) xs
      → AllStored blocks (firsts xs)
  AllStored-firsts blocks [] h = tt
  AllStored-firsts blocks ((id, _) ∷ xs) h = (h.0, AllStored-firsts blocks xs h.1)

  with_decimals-step :
      (blocks : Map WallBlock) (id : Bytes) (ids : List Bytes) (b : WallBlock) (x : d.Decimal)
      (xs : List (Bytes × d.Decimal))
      → get id blocks ≡ some b
      → dec b.ticket.token ≡ ok x
      → with_decimals blocks ids ≡ ok xs
      → with_decimals blocks (id ∷ ids) ≡ ok ((id, x) ∷ xs)
  unfolding with_decimals
  with_decimals-step blocks id ids b x xs at own others =
      rw (at, with_decimals) (rw (own, with_decimals) (rw (others, with_decimals) refl))

  -- sorting a round in place
  sorted-Kept :
      (ch : MemChain d.Decimal) (rn : ℕ) (sorted : List Bytes)
      → IsWall ch
      → AllStored ch.blocks sorted
      → Kept ch (record ch { rounds = put (round_key rn) sorted ch.rounds })
  sorted-Kept ch rn sorted w stored = record {
    wall = record {
      genesis_known = w.genesis_known;
      named = w.named;
      linked = w.linked;
      weighed = w.weighed;
      tokens = w.tokens;
      listed = λ nr ids at. elim (put-either (round_key rn) (round_key nr) sorted ch.rounds at) [
        | inl (_, own) ↦ rw own stored
        | inr (_, before) ↦ w.listed nr ids before
      ];
    };
    same_blocks = refl;
    same_genesis = refl;
    same_maxr = refl;
    same_idns = refl;
    same_params = refl;
  }

  select_rounds-step :
      (fuel rn : ℕ) (ch : MemChain d.Decimal) (tipw : ℕ) (st : MemChain d.Decimal × ℕ)
      → leb rn ch.maxr ≡ true
      → select_round rn (ch, tipw) ≡ ok st
      → select_rounds (suc fuel) rn (ch, tipw) ≡ select_rounds fuel ((rn + 1) % u64_mod) st
  unfolding select_rounds
  select_rounds-step fuel rn ch tipw st within done =
      rw (within, select_rounds) (rw (done, select_rounds) refl)

module _ ⦃d : Decimals⦄ (divides : Divides d) where
  dec-total : (t : Bytes) → length t ≡ 32 → (x : d.Decimal) × (dec t ≡ ok x)
  unfolding dec
  dec-total t h =
      let (x, divided) = divides (set_bytes 0 t) (256 ^ length t - 1) (rw h (omega arith)) in
      (x, rw divided refl)

  with_decimals-total :
      (ch : MemChain d.Decimal) (ids : List Bytes)
      → IsWall ch
      → AllStored ch.blocks ids
      → (xs : List (Bytes × d.Decimal)) × (with_decimals ch.blocks ids ≡ ok xs)
        × All (λ (x : Bytes × d.Decimal). has x.0 ch.blocks ≡ true) xs
  with_decimals-total ch [] w h = ([], unfold with_decimals in refl, tt)
  with_decimals-total ch (id ∷ ids) w h =
      let (b, at) = some-has id ch.blocks h.0 in
      let (x, own) = dec-total b.ticket.token (w.tokens id b at) in
      let (xs, others, stored) = with_decimals-total ch ids w h.1 in
      ((id, x) ∷ xs, with_decimals-step ch.blocks id ids b x xs at own others, (h.0, stored))

  sort_round-total :
      (ch : MemChain d.Decimal) (ids : List Bytes)
      → IsWall ch
      → AllStored ch.blocks ids
      → (sorted : List Bytes) × (sort_round ch.blocks ids ≡ ok sorted) × AllStored ch.blocks sorted
  unfolding sort_round
  sort_round-total ch [] w h = ([], refl, tt)
  sort_round-total ch (id ∷ []) w h = (id ∷ [], refl, h)
  sort_round-total ch (id ∷ j ∷ ids) w h =
      let (xs, keyed, stored) = with_decimals-total ch (id ∷ j ∷ ids) w h in
      (
        firsts (sort_slice higher_token xs),
        rw (keyed, sort_round) refl,
        AllStored-firsts ch.blocks _ (All-sort_slice higher_token _ xs stored),
      )

  select_round-Kept :
      (rn : ℕ) (ch : MemChain d.Decimal) (tipw : ℕ)
      → IsWall ch
      → (st : MemChain d.Decimal × ℕ) × (select_round rn (ch, tipw) ≡ ok st) × Kept ch st.0
  unfolding select_round
  select_round-Kept rn ch tipw w = elim (Option-cases (get (round_key rn) ch.rounds)) [
    | inl absent ↦ ((ch, tipw), rw (absent, select_round) refl, Kept-self ch w)
    | inr (ids, at) ↦
        let (sorted, done, stored) = sort_round-total ch ids w (w.listed rn ids at) in
        let resorted = sorted-Kept ch rn sorted w stored in
        let (st, weighed, kept) =
          weigh_round_blocks-Kept 0 sorted
            (record ch { rounds = put (round_key rn) sorted ch.rounds }) tipw resorted.wall
            stored in
        (st, rw (at, select_round) (rw (done, select_round) weighed), Kept-trans resorted kept)
  ]

  -- The selection ends, unless there is a block of the last round that a word can count.
  select_rounds-Kept :
      (fuel rn : ℕ) (ch : MemChain d.Decimal) (tipw : ℕ)
      → IsWall ch
      → ch.maxr + 1 < u64_mod
      → ch.maxr + 1 - rn < fuel
      → (st : MemChain d.Decimal × ℕ) × (select_rounds fuel rn (ch, tipw) ≡ ok st) × Kept ch st.0
  select_rounds-Kept zero rn ch tipw w room enough = absurd (omega arith)
  select_rounds-Kept (suc fuel) rn ch tipw w room enough = elim (Bool-cases (leb rn ch.maxr)) [
    | inr past ↦ ((ch, tipw), unfold select_rounds in rw (past, select_rounds) refl, Kept-self ch w)
    | inl within ↦
        let ((ch', tipw'), done, kept) = select_round-Kept rn ch tipw w in
        let (st, rest, kept') =
          select_rounds-Kept fuel ((rn + 1) % u64_mod) ch' tipw' kept.wall (rw kept.same_maxr room)
            (rw kept.same_maxr (ground arith)) in
        (st, select_rounds-step fuel rn ch tipw _ within done ∙ rest, Kept-trans kept kept')
  ]

  pub select_longest_chain-Kept :
      (ch : MemChain d.Decimal) (n : ℕ)
      → IsWall ch
      → ch.maxr + 1 < u64_mod
      → (ch' : MemChain d.Decimal) × (select_longest_chain ch n ≡ ok ch') × Kept ch ch'
  unfolding select_longest_chain
  select_longest_chain-Kept ch n w room =
      let tipw : ℕ = elim (get ch.tip ch.weights) [ none ↦ 0 | some v ↦ v ] in
      let (st, done, kept) =
        select_rounds-Kept (suc (ch.maxr + 1 - n)) n ch tipw w room (omega arith) in
      (st.0, rw done refl, kept)

-- ===== src/Wall/Chain.antt =====
-- The chain in memory (exp/onl/wall/chain/chain.go). Rounds are keys of Go maps; the key of a round
-- is the list of its number. A walk takes fuel: the round of its first block, plus one.
use dd.Base.{
  ℕ, zero, suc, ◌+◌, ◌-◌, ◌/◌, ◌%◌, Bool, true, false, Option, none, some, List, [], ◌∷◌, ◌++◌,
  Result, ok, err, ◌>>=◌, wrapped, diverges, panic, wall, wall_block_not_exist, block_exists,
  voter_already_voted, deposit_not_found, ltb, leb, not, if◌then◌else◌,
}
use dd.Base.Bytes.{Bytes, bytes_eq, u64_mod}
use dd.Base.Map.{Map, get, put, has}
use dd.Base.Sort.{sort_slice}
use dd.Externals.{Crypto, Decimals}
use dd.State.{zeros}
use dd.Wall.{Vote, TrOut, Tr, WallBlock, ref, zero_sig, zero_proof}
use dd.Wall.Threshold.{dec}
use dd.Wall.Transfer.{Utro, sub_u64, usable_deposit_for}
use dd.Wall.Verify.{Params, verify_cheap, verify_against_prev, verify_against_utro}

-- `MemChain`
pub record MemChain (Decimal : Type 0) : Type 0 where
  pub genesis : Bytes
  pub params : Params Decimal
  pub tip : Bytes
  pub rounds : Map (List Bytes)
  pub maxr : ℕ
  pub idns : Map (Map (Unit {0}))
  pub blocks : Map WallBlock
  pub weights : Map ℕ

abbrev pub round_key : ℕ → Bytes
round_key nr = nr ∷ []

-- a nil slice or map for a missing round
abbrev pub or_nil {ℓ} : {V : Type ℓ} → Option (List V) → List V
or_nil none = []
or_nil (some l) = l

-- `MemChain.read`
unfoldable pub read_wall : Bytes → Map WallBlock → Result WallBlock
read_wall id blocks = elim (get id blocks) [
  | none ↦ err (wall wall_block_not_exist)
  | some b ↦ ok b
]

-- `MemChain.walk` with a callback that builds up an `S`
unfoldable pub walk_blocks {ℓ} :
    {S : Type ℓ}
    → Bytes
    → Map WallBlock
    → (WallBlock → S → Result S)
    → ℕ
    → Bytes
    → S
    → S × Result (Unit {0})
walk_blocks gen blocks f zero id s = (s, err diverges)
walk_blocks gen blocks f (suc fuel) id s = elim (read_wall id blocks) [
  | err e ↦ (s, err e)
  | ok b ↦ elim (f b s) [
    | err e ↦ (s, err e)
    | ok s' ↦ elim (bytes_eq id gen) [
      | true ↦ (s', ok tt)
      | false ↦ walk_blocks gen blocks f fuel b.vote.prev s'
    ]
  ]
]

-- the fuel for a walk from `id`
unfoldable pub fuel_of : Bytes → Map WallBlock → ℕ
fuel_of id blocks = elim (get id blocks) [ none ↦ 1 | some b ↦ suc b.vote.round ]

-- the inputs of a transfer go into the map of what is spent
unfoldable pub mark_spent : List Bytes → Map (Unit {0}) → Map (Unit {0})
mark_spent [] spent = spent
mark_spent (input ∷ inputs) spent = mark_spent inputs (put input tt spent)

-- the outputs from place `i` on that are not spent are put into the set
unfoldable pub put_outputs : Map (Unit {0}) → Bytes → ℕ → List TrOut → Utro → Utro
put_outputs spent trid i [] utro = utro
put_outputs spent trid i (out ∷ outs) utro =
    put_outputs spent trid (suc i) outs
      (if has (ref trid i) spent then utro else put (ref trid i) out utro)

-- the loop over the transfers of a block, the last one first
unfoldable pub index_transfers : List Tr → Map (Unit {0}) × Utro → Map (Unit {0}) × Utro
unfolding mark_spent put_outputs
index_transfers [] st = st
index_transfers (tr ∷ trs) st =
    let (spent, utro) = index_transfers trs st in
    let spent' = mark_spent tr.inputs spent in (spent', put_outputs spent' tr.id 0 tr.outputs utro)

-- the callback of `indexUTRO`
abbrev pub index_block : WallBlock → Map (Unit {0}) × Utro → Result (Map (Unit {0}) × Utro)
index_block b st = ok (index_transfers b.transfers st)

-- `MemChain.indexUTRO`; the error of the walk is dropped
unfoldable pub index_utro : Bytes → Map WallBlock → Bytes → Utro
unfolding index_transfers
index_utro gen blocks id = (walk_blocks gen blocks index_block (fuel_of id blocks) id ([], [])).0.1

-- The usable deposit of a transfer that `findDeposit` takes, from output `i` on.
unfoldable pub find_output : Bytes → ℕ → ℕ → ℕ → List TrOut → Option ℕ
find_output pk round ttl i [] = none
find_output pk round ttl i (out ∷ outs) =
    let rest = find_output pk round ttl (suc i) outs in
    if not (bytes_eq out.receiver pk)
    then rest
    else elim (usable_deposit_for out round ttl) [ err _ ↦ rest | ok _ ↦ some i ]

-- the loop over the transfers of a block
unfoldable pub find_transfer : Bytes → ℕ → ℕ → List Tr → Option (Bytes × ℕ)
unfolding find_output
find_transfer pk round ttl [] = none
find_transfer pk round ttl (tr ∷ trs) =
    let rest = find_transfer pk round ttl trs in
    if not (bytes_eq tr.sender pk)
    then rest
    else elim (find_output pk round ttl 0 tr.outputs) [ none ↦ rest | some i ↦ some (tr.id, i) ]

-- the callback of `findDeposit`: what is found in an older block replaces what was found
unfoldable pub find_in_block :
    Bytes → ℕ → ℕ → WallBlock → Option (Bytes × ℕ) → Result (Option (Bytes × ℕ))
unfolding find_transfer
find_in_block pk round ttl b found =
    if leb ttl (sub_u64 round b.vote.round)
    then ok found
    else elim (find_transfer pk round ttl b.transfers) [
      | none ↦ ok found
      | some deposit ↦ ok (some deposit)
    ]

-- `MemChain.findDeposit`
unfoldable pub find_deposit : Bytes → Map WallBlock → ℕ → Bytes → ℕ → Bytes → Option (Bytes × ℕ)
unfolding find_in_block
find_deposit gen blocks ttl id round pk =
    (walk_blocks gen blocks (find_in_block pk round ttl) (fuel_of id blocks) id none).0

-- the votes of the blocks of the round of `prev`, but its own
unfoldable pub siblings : Map WallBlock → Bytes → List Bytes → Result (List Vote)
siblings blocks prev [] = ok []
siblings blocks prev (id ∷ ids) = elim (bytes_eq id prev) [
  | true ↦ siblings blocks prev ids
  | false ↦ elim (get id blocks) [
    | none ↦ err (panic "chain: failed to read a round block")
    | some b ↦ do vs ← siblings blocks prev ids; ok (b.vote ∷ vs)
  ]
]

module _ {Decimal : Type 0} where
  -- The block of `MemChain.Mint`, before it is signed, and the token that the ticket is drawn from.
  unfoldable pub mint_wall : MemChain Decimal → Bytes → ℕ → ℕ → Bytes → Result (WallBlock × Bytes)
  mint_wall ch prev round timestamp pk = do
    let id = if bytes_eq prev (zeros 32) then ch.tip else prev
    prevb ← wrapped "failed to read the given prev block" (read_wall id ch.blocks)
    deposit ← elim (find_deposit ch.genesis ch.blocks ch.params.max_deposit_ttl id round pk) [
      | none ↦ err (wall deposit_not_found)
      | some found ↦ ok found
    ]
    witness ← siblings ch.blocks id (or_nil (get (round_key prevb.vote.round) ch.rounds))
    ok (
      record {
        id = zero_sig;
        proof = zero_proof;
        vote = record {
          round = round;
          prev = prevb.id;
          voter = zeros 32;
          deposit = ref deposit.0 deposit.1;
          timestamp = timestamp;
          signature = zero_sig;
          proof = zero_proof;
        };
        witness = witness;
        ticket = record { proof = zero_proof; token = zero_sig };
        transfers = [];
      },
      prevb.ticket.token,
    )

  -- `MemChain.writeBlock`
  unfoldable pub write_block : WallBlock → MemChain Decimal → MemChain Decimal
  write_block b ch =
      let key = round_key b.vote.round in
      let known = has key ch.idns in
      record ch {
        blocks = put b.id b ch.blocks;
        weights = put b.id 0 ch.weights;
        rounds = put key (or_nil (get key ch.rounds) ++ b.id ∷ []) ch.rounds;
        maxr =
            if known then ch.maxr else if ltb ch.maxr b.vote.round then b.vote.round else ch.maxr;
        idns = put key (put b.vote.voter tt (or_nil (get key ch.idns))) ch.idns;
      }

  -- the loop over the blocks of a round, from place `i` on, with the weight of the tip
  unfoldable pub weigh_round_blocks :
      ℕ → List Bytes → MemChain Decimal × ℕ → Result (MemChain Decimal × ℕ)
  weigh_round_blocks i [] st = ok st
  weigh_round_blocks i (id ∷ ids) (ch, tipw) = elim (get id ch.blocks) [
    | none ↦ err (panic "nil block")
    | some b ↦ elim (get b.vote.prev ch.weights) [
      | none ↦ err (panic "chain: missing weight for tip selection")
      | some prevw ↦
          let sumw = (prevw + ch.params.weight_points / suc i) % u64_mod in
          let weights = put id sumw ch.weights in
          weigh_round_blocks (suc i) ids (
            if leb tipw sumw
            then (record ch { weights = weights; tip = id }, sumw)
            else (record ch { weights = weights }, tipw))
    ]
  ]

module _ ⦃d : Decimals⦄ where
  -- the decimals that the blocks of a round are sorted by
  unfoldable pub with_decimals : Map WallBlock → List Bytes → Result (List (Bytes × d.Decimal))
  with_decimals blocks [] = ok []
  with_decimals blocks (id ∷ ids) = elim (get id blocks) [
    | none ↦ err (panic "chain: missing block for round sorting")
    | some b ↦ do x ← dec b.ticket.token; xs ← with_decimals blocks ids; ok ((id, x) ∷ xs)
  ]

  -- a higher token goes first
  abbrev pub higher_token : Bytes × d.Decimal → Bytes × d.Decimal → Bool
  higher_token (_, a) (_, b) = d.less b a

  abbrev pub firsts : List (Bytes × d.Decimal) → List Bytes
  firsts [] = []
  firsts ((id, _) ∷ rest) = id ∷ firsts rest

  -- the sorting of a round; nothing is compared in a round of one block
  unfoldable pub sort_round : Map WallBlock → List Bytes → Result (List Bytes)
  unfolding with_decimals
  sort_round blocks [] = ok []
  sort_round blocks (id ∷ []) = ok (id ∷ [])
  sort_round blocks (id ∷ j ∷ ids) = do
    xs ← with_decimals blocks (id ∷ j ∷ ids)
    ok (firsts (sort_slice higher_token xs))

  -- one round of `selectLongestChain`; the slice of the round is sorted in place
  unfoldable pub select_round : ℕ → MemChain d.Decimal × ℕ → Result (MemChain d.Decimal × ℕ)
  unfolding sort_round weigh_round_blocks
  select_round rn (ch, tipw) = elim (get (round_key rn) ch.rounds) [
    | none ↦ ok (ch, tipw)
    | some round ↦ do
      sorted ← sort_round ch.blocks round
      weigh_round_blocks 0 sorted (record ch { rounds = put (round_key rn) sorted ch.rounds }, tipw)
  ]

  -- its loop over the rounds up to the last; the counter is a `uint64`
  unfoldable pub select_rounds : ℕ → ℕ → MemChain d.Decimal × ℕ → Result (MemChain d.Decimal × ℕ)
  unfolding select_round
  select_rounds zero rn st = err diverges
  select_rounds (suc fuel) rn (ch, tipw) = elim (leb rn ch.maxr) [
    | false ↦ ok (ch, tipw)
    | true ↦ elim (select_round rn (ch, tipw)) [
      | err e ↦ err e
      | ok st ↦ select_rounds fuel ((rn + 1) % u64_mod) st
    ]
  ]

  -- `MemChain.selectLongestChain`; a missing weight of the tip is 0
  unfoldable pub select_longest_chain : MemChain d.Decimal → ℕ → Result (MemChain d.Decimal)
  unfolding select_rounds
  select_longest_chain ch n = do
    let tipw : ℕ = elim (get ch.tip ch.weights) [ none ↦ 0 | some w ↦ w ]
    st ← select_rounds (suc (ch.maxr + 1 - n)) n (ch, tipw)
    ok st.0

  -- `NewMemChain`, for the genesis block `gen` that is signed with the well-known keys
  unfoldable pub new_mem_chain : Params d.Decimal → WallBlock → MemChain d.Decimal
  new_mem_chain p gen = record {
    genesis = gen.id;
    params = p;
    tip = gen.id;
    rounds = put (round_key 0) (gen.id ∷ []) [];
    maxr = 0;
    idns = [];
    blocks = put gen.id gen [];
    weights = put gen.vote.prev 0 (put gen.id p.weight_points []);
  }

module _ ⦃c : Crypto⦄ ⦃d : Decimals⦄ where
  -- the checks of `MemChain.Append` once the block before is known; the block as they leave it
  unfoldable pub check_on :
      MemChain d.Decimal → WallBlock → WallBlock → WallBlock × Result (Unit {0})
  check_on ch b prevb =
      let (b', against) = verify_against_prev b prevb.vote prevb.ticket.token in
      elim (wrapped "failed to verify against prev" against) [
        | err e ↦ (b', err e)
        | ok _ ↦
            if has b'.vote.voter (or_nil (get (round_key b'.vote.round) ch.idns))
            then (b', err (wall voter_already_voted))
            else let utro = index_utro ch.genesis ch.blocks prevb.id in
              let (b'', res) = verify_against_utro b' utro ch.params in
              (b'', wrapped "failed to verify against utro" res)
      ]

  -- what `MemChain.Append` checks, in its order
  unfoldable pub check_block : MemChain d.Decimal → WallBlock → WallBlock × Result (Unit {0})
  unfolding check_on
  check_block ch b0 =
      let (b, cheap) = verify_cheap b0 in
      elim (wrapped "failed to verify cheap fields" cheap) [
        | err e ↦ (b, err e)
        | ok _ ↦ elim (get b.id ch.blocks) [
          | some _ ↦ (b, err (wall block_exists))
          | none ↦ elim (wrapped "failed to read prev block" (read_wall b.vote.prev ch.blocks)) [
            | err e ↦ (b, err e)
            | ok prevb ↦ check_on ch b prevb
          ]
        ]
      ]

  -- `MemChain.Append`; a panic leaves the lock to its deferred release
  unfoldable pub append_wall : MemChain d.Decimal → WallBlock → Result (MemChain d.Decimal)
  unfolding check_block select_longest_chain
  append_wall ch b0 =
      let (b, res) = check_block ch b0 in
      elim res [ err e ↦ err e | ok _ ↦ select_longest_chain (write_block b ch) b.vote.round ]

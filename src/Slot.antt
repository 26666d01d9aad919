-- ===== src/Slot.antt =====
-- A round of the protocol of exp/slot/round.go: blocks, proposals and votes with their hashes and
-- their checks, the filter of proposers, and the lottery. A pointer that may be nil is an option.
pub mod Voter
pub mod Ballot
pub mod Round
use dd.Base.{
  ℕ, ◌+◌, ◌-◌, ◌/◌, ◌%◌, ◌^◌, Bool, true, false, Option, none, some, List, [], ◌∷◌, ◌++◌, Result,
  ok, err, ◌>>=◌, ◌>>◌, slot, block_nil_prev, proposal_token_len, proposal_proof_len,
  proposal_pk_len, proposal_no_block, vote_token_len, vote_proof_len, vote_pk_len, vote_no_proposal,
  fail_if, not, length, take, ◌==◌,
}
use dd.Base.Bytes.{Bytes, bytes_eq, codes}
use dd.Base.Map.{Map, get, put}
use dd.Externals.{Crypto}
use dd.Write.{join}
use dd.State.{zeros}
use dd.Block.{set_bytes}

-- `Block2`
pub record SlotBlock : Type 0 where
  pub prev : Bytes
  pub data_of : Bytes

-- `Proposal2`
pub record Proposal : Type 0 where
  pub token : Bytes
  pub pk : Bytes
  pub proof : Bytes
  pub block : Option SlotBlock

-- `Vote2`
pub record SlotVote : Type 0 where
  pub token : Bytes
  pub pk : Bytes
  pub proof : Bytes
  pub proposal : Option Proposal

-- `Msg2`: a message has a proposal or a vote
pub data SlotMsg : Type 0 where
  proposing : Proposal → SlotMsg
  voting : SlotVote → SlotMsg

-- `NilID`
abbrev pub nil_slot_id : Bytes
nil_slot_id = zeros 32

-- `GenesisBlock`
abbrev pub slot_genesis : SlotBlock
slot_genesis = record { prev = nil_slot_id; data_of = codes "vi veri veniversum vivus vici" }

-- `Block2.Validate`
unfoldable pub validate_block : SlotBlock → Result (Unit {0})
validate_block b = fail_if (bytes_eq b.prev nil_slot_id) (slot block_nil_prev)

-- `Proposal2.Validate`
unfoldable pub validate_proposal : Proposal → Result (Unit {0})
unfolding validate_block
validate_proposal p = do
  fail_if (not (length p.token == 32)) (slot proposal_token_len)
  fail_if (not (length p.pk == 32)) (slot proposal_pk_len)
  fail_if (not (length p.proof == 96)) (slot proposal_proof_len)
  elim p.block [ none ↦ err (slot proposal_no_block) | some b ↦ validate_block b ]

-- `Vote2.Validate`
unfoldable pub validate_vote : SlotVote → Result (Unit {0})
unfolding validate_proposal
validate_vote v = do
  fail_if (not (length v.token == 32)) (slot vote_token_len)
  fail_if (not (length v.pk == 32)) (slot vote_pk_len)
  fail_if (not (length v.proof == 96)) (slot vote_proof_len)
  elim v.proposal [ none ↦ err (slot vote_no_proposal) | some p ↦ validate_proposal p ]

-- `Proposal2.Rank`
abbrev pub token_rank : Bytes → ℕ
token_rank token = set_bytes 0 token

-- `copy` of a slice into an array of `n` bytes
abbrev pub fit : ℕ → Bytes → Bytes
fit n b = take n b ++ zeros (n - length b)

-- `ProposerFilter`
abbrev pub ProposerFilter : Type 0
ProposerFilter = Map (Map (Unit {0}))

abbrev pub or_empty {ℓ} : {V : Type ℓ} → Option (Map V) → Map V
or_empty none = []
or_empty (some m) = m

-- `ProposerFilter.Add`: the filter, and the number of tokens of the proposer
unfoldable pub add_proposer : ProposerFilter → Bytes → Bytes → ProposerFilter × ℕ
add_proposer pf pk token =
    let pids = put (fit 32 token) tt (or_empty (get (fit 32 pk) pf)) in
    (put (fit 32 pk) pids pf, length pids)

-- `binary.LittleEndian.PutUint64` into a fresh slice of 8 bytes
abbrev pub le64 : ℕ → Bytes
le64 n =
    (n % 256)
    ∷ (n / 2 ^ 8 % 256)
    ∷ (n / 2 ^ 16 % 256)
    ∷ (n / 2 ^ 24 % 256)
    ∷ (n / 2 ^ 32 % 256)
    ∷ (n / 2 ^ 40 % 256)
    ∷ (n / 2 ^ 48 % 256)
    ∷ (n / 2 ^ 56 % 256)
    ∷ []

module _ ⦃c : Crypto⦄ where
  -- `Block2.Hash`
  unfoldable pub slot_hash : SlotBlock → Bytes
  slot_hash b = c.sha256 (join (b.prev ∷ b.data_of ∷ []))

  -- `Proposal2.Hash`
  unfoldable pub proposal_hash : Proposal → Bytes
  unfolding slot_hash
  proposal_hash p =
      let bid : Bytes = elim p.block [ none ↦ zeros 32 | some b ↦ slot_hash b ] in
      c.sha256 (join (p.token ∷ p.pk ∷ p.proof ∷ bid ∷ []))

  -- `Lottery.Verify`
  unfoldable pub lottery_verify : ℕ → Bytes → Bytes → Bytes → Bool
  lottery_verify round pk token proof = c.vrf_verify pk (le64 round) token proof

-- ===== src/Wall.antt =====
-- The chain of unspent transfers of exp/onl/wall: votes, blocks and their hashes (block.go),
-- transfers (tr.go), and the checks of what they sign. Identifiers, keys, tokens and proofs are
-- byte arrays. A check empties the signature of what it checks, and puts it back only when the
-- check passes, so it returns what it has made of its argument.
pub mod Threshold
pub mod Transfer
pub mod Verify
pub mod Chain
pub mod Money
pub mod Unspent
pub mod Form
pub mod Select
pub mod Accept
pub mod Stored
pub mod Reach
pub mod Replayed
pub mod Identity
use dd.Base.{ℕ, Bool, true, false, List, [], ◌∷◌, ◌++◌, map, take, drop, if◌then◌else◌}
use dd.Base.Bytes.{Bytes, be64, num}
use dd.Externals.{Crypto}
use dd.Write.{join}
use dd.State.{zeros}

-- `Vote`
pub record Vote : Type 0 where
  pub round : ℕ
  pub prev : Bytes
  pub voter : Bytes
  pub deposit : Bytes
  pub timestamp : ℕ
  pub signature : Bytes
  pub proof : Bytes

-- `TrOut`
pub record TrOut : Type 0 where
  pub amount : ℕ
  pub receiver : Bytes
  pub is_deposit : Bool
  pub unlocks_after : ℕ

-- `Tr`
pub record Tr : Type 0 where
  pub inputs : List Bytes
  pub outputs : List TrOut
  pub sender : Bytes
  pub proof : Bytes
  pub id : Bytes

pub record Ticket : Type 0 where
  pub proof : Bytes
  pub token : Bytes

-- `Block`
pub record WallBlock : Type 0 where
  pub id : Bytes
  pub proof : Bytes
  pub vote : Vote
  pub witness : List Vote
  pub ticket : Ticket
  pub transfers : List Tr

-- `Ref`
unfoldable pub ref : Bytes → ℕ → Bytes
ref trid i = trid ++ be64 i

-- `OID.Tr`
unfoldable pub oid_tr : Bytes → Bytes
oid_tr r = take 32 r

-- `OID.Idx`
unfoldable pub oid_idx : Bytes → ℕ
oid_idx r = num (drop 32 r)

abbrev pub zero_sig : Bytes
zero_sig = zeros 32

abbrev pub zero_proof : Bytes
zero_proof = zeros 96

-- the loop of `Tr.Hash` over the outputs
unfoldable pub output_fields : List TrOut → List Bytes
output_fields [] = []
output_fields (out ∷ outs) =
    out.receiver
    ∷ be64 out.amount
    ∷ (if out.is_deposit then (1 ∷ []) ∷ output_fields outs else output_fields outs)

module _ ⦃c : Crypto⦄ where
  -- `Tr.Hash`
  unfoldable pub tr_hash : Tr → Bytes
  unfolding output_fields
  tr_hash tr =
      c.sha256 (join (tr.inputs ++ (output_fields tr.outputs ++ tr.sender ∷ tr.id ∷ tr.proof ∷ [])))

  -- `Vote.Hash`
  unfoldable pub vote_hash : Vote → Bytes
  vote_hash v = c.sha256 (
      join (
        be64 v.round
        ∷ be64 v.timestamp
        ∷ v.prev
        ∷ v.voter
        ∷ v.deposit
        ∷ v.signature
        ∷ v.proof
        ∷ []))

  -- `Block.Hash`
  unfoldable pub wall_hash : WallBlock → Bytes
  unfolding vote_hash tr_hash
  wall_hash b = c.sha256 (
      join (
        b.id
        ∷ b.proof
        ∷ vote_hash b.vote
        ∷ (map vote_hash b.witness ++ b.ticket.proof ∷ b.ticket.token ∷ map tr_hash b.transfers)))

  -- `Vote.Verify`
  unfoldable pub verify_vote : Vote → Vote × Bool
  verify_vote v =
      let bare = record v { signature = zero_sig; proof = zero_proof } in
      if c.vrf_verify v.voter (vote_hash bare) v.signature v.proof then (v, true) else (bare, false)

  -- `Block.verifyBlockID`
  unfoldable pub verify_block_id : WallBlock → WallBlock × Bool
  verify_block_id b =
      let bare = record b { id = zero_sig; proof = zero_proof } in
      if c.vrf_verify b.vote.voter (wall_hash bare) b.id b.proof then (b, true) else (bare, false)

  -- `Block.verifyTicket`
  unfoldable pub verify_ticket : WallBlock → Bytes → Bool
  verify_ticket b prevt = c.vrf_verify b.vote.voter prevt b.ticket.token b.ticket.proof

-- ===== src/Block.antt =====
-- Blocks (exp/onl/block.go): their hash, which carries the round in its first 8 bytes, their seed,
-- token, rank and writes.
use dd.Base.{◌≡◌, ℕ, ◌+◌, ◌-◌, ◌*◌, ◌<◌, Bool, Option, none, some, List, [], ◌∷◌, ◌++◌, drop, arith}
use dd.Base.Bytes.{Bytes, u64_mod, max_u64, be64, num, num-be64_append}
use dd.Base.Int.{ℤ, int64, scale}
use dd.Externals.{Crypto}
use dd.Kv.{Pk}
use dd.Write.{Write, join, write_hash}

abbrev pub BlockId : Type 0
BlockId = Bytes

pub record Block : Type 0 where
  pub round : ℕ
  pub timestamp : ℕ
  pub token : Bytes
  pub proof : Bytes
  pub pk : Pk
  pub prev : BlockId
  pub signature : Bytes
  pub writes : List Write

-- `ID.Round`
unfoldable pub id_round : BlockId → ℕ
id_round id = max_u64 - num id

-- `binary.BigEndian.PutUint64(roundb, math.MaxUint64-b.Round)`
abbrev pub round_bytes : ℕ → Bytes
round_bytes round = be64 (max_u64 - round)

-- the big-endian number of `big.Int.SetBytes`
unfoldable pub set_bytes : ℕ → Bytes → ℕ
set_bytes acc [] = acc
set_bytes acc (b ∷ bs) = set_bytes (acc * 256 + b) bs

-- `Block.Rank`
unfoldable pub rank : Block → ℕ → ℤ
unfolding set_bytes
rank b stake = scale (set_bytes 0 b.token) (int64 stake)

-- `Block.Seed`
unfoldable pub seed : Block → BlockId → Bytes
seed b stable = stable ++ (b.pk ++ be64 b.round)

-- `Block.AppendWrite`; a nil write is skipped
unfoldable pub append_write : Block → List (Option Write) → Block
append_write b [] = b
append_write b (none ∷ ws) = append_write b ws
append_write b (some w ∷ ws) = append_write (record b { writes = b.writes ++ (w ∷ []) }) ws

module _ ⦃c : Crypto⦄ where
  -- the hashes and signatures of the writes
  unfoldable pub write_hashes : List Write → List Bytes
  write_hashes [] = []
  write_hashes (w ∷ ws) = write_hash w ∷ w.signature ∷ write_hashes ws

  -- `Block.Hash`: the first 8 bytes of the sum are replaced by the round
  unfoldable pub block_hash : Block → BlockId
  unfolding write_hashes
  block_hash b =
      round_bytes b.round
      ++ drop 8 (
          c.sha256 (
            join (
              b.prev
              ∷ b.pk
              ∷ b.proof
              ∷ b.token
              ∷ be64 b.timestamp
              ∷ round_bytes b.round
              ∷ join (write_hashes b.writes)
              ∷ [])))

  -- `Block.VerifySignature`
  unfoldable pub verify_signature : Block → Bool
  verify_signature b = c.ed_verify b.pk (block_hash b) b.signature

  -- `Block.VerifyToken`
  unfoldable pub verify_token : Block → Bytes → BlockId → Bool
  verify_token b token_pk stable = c.vrf_verify token_pk (seed b stable) b.token b.proof

  -- The round of a block can be read back from its identifier, whatever the hash function.
  pub id_round-block_hash : (b : Block) → b.round < u64_mod → id_round (block_hash b) ≡ b.round
  unfolding id_round block_hash
  id_round-block_hash b h =
      let own : num (block_hash b) ≡ max_u64 - b.round =
        num-be64_append (max_u64 - b.round) _ (omega arith) in
      omega (arith, own)

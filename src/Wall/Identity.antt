-- ===== src/Wall/Identity.antt =====
-- The signing of blocks and transfers (exp/onl/wall/identity.go), and the references to outputs
-- (tr.go).
use mathlib.Core.Path.{subst}
use dd.Base.{◌∙◌, ◌≡◌, refl, ap, ℕ, ◌≤◌, ◌<◌, Bool, true, [], ◌∷◌, ◌++◌, ok, err, arith, length}
use dd.Base.Bytes.{Bytes, be64, u64_mod, num-be64}
use dd.Externals.{Crypto}
use dd.State.{zeros}
use dd.Store.Laws.{take-append, drop-append}
use dd.Wall.{
  Vote, Tr, WallBlock, ref, oid_tr, oid_idx, tr_hash, vote_hash, wall_hash, zero_sig, zero_proof,
  verify_vote, verify_block_id, verify_ticket,
}
use dd.Wall.Transfer.{Utro, check_shape, verify_transfer, check_amounts, bare_tr}
use dd.Wall.Verify.{verify_cheap}
use dd.Wall.Accept.{IsOwn, IsSigned}

-- `Identity`: the public key, and `vrf.Prove` with the secret key, whose results have the sizes of
-- the arrays that they are copied into
pub record Signer : Type 0 where
  pub pk : Bytes
  pub prove : Bytes → Bytes × Bytes

-- what is proved verifies
abbrev pub Proves : Crypto → Signer → Type 0
Proves c idn = (m : Bytes) → c.vrf_verify idn.pk m (idn.prove m).0 (idn.prove m).1 ≡ true

bare_eq :
    (v : Vote)
    → v.signature ≡ zero_sig
    → v.proof ≡ zero_proof
    → v ≡ record v { signature = zero_sig; proof = zero_proof }
bare_eq v sig proof =
    ap (λ s. record v { signature = s }) sig
    ∙ ap (λ (p : Bytes). record v { signature = zero_sig; proof = p }) proof

-- `NewTr`
abbrev pub new_tr : Tr
new_tr = record { inputs = []; outputs = []; sender = zero_sig; proof = zero_proof; id = zero_sig }

-- `Tr.Consume`: output `i` of `from` becomes an input
unfoldable pub consume : Tr → Tr → ℕ → Tr
consume tr from i = record tr { inputs = tr.inputs ++ ref from.id i ∷ [] }

-- `Tr.Send`
unfoldable pub send : Tr → ℕ → Bytes → ℕ → Bool → Tr
send tr amount to unlocks_after deposit = record tr {
  outputs =
      tr.outputs
      ++ record {
        amount = amount;
        receiver = to;
        is_deposit = deposit;
        unlocks_after = unlocks_after;
      }
        ∷ [];
}

module _ ⦃c : Crypto⦄ where
  -- `Identity.drawTicket`
  unfoldable pub draw_ticket : Signer → WallBlock → Bytes → WallBlock
  draw_ticket idn b prevt =
      let (token, proof) = idn.prove prevt in
      record b { ticket = record { proof = proof; token = token } }

  -- `Identity.signVote`: the vote is hashed before its signature is emptied
  unfoldable pub sign_vote : Signer → WallBlock → WallBlock
  sign_vote idn b =
      let (signature, proof) = idn.prove (vote_hash b.vote) in
      record b { vote = record b.vote { signature = signature; proof = proof } }

  -- `Identity.SignBlock`
  unfoldable pub sign_block : Signer → WallBlock → Bytes → WallBlock
  unfolding draw_ticket sign_vote
  sign_block idn b0 prevt =
      let b1 : WallBlock = record b0 { vote = record b0.vote { voter = idn.pk } } in
      let b2 = sign_vote idn (draw_ticket idn b1 prevt) in
      let b3 : WallBlock = record b2 { id = zero_sig; proof = zero_proof } in
      let (id, proof) = idn.prove (wall_hash b3) in record b3 { id = id; proof = proof }

  -- `Identity.SignTransfer`
  unfoldable pub sign_transfer : Signer → Tr → Tr
  sign_transfer idn tr0 =
      let tr : Tr = record tr0 { sender = idn.pk; id = zero_sig; proof = zero_proof } in
      let (id, proof) = idn.prove (tr_hash tr) in record tr { id = id; proof = proof }

  -- `GenesisBlock` of wall/chain/chain.go; the signing replaces its identifier
  unfoldable pub wall_genesis : Bytes → Signer → WallBlock
  unfolding sign_block
  wall_genesis token god =
      sign_block god
        (record {
          id = zero_sig;
          proof = zero_proof;
          vote = record {
            round = 0;
            prev = zero_sig;
            voter = zero_sig;
            deposit = zeros 40;
            timestamp = 0;
            signature = zero_sig;
            proof = zero_proof;
          };
          witness = [];
          ticket = record { proof = zero_proof; token = zero_sig };
          transfers = [];
        })
        token

  passes_cheap :
      (b : WallBlock) → IsOwn b → IsSigned b.vote → 1 ≤ b.vote.round → verify_cheap b ≡ (b, ok tt)
  unfolding verify_cheap verify_block_id verify_vote
  passes_cheap b own signed from = ground (arith, own, signed)

  sign_block-IsOwn :
      (idn : Signer) (b : WallBlock) (prevt : Bytes) → Proves c idn → IsOwn (sign_block idn b prevt)
  unfolding sign_block
  sign_block-IsOwn idn b prevt proves = proves _

  sign_block-IsSigned :
      (idn : Signer) (b : WallBlock) (prevt : Bytes)
      → Proves c idn
      → b.vote.signature ≡ zero_sig
      → b.vote.proof ≡ zero_proof
      → IsSigned (sign_block idn b prevt).vote
  unfolding sign_block sign_vote draw_ticket
  sign_block-IsSigned idn b prevt proves no_sig no_proof =
      let v : Vote = record b.vote { voter = idn.pk } in
      subst
        (λ (bare : Vote).
          c.vrf_verify idn.pk (vote_hash bare) (idn.prove (vote_hash v)).0
            (idn.prove (vote_hash v)).1
          ≡ true)
        (bare_eq v no_sig no_proof) (proves (vote_hash v))

  -- What is signed passes. A block whose vote has an empty signature, of a round from 1 on, passes
  -- the cheap checks once an identity has signed it, and its ticket verifies against the token that
  -- it was drawn from. What `vrf.Prove` returns verifies.
  pub sign_block-passes :
      (idn : Signer) (b : WallBlock) (prevt : Bytes)
      → Proves c idn
      → b.vote.signature ≡ zero_sig
      → b.vote.proof ≡ zero_proof
      → 1 ≤ b.vote.round
      → (verify_cheap (sign_block idn b prevt) ≡ (sign_block idn b prevt, ok tt))
        × (verify_ticket (sign_block idn b prevt) prevt ≡ true)
  sign_block-passes idn b prevt proves no_sig no_proof from = (
    passes_cheap (sign_block idn b prevt) (sign_block-IsOwn idn b prevt proves)
        (sign_block-IsSigned idn b prevt proves no_sig no_proof)
        (unfold sign_block sign_vote draw_ticket in from),
    unfold sign_block sign_vote draw_ticket verify_ticket in proves prevt,
  )

  verify_transfer-signed :
      (tr : Tr) (coinbase : Bool) (round : ℕ) (utro : Utro) (ttl : ℕ)
      → c.vrf_verify tr.sender (tr_hash (bare_tr tr)) tr.id tr.proof ≡ true
      → (verify_transfer tr coinbase round utro ttl).1 ≡ elim (check_shape tr coinbase) [
        | err e ↦ err e
        | ok _ ↦ check_amounts tr coinbase round utro ttl
      ]
  unfolding verify_transfer
  verify_transfer-signed tr coinbase round utro ttl signed = ground (arith, signed)

  -- A transfer that an identity has signed passes the check of its signature: it is refused for
  -- its form or for its amounts, or it is accepted. What `vrf.Prove` returns verifies.
  pub sign_transfer-passes :
      (idn : Signer) (tr : Tr) (coinbase : Bool) (round : ℕ) (utro : Utro) (ttl : ℕ)
      → Proves c idn
      → (verify_transfer (sign_transfer idn tr) coinbase round utro ttl).1
        ≡ elim (check_shape tr coinbase) [
          | err e ↦ err e
          | ok _ ↦ check_amounts (record tr { sender = idn.pk }) coinbase round utro ttl
        ]
  sign_transfer-passes idn tr coinbase round utro ttl proves =
      verify_transfer-signed (sign_transfer idn tr) coinbase round utro ttl
        (unfold sign_transfer in proves _)
      ∙ unfold sign_transfer check_shape check_amounts in refl

-- The transfer and the place of an output are read back from its reference, for transfer
-- identifiers of 32 bytes and places that fit a word.
pub ref-read_back :
    (trid : Bytes) (i : ℕ)
    → length trid ≡ 32
    → i < u64_mod
    → (oid_tr (ref trid i) ≡ trid) × (oid_idx (ref trid i) ≡ i)
unfolding ref oid_tr oid_idx
ref-read_back trid i len fits =
    (take-append 32 trid (be64 i) len, rw (drop-append 32 trid (be64 i) len) (num-be64 i fits))

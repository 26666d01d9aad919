-- ===== src/Tests/Signing.antt =====
-- Runs of the signing of blocks and transfers (exp/onl/wall/identity.go).
use dd.Base.{◌≡◌, refl, true, [], ◌∷◌, ok, err, arith}
use dd.State.{zeros}
use dd.Wall.{WallBlock, ref, oid_tr, oid_idx, zero_sig, zero_proof, verify_ticket}
use dd.Wall.Transfer.{verify_transfer, check_shape, check_amounts}
use dd.Wall.Verify.{verify_cheap}
use dd.Wall.Identity.{
  Signer, Proves, sign_block, sign_transfer, sign_block-passes, sign_transfer-passes, ref-read_back,
}
use dd.Tests.Memory.{crypto}
use dd.Tests.Transfers.{next_block, payment}

abbrev signer : Signer
signer = record { pk = 1 ∷ []; prove = λ m. (zeros 32, zeros 96) }

signer-Proves : Proves crypto signer
signer-Proves m = refl

abbrev unsigned : WallBlock
unsigned = record next_block {
  vote = record next_block.vote { signature = zero_sig; proof = zero_proof };
}

sign_block-passes_example :
    (verify_cheap (sign_block signer unsigned (zeros 32))
      ≡ (sign_block signer unsigned (zeros 32), ok tt))
    × (verify_ticket (sign_block signer unsigned (zeros 32)) (zeros 32) ≡ true)
sign_block-passes_example =
    sign_block-passes signer unsigned (zeros 32) signer-Proves refl refl (omega arith)

sign_transfer-passes_example :
    (verify_transfer (sign_transfer signer payment) true 1 [] 100).1
    ≡ elim (check_shape payment true) [
      | err e ↦ err e
      | ok _ ↦ check_amounts (record payment { sender = signer.pk }) true 1 [] 100
    ]
sign_transfer-passes_example = sign_transfer-passes signer payment true 1 [] 100 signer-Proves

ref-read_back_example : (oid_tr (ref zero_sig 7) ≡ zero_sig) × (oid_idx (ref zero_sig 7) ≡ 7)
ref-read_back_example = ref-read_back zero_sig 7 refl (omega arith)

-- ===== src/Wall/Verify.antt =====
-- The checks of a block (`VerifyCheap`, `VerifyAgainstPrev` and `VerifyAgainstUTRO` of
-- exp/onl/wall/block.go), with the protocol parameters (params.go).
use dd.Base.{
  ℕ, false, not, none, some, List, [], ◌∷◌, Result, ok, err, ◌>>=◌, ◌>>◌, wall, block_id_invalid,
  block_vote_signature_invalid, block_ticket_invalid, block_round_is_zero,
  witness_signature_invalid, witness_invalid_round, witness_timestamp_not_in_past,
  block_timestamp_in_past, block_round_in_past, block_deposit_not_spendable,
  block_voter_doesnt_own_deposit, no_spendable_deposit_available, blocks_ticket_not_good_enough,
  witness_was_prev_block, fail_if, ltb, leb, ◌==◌, if◌then◌else◌,
}
use dd.Base.Bytes.{Bytes, bytes_eq}
use dd.Base.Map.{get}
use dd.Externals.{Crypto, Decimals}
use dd.Wall.{Vote, Tr, WallBlock, verify_vote, verify_block_id, verify_ticket}
use dd.Wall.Threshold.{thr}
use dd.Wall.Transfer.{Utro, usable_deposit_for, deposited, verify_transfer}

-- `Params`; the precision of the decimals is fixed
pub record Params (Decimal : Type 0) : Type 0 where
  pub max_deposit_ttl : ℕ
  pub round_coefficient : Decimal
  pub genesis_ticket : Bytes
  pub weight_points : ℕ

-- the conditions on the rounds and times of a witness that is signed
unfoldable pub check_witness : Vote → ℕ → Vote → Result (Unit {0})
check_witness prevv timestamp w = do
  fail_if (not (w.round == prevv.round)) (wall witness_invalid_round)
  fail_if (leb timestamp w.timestamp) (wall witness_timestamp_not_in_past)
  fail_if (bytes_eq w.signature prevv.signature) (wall witness_was_prev_block)

module _ ⦃c : Crypto⦄ where
  -- the loop over the witnesses
  unfoldable pub check_witnesses : Vote → ℕ → List Vote → List Vote × Result (Unit {0})
  unfolding check_witness
  check_witnesses prevv timestamp [] = ([], ok tt)
  check_witnesses prevv timestamp (w ∷ ws) =
      let (w', signed) = verify_vote w in
      if not signed
      then (w' ∷ ws, err (wall witness_signature_invalid))
      else elim (check_witness prevv timestamp w) [
        | err e ↦ (w' ∷ ws, err e)
        | ok _ ↦ let (ws', res) = check_witnesses prevv timestamp ws in (w' ∷ ws', res)
      ]

  -- `Block.VerifyCheap`
  unfoldable pub verify_cheap : WallBlock → WallBlock × Result (Unit {0})
  verify_cheap b =
      let (b', own) = verify_block_id b in
      if not own
      then (b', err (wall block_id_invalid))
      else let (v, signed) = verify_vote b'.vote in
        let b'' = record b' { vote = v } in
        if not signed
        then (b'', err (wall block_vote_signature_invalid))
        else (b'', fail_if (ltb v.round 1) (wall block_round_is_zero))

  -- the checks of `VerifyAgainstPrev` before the witnesses
  unfoldable pub check_prev : WallBlock → Vote → Bytes → Result (Unit {0})
  check_prev b prevv prevt = do
    fail_if (not (verify_ticket b prevt)) (wall block_ticket_invalid)
    fail_if (leb b.vote.round prevv.round) (wall block_round_in_past)
    fail_if (leb b.vote.timestamp prevv.timestamp) (wall block_timestamp_in_past)

  -- `Block.VerifyAgainstPrev`
  unfoldable pub verify_against_prev : WallBlock → Vote → Bytes → WallBlock × Result (Unit {0})
  unfolding check_prev check_witnesses
  verify_against_prev b prevv prevt = elim (check_prev b prevv prevt) [
    | err e ↦ (b, err e)
    | ok _ ↦
        let (ws, res) = check_witnesses prevv b.vote.timestamp b.witness in
        (record b { witness = ws }, res)
  ]

  -- the loop of `VerifyAgainstUTRO` over the transfers, none of which is a coinbase
  unfoldable pub verify_transfers : ℕ → Utro → ℕ → List Tr → List Tr × Result (Unit {0})
  verify_transfers round utro ttl [] = ([], ok tt)
  verify_transfers round utro ttl (tr ∷ trs) =
      let (tr', res) = verify_transfer tr false round utro ttl in
      elim res [
        | err e ↦ (tr' ∷ trs, err e)
        | ok _ ↦ let (trs', res') = verify_transfers round utro ttl trs in (tr' ∷ trs', res')
      ]

module _ ⦃c : Crypto⦄ ⦃d : Decimals⦄ where
  -- the checks of `VerifyAgainstUTRO` of the deposit and of the ticket
  unfoldable pub check_stake : WallBlock → Utro → Params d.Decimal → Result (Unit {0})
  check_stake b utro p = elim (get b.vote.deposit utro) [
    | none ↦ err (wall block_deposit_not_spendable)
    | some deposit ↦ do
      let total = deposited b.vote.round p.max_deposit_ttl utro
      usable_deposit_for deposit b.vote.round p.max_deposit_ttl
      fail_if (not (bytes_eq deposit.receiver b.vote.voter)) (wall block_voter_doesnt_own_deposit)
      fail_if (ltb total 1) (wall no_spendable_deposit_available)
      good ← thr p.round_coefficient deposit.amount total b.ticket.token
      fail_if (not good) (wall blocks_ticket_not_good_enough)
  ]

  -- `Block.VerifyAgainstUTRO`
  unfoldable pub verify_against_utro :
      WallBlock → Utro → Params d.Decimal → WallBlock × Result (Unit {0})
  unfolding check_stake verify_transfers
  verify_against_utro b utro p = elim (check_stake b utro p) [
    | err e ↦ (b, err e)
    | ok _ ↦
        let (trs, res) = verify_transfers b.vote.round utro p.max_deposit_ttl b.transfers in
        (record b { transfers = trs }, res)
  ]

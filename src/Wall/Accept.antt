-- ===== src/Wall/Accept.antt =====
-- What a block has been checked for when it is accepted (`Append` of exp/onl/wall/chain/chain.go
-- and the checks of exp/onl/wall/block.go).
use dd.Base.{
  ◌≡◌, refl, ◌∙◌, ◌≢◌, ℕ, ◌≤◌, ◌<◌, true, false, none, some, List, [], ◌∷◌, ok, All, arith,
  Option-cases, inl, inr,
}
use dd.Base.Bytes.{Bytes, bytes_eq_iff}
use dd.Base.Map.{get, has}
use dd.Externals.{Crypto, Decimals}
use dd.Wall.{
  Vote, TrOut, Tr, WallBlock, vote_hash, wall_hash, verify_vote, verify_block_id, verify_ticket,
  zero_sig, zero_proof,
}
use dd.Wall.Threshold.{thr}
use dd.Wall.Transfer.{Utro, usable_deposit_for, sub_u64, deposited, verify_transfer}
use dd.Wall.Verify.{
  Params, check_witness, check_witnesses, verify_cheap, check_prev, verify_against_prev,
  verify_transfers, check_stake, verify_against_utro,
}
use dd.Wall.Chain.{MemChain, round_key, or_nil, index_utro, read_wall, check_on, check_block}
use dd.Wall.Money.{IsTransfer, accepts-IsTransfer, IsTransfer-accepts}

pair_eq : {A B : Type 0} {x y : A × B} → x.0 ≡ y.0 → x.1 ≡ y.1 → x ≡ y
pair_eq e h = cc

module _ ⦃c : Crypto⦄ where
  -- the signature of a vote holds
  abbrev pub IsSigned : Vote → Type 0
  IsSigned v =
      c.vrf_verify v.voter (vote_hash (record v { signature = zero_sig; proof = zero_proof }))
        v.signature v.proof
      ≡ true

  -- and that of a block
  abbrev pub IsOwn : WallBlock → Type 0
  IsOwn b =
      c.vrf_verify b.vote.voter (wall_hash (record b { id = zero_sig; proof = zero_proof })) b.id
        b.proof
      ≡ true

  -- a witness of a block of time `timestamp` on a block with the vote `prevv`
  abbrev pub IsWitness : Vote → ℕ → Vote → Type 0
  IsWitness prevv timestamp w =
      IsSigned w
      × (w.round ≡ prevv.round)
      × (w.timestamp < timestamp)
      × (w.signature ≢ prevv.signature)

  verify_cheap-eq-ok :
      (b : WallBlock)
      → (verify_cheap b).1 ≡ ok tt
      → ((verify_cheap b).0 ≡ b) × IsOwn b × IsSigned b.vote × (1 ≤ b.vote.round)
  unfolding verify_cheap verify_block_id verify_vote
  verify_cheap-eq-ok b h = ground arith

  check_witnesses-eq-ok :
      (prevv : Vote) (timestamp : ℕ) (ws : List Vote)
      → (check_witnesses prevv timestamp ws).1 ≡ ok tt
      → ((check_witnesses prevv timestamp ws).0 ≡ ws) × All (IsWitness prevv timestamp) ws
  unfolding check_witnesses check_witness verify_vote
  check_witnesses-eq-ok prevv timestamp [] h = (refl, tt)
  check_witnesses-eq-ok prevv timestamp (w ∷ ws) h =
      ground
        (arith, bytes_eq_iff w.signature prevv.signature, check_witnesses-eq-ok prevv timestamp ws)

  verify_against_prev-eq-ok :
      (b : WallBlock) (prevv : Vote) (prevt : Bytes)
      → (verify_against_prev b prevv prevt).1 ≡ ok tt
      → ((verify_against_prev b prevv prevt).0 ≡ b)
        × (verify_ticket b prevt ≡ true)
        × (prevv.round < b.vote.round)
        × (prevv.timestamp < b.vote.timestamp)
        × All (IsWitness prevv b.vote.timestamp) b.witness
  unfolding verify_against_prev check_prev
  verify_against_prev-eq-ok b prevv prevt h =
      ground (arith, check_witnesses-eq-ok prevv b.vote.timestamp b.witness)

  verify_transfers-step :
      (round : ℕ) (utro : Utro) (ttl : ℕ) (tr : Tr) (trs : List Tr)
      → (verify_transfers round utro ttl (tr ∷ trs)).1 ≡ ok tt
      → ((verify_transfer tr false round utro ttl).1 ≡ ok tt)
        × ((verify_transfers round utro ttl trs).1 ≡ ok tt)
        × ((verify_transfers round utro ttl (tr ∷ trs)).0
            ≡ (verify_transfer tr false round utro ttl).0 ∷ (verify_transfers round utro ttl trs).0)
  unfolding verify_transfers
  verify_transfers-step round utro ttl tr trs h = ground arith

  verify_transfers-eq-ok :
      (round : ℕ) (utro : Utro) (ttl : ℕ) (trs : List Tr)
      → (verify_transfers round utro ttl trs).1 ≡ ok tt
      → ((verify_transfers round utro ttl trs).0 ≡ trs)
        × All (λ tr. IsTransfer tr false round utro ttl) trs
  verify_transfers-eq-ok round utro ttl [] h = (unfold verify_transfers in refl, tt)
  verify_transfers-eq-ok round utro ttl (tr ∷ trs) h =
      let (here, later, same) = verify_transfers-step round utro ttl tr trs h in
      let (rest, others) = verify_transfers-eq-ok round utro ttl trs later in
      let own = accepts-IsTransfer tr false round utro ttl here in
      (same ∙ rw (rest, IsTransfer-accepts tr false round utro ttl own) refl, (own, others))

module _ ⦃c : Crypto⦄ ⦃d : Decimals⦄ where
  -- the voter of the block has an output for its ticket: a deposit of its own among the unspent
  -- outputs, locked past the round and for no more than the limit, with which the ticket passes the
  -- threshold for its share of all usable deposits
  pub record IsStaked (b : WallBlock) (utro : Utro) (p : Params d.Decimal) : Type 0 where
    pub out : TrOut
    pub unspent : get b.vote.deposit utro ≡ some out
    pub owned : out.receiver ≡ b.vote.voter
    pub is_deposit : out.is_deposit ≡ true
    pub locked : b.vote.round < out.unlocks_after
    pub not_too_long : sub_u64 out.unlocks_after b.vote.round ≤ p.max_deposit_ttl
    pub some_deposit : 1 ≤ deposited b.vote.round p.max_deposit_ttl utro
    pub good_ticket :
        thr p.round_coefficient out.amount
          (deposited b.vote.round p.max_deposit_ttl utro)
          b.ticket.token
        ≡ ok true

  check_stake-step :
      (b : WallBlock) (utro : Utro) (p : Params d.Decimal) (out : TrOut)
      → get b.vote.deposit utro ≡ some out
      → check_stake b utro p ≡ ok tt
      → (out.receiver ≡ b.vote.voter)
        × (out.is_deposit ≡ true)
        × (b.vote.round < out.unlocks_after)
        × (sub_u64 out.unlocks_after b.vote.round ≤ p.max_deposit_ttl)
        × (1 ≤ deposited b.vote.round p.max_deposit_ttl utro)
        × (thr p.round_coefficient out.amount
              (deposited b.vote.round p.max_deposit_ttl utro)
              b.ticket.token
            ≡ ok true)
  unfolding check_stake usable_deposit_for
  check_stake-step b utro p out at h = ground (arith, bytes_eq_iff out.receiver b.vote.voter)

  check_stake-IsStaked :
      (b : WallBlock) (utro : Utro) (p : Params d.Decimal)
      → check_stake b utro p ≡ ok tt
      → IsStaked b utro p
  check_stake-IsStaked b utro p h = elim (Option-cases (get b.vote.deposit utro)) [
    | inl absent ↦ absurd (unfold check_stake in ground arith)
    | inr (out, at) ↦
        let (owned, deposit, locked, short, total, good) = check_stake-step b utro p out at h in
        record {
          out = out;
          unspent = at;
          owned = owned;
          is_deposit = deposit;
          locked = locked;
          not_too_long = short;
          some_deposit = total;
          good_ticket = good;
        }
  ]

  verify_against_utro-eq-ok :
      (b : WallBlock) (utro : Utro) (p : Params d.Decimal)
      → (verify_against_utro b utro p).1 ≡ ok tt
      → ((verify_against_utro b utro p).0 ≡ b)
        × (check_stake b utro p ≡ ok tt)
        × All (λ tr. IsTransfer tr false b.vote.round utro p.max_deposit_ttl) b.transfers
  unfolding verify_against_utro
  verify_against_utro-eq-ok b utro p h =
      ground (arith, verify_transfers-eq-ok b.vote.round utro p.max_deposit_ttl b.transfers)

  check_block-cheap :
      (ch : MemChain d.Decimal) (b : WallBlock)
      → (check_block ch b).1 ≡ ok tt
      → (verify_cheap b).1 ≡ ok tt
  unfolding check_block
  check_block-cheap ch b h = ground arith

  check_block-on :
      (ch : MemChain d.Decimal) (b p : WallBlock)
      → verify_cheap b ≡ (b, ok tt)
      → get b.vote.prev ch.blocks ≡ some p
      → (check_block ch b).1 ≡ ok tt
      → (get b.id ch.blocks ≡ none)
        × ((check_on ch b p).1 ≡ ok tt)
        × ((check_block ch b).0 ≡ (check_on ch b p).0)
  unfolding check_block read_wall
  check_block-on ch b p cheap prev h = ground (arith, cheap, prev)

  check_block-prev :
      (ch : MemChain d.Decimal) (b : WallBlock)
      → verify_cheap b ≡ (b, ok tt)
      → (check_block ch b).1 ≡ ok tt
      → (p : WallBlock) × (get b.vote.prev ch.blocks ≡ some p)
  check_block-prev ch b cheap h = elim (Option-cases (get b.vote.prev ch.blocks)) [
    | inl absent ↦ absurd (unfold check_block read_wall in ground (arith, cheap, absent))
    | inr found ↦ found
  ]

  check_on-eq-ok :
      (ch : MemChain d.Decimal) (b p : WallBlock)
      → (check_on ch b p).1 ≡ ok tt
      → ((check_on ch b p).0 ≡ b)
        × ((verify_against_prev b p.vote p.ticket.token).1 ≡ ok tt)
        × (has b.vote.voter (or_nil (get (round_key b.vote.round) ch.idns)) ≡ false)
        × ((verify_against_utro b (index_utro ch.genesis ch.blocks p.id) ch.params).1 ≡ ok tt)
  unfolding check_on
  check_on-eq-ok ch b p h = ground (
    arith,
    verify_against_prev-eq-ok b p.vote p.ticket.token,
    verify_against_utro-eq-ok b (index_utro ch.genesis ch.blocks p.id) ch.params,
  )

  -- a block that may be stored on the block `p`
  pub record IsAccepted (ch : MemChain d.Decimal) (b p : WallBlock) : Type 0 where
    pub prev_known : get b.vote.prev ch.blocks ≡ some p
    pub own : IsOwn b
    pub signed : IsSigned b.vote
    pub is_new : get b.id ch.blocks ≡ none
    pub later_round : p.vote.round < b.vote.round
    pub later_time : p.vote.timestamp < b.vote.timestamp
    pub ticket : verify_ticket b p.ticket.token ≡ true
    pub witnesses : All (IsWitness p.vote b.vote.timestamp) b.witness
    pub first_vote : has b.vote.voter (or_nil (get (round_key b.vote.round) ch.idns)) ≡ false
    pub stake : IsStaked b (index_utro ch.genesis ch.blocks p.id) ch.params
    pub transfers :
        All
          (λ tr.
            IsTransfer tr false b.vote.round
              (index_utro ch.genesis ch.blocks p.id)
              ch.params.max_deposit_ttl)
          b.transfers

  -- What a block has passed that `Append` accepts, and that it comes out of the checks unchanged: it
  -- is signed by its voter, as is its vote, and is not there yet; its predecessor is, and it is
  -- later than that in rounds and in time; its ticket is drawn from that of the predecessor; its
  -- witnesses are signed, of the round of the predecessor, earlier than the block and not the
  -- predecessor; the voter has no block in the round yet, and owns an unspent deposit, locked
  -- past the round and for no more than the limit, with which the ticket passes the threshold for
  -- its share of the usable deposits; and the transfers can be made, each on the outputs that are
  -- unspent after the predecessor.
  pub check_block-IsAccepted :
      (ch : MemChain d.Decimal) (b : WallBlock)
      → (check_block ch b).1 ≡ ok tt
      → ((check_block ch b).0 ≡ b) × (p : WallBlock) × IsAccepted ch b p
  check_block-IsAccepted ch b h =
      let (same, own, signed, positive) = verify_cheap-eq-ok b (check_block-cheap ch b h) in
      let cheap : verify_cheap b ≡ (b, ok tt) = pair_eq same (check_block-cheap ch b h) in
      let (p, prev) = check_block-prev ch b cheap h in
      let (new, passed, checked) = check_block-on ch b p cheap prev h in
      let (kept, against_prev, first, against_utro) = check_on-eq-ok ch b p passed in
      let (_, ticket, later, time, witnesses) =
        verify_against_prev-eq-ok b p.vote p.ticket.token against_prev in
      let (_, stake, transfers) =
        verify_against_utro-eq-ok b (index_utro ch.genesis ch.blocks p.id) ch.params against_utro in
      (
        checked ∙ kept,
        p,
        record {
          prev_known = prev;
          own = own;
          signed = signed;
          is_new = new;
          later_round = later;
          later_time = time;
          ticket = ticket;
          witnesses = witnesses;
          first_vote = first;
          stake = check_stake-IsStaked b (index_utro ch.genesis ch.blocks p.id) ch.params stake;
          transfers = transfers;
        },
      )

-- ===== src/Tests/Transfers.antt =====
-- Runs of the chain of transfers (exp/onl/wall) on two blocks. The decimals are fractions; a power
-- is taken for the whole of the stake only.
use dd.Base.{
  ◌≡◌, refl, ap, ◌↔◌, ℕ, ◌+◌, ◌-◌, ◌*◌, ◌<◌, ◌≤◌, true, false, Option, none, some, List, [], ◌∷◌,
  ok, err, arith, ltb, ◌==◌, if◌then◌else◌, inl, inr,
}
use dd.Base.Bytes.{Bytes, be64, bytes_eq, bytes_eq_sound, u64_mod}
use dd.Base.Map.{get}
use dd.Externals.{Decimals}
use dd.State.{zeros}
use dd.Wall.{Vote, TrOut, Tr, WallBlock, ref}
use dd.Wall.Transfer.{Utro, verify_transfer, usable_deposit_for}
use dd.Wall.Verify.{Params}
use dd.Wall.Chain.{
  MemChain, new_mem_chain, append_wall, check_block, index_utro, walk_blocks, index_block, fuel_of,
}
use dd.Wall.Money.{
  IsTransfer, verify_transfer_iff, verify_transfer-relock, usable_deposit_for-window, relock,
}
use dd.Wall.Form.{IsWall}
use dd.Wall.Select.{Divides}
use dd.Wall.Accept.{IsAccepted, check_block-IsAccepted}
use dd.Wall.Stored.{append_wall-stored}
use dd.Wall.Reach.{IsMade, IsMade-IsFair, IsMade-votes_once}
use dd.Wall.Unspent.{
  Ancestry, history, output_at, replay_transfers, AreDetermined, NoneSpendsItself,
}
use dd.Wall.Replayed.{index_utro-replay, visit, walk_blocks-visit}
use dd.Tests.Memory.{crypto}

instance abbrev pub fractions : Decimals
fractions = record {
  Decimal = ℕ × ℕ;
  whole = λ n. (n, 1);
  sub = λ a b. some (a.0 * b.1 - b.0 * a.1, a.1 * b.1);
  quo = λ a b. if b.0 == 0 then none else some (a.0 * b.1, a.1 * b.0);
  pow = λ a b. some a;
  less = λ a b. ltb (a.0 * b.1) (b.0 * a.1);
}

fractions-Divides : Divides fractions
fractions-Divides a b h = ((a * 1, 1 * b), ground arith)

abbrev params : Params (ℕ × ℕ)
params = record {
  max_deposit_ttl = 100;
  round_coefficient = (1, 2);
  genesis_ticket = zeros 32;
  weight_points = 100;
}

-- a deposit that is locked until round 50, and funds that are not locked
abbrev stake_out : TrOut
stake_out = record { amount = 5; receiver = 1 ∷ []; is_deposit = true; unlocks_after = 50 }

abbrev funds : TrOut
funds = record { amount = 9; receiver = 1 ∷ []; is_deposit = false; unlocks_after = 0 }

abbrev paid : TrOut
paid = record { amount = 9; receiver = 2 ∷ []; is_deposit = false; unlocks_after = 0 }

abbrev grant : Tr
grant = record {
  inputs = [];
  outputs = stake_out ∷ funds ∷ [];
  sender = 1 ∷ [];
  proof = zeros 96;
  id = 10 ∷ [];
}

abbrev pub payment : Tr
payment = record {
  inputs = ref (10 ∷ []) 1 ∷ [];
  outputs = paid ∷ [];
  sender = 1 ∷ [];
  proof = zeros 96;
  id = 11 ∷ [];
}

abbrev vote_of : ℕ → Bytes → Bytes → Vote
vote_of round prev deposit = record {
  round = round;
  prev = prev;
  voter = 1 ∷ [];
  deposit = deposit;
  timestamp = round;
  signature = 1 ∷ [];
  proof = zeros 96;
}

abbrev origin_block : WallBlock
origin_block = record {
  id = 100 ∷ [];
  proof = zeros 96;
  vote = vote_of 0 (zeros 32) (zeros 40);
  witness = [];
  ticket = record { proof = zeros 96; token = zeros 32 };
  transfers = grant ∷ [];
}

abbrev pub next_block : WallBlock
next_block = record {
  id = 101 ∷ [];
  proof = zeros 96;
  vote = vote_of 1 (100 ∷ []) (ref (10 ∷ []) 0);
  witness = [];
  ticket = record { proof = zeros 96; token = zeros 32 };
  transfers = payment ∷ [];
}

abbrev start : MemChain (ℕ × ℕ)
start = new_mem_chain params origin_block

abbrev grown : MemChain (ℕ × ℕ)
grown = elim (append_wall start next_block) [ ok ch ↦ ch | err _ ↦ start ]

start-maxr : start.maxr + 1 < u64_mod
unfolding new_mem_chain
start-maxr = omega arith

next_block-passes : (check_block start next_block).1 ≡ ok tt
unfolding check_block append_wall new_mem_chain get ref be64 dd.Base.Bytes.bytes_eq dd.Base.Map.put
    dd.Base.Map.has dd.Wall.Chain.check_on dd.Wall.Chain.read_wall dd.Wall.Chain.index_utro
    dd.Wall.Chain.walk_blocks dd.Wall.Chain.fuel_of dd.Wall.Chain.index_transfers
    dd.Wall.Chain.mark_spent dd.Wall.Chain.put_outputs dd.Wall.Chain.write_block
    dd.Wall.Chain.select_longest_chain dd.Wall.Chain.select_rounds dd.Wall.Chain.select_round
    dd.Wall.Chain.sort_round dd.Wall.Chain.weigh_round_blocks dd.Wall.Verify.verify_cheap
    dd.Wall.Verify.verify_against_prev dd.Wall.Verify.check_prev dd.Wall.Verify.check_witnesses
    dd.Wall.Verify.verify_transfers dd.Wall.Verify.check_stake dd.Wall.Verify.verify_against_utro
    dd.Wall.verify_block_id dd.Wall.verify_vote dd.Wall.verify_ticket dd.Wall.Threshold.thr
    dd.Wall.Threshold.phi dd.Wall.Threshold.base dd.Wall.Threshold.alpha dd.Wall.Threshold.dec
    dd.Block.set_bytes verify_transfer dd.Wall.Transfer.check_shape dd.Wall.Transfer.check_amounts
    dd.Wall.Transfer.sum_inputs dd.Wall.Transfer.sum_outputs usable_deposit_for
    dd.Wall.Transfer.deposited
next_block-passes = refl

next_block-appended : append_wall start next_block ≡ ok grown
unfolding check_block append_wall new_mem_chain get ref be64 dd.Base.Bytes.bytes_eq dd.Base.Map.put
    dd.Base.Map.has dd.Wall.Chain.check_on dd.Wall.Chain.read_wall dd.Wall.Chain.index_utro
    dd.Wall.Chain.walk_blocks dd.Wall.Chain.fuel_of dd.Wall.Chain.index_transfers
    dd.Wall.Chain.mark_spent dd.Wall.Chain.put_outputs dd.Wall.Chain.write_block
    dd.Wall.Chain.select_longest_chain dd.Wall.Chain.select_rounds dd.Wall.Chain.select_round
    dd.Wall.Chain.sort_round dd.Wall.Chain.weigh_round_blocks dd.Wall.Verify.verify_cheap
    dd.Wall.Verify.verify_against_prev dd.Wall.Verify.check_prev dd.Wall.Verify.check_witnesses
    dd.Wall.Verify.verify_transfers dd.Wall.Verify.check_stake dd.Wall.Verify.verify_against_utro
    dd.Wall.verify_block_id dd.Wall.verify_vote dd.Wall.verify_ticket dd.Wall.Threshold.thr
    dd.Wall.Threshold.phi dd.Wall.Threshold.base dd.Wall.Threshold.alpha dd.Wall.Threshold.dec
    dd.Block.set_bytes verify_transfer dd.Wall.Transfer.check_shape dd.Wall.Transfer.check_amounts
    dd.Wall.Transfer.sum_inputs dd.Wall.Transfer.sum_outputs usable_deposit_for
    dd.Wall.Transfer.deposited
next_block-appended = refl

grown-IsMade : IsMade params origin_block grown
grown-IsMade = IsMade.appended next_block refl (omega arith) (IsMade.made refl) next_block-appended

start-IsWall : IsWall start
start-IsWall = (IsMade-IsFair fractions-Divides params origin_block start (IsMade.made refl)).wall

-- the outputs that are unspent after the first block
abbrev unspent : Utro
unspent = index_utro start.genesis start.blocks (100 ∷ [])

payment-accepted : (verify_transfer payment false 1 unspent 100).1 ≡ ok tt
unfolding check_block append_wall new_mem_chain get ref be64 dd.Base.Bytes.bytes_eq dd.Base.Map.put
    dd.Base.Map.has dd.Wall.Chain.check_on dd.Wall.Chain.read_wall dd.Wall.Chain.index_utro
    dd.Wall.Chain.walk_blocks dd.Wall.Chain.fuel_of dd.Wall.Chain.index_transfers
    dd.Wall.Chain.mark_spent dd.Wall.Chain.put_outputs dd.Wall.Chain.write_block
    dd.Wall.Chain.select_longest_chain dd.Wall.Chain.select_rounds dd.Wall.Chain.select_round
    dd.Wall.Chain.sort_round dd.Wall.Chain.weigh_round_blocks dd.Wall.Verify.verify_cheap
    dd.Wall.Verify.verify_against_prev dd.Wall.Verify.check_prev dd.Wall.Verify.check_witnesses
    dd.Wall.Verify.verify_transfers dd.Wall.Verify.check_stake dd.Wall.Verify.verify_against_utro
    dd.Wall.verify_block_id dd.Wall.verify_vote dd.Wall.verify_ticket dd.Wall.Threshold.thr
    dd.Wall.Threshold.phi dd.Wall.Threshold.base dd.Wall.Threshold.alpha dd.Wall.Threshold.dec
    dd.Block.set_bytes verify_transfer dd.Wall.Transfer.check_shape dd.Wall.Transfer.check_amounts
    dd.Wall.Transfer.sum_inputs dd.Wall.Transfer.sum_outputs usable_deposit_for
    dd.Wall.Transfer.deposited
payment-accepted = refl

verify_transfer_iff_example :
    ((verify_transfer payment false 1 unspent 100).1 ≡ ok tt)
    ↔ IsTransfer payment false 1 unspent 100
verify_transfer_iff_example = verify_transfer_iff payment false 1 unspent 100

verify_transfer-relock_example :
    (verify_transfer
      (record payment { outputs = relock (λ out. 7) payment.outputs })
      false
      1
      unspent
      100).1
    ≡ ok tt
verify_transfer-relock_example =
    verify_transfer-relock (λ out. 7) payment false 1 unspent 100 payment-accepted
      ((λ h. absurd (ground arith)), tt)

usable_deposit_for-window_example : (usable_deposit_for stake_out 1 100 ≡ ok tt) ↔ (
    (stake_out.is_deposit ≡ true)
    × (1 < stake_out.unlocks_after)
    × (stake_out.unlocks_after ≤ 1 + 100))
usable_deposit_for-window_example = usable_deposit_for-window stake_out 1 100 (omega arith)

append_wall-stored_example :
    (ch : MemChain (ℕ × ℕ)) × (append_wall start next_block ≡ ok ch)
    × IsWall ch
    × (get (101 ∷ []) ch.blocks ≡ some next_block)
append_wall-stored_example =
    append_wall-stored fractions-Divides start next_block start-IsWall refl (omega arith) start-maxr
      next_block-passes

check_block-IsAccepted_example :
    ((check_block start next_block).0 ≡ next_block)
    × (p : WallBlock) × IsAccepted start next_block p
check_block-IsAccepted_example = check_block-IsAccepted start next_block next_block-passes

next_block-there : get (101 ∷ []) grown.blocks ≡ some next_block
unfolding check_block append_wall new_mem_chain get ref be64 dd.Base.Bytes.bytes_eq dd.Base.Map.put
    dd.Base.Map.has dd.Wall.Chain.check_on dd.Wall.Chain.read_wall dd.Wall.Chain.index_utro
    dd.Wall.Chain.walk_blocks dd.Wall.Chain.fuel_of dd.Wall.Chain.index_transfers
    dd.Wall.Chain.mark_spent dd.Wall.Chain.put_outputs dd.Wall.Chain.write_block
    dd.Wall.Chain.select_longest_chain dd.Wall.Chain.select_rounds dd.Wall.Chain.select_round
    dd.Wall.Chain.sort_round dd.Wall.Chain.weigh_round_blocks dd.Wall.Verify.verify_cheap
    dd.Wall.Verify.verify_against_prev dd.Wall.Verify.check_prev dd.Wall.Verify.check_witnesses
    dd.Wall.Verify.verify_transfers dd.Wall.Verify.check_stake dd.Wall.Verify.verify_against_utro
    dd.Wall.verify_block_id dd.Wall.verify_vote dd.Wall.verify_ticket dd.Wall.Threshold.thr
    dd.Wall.Threshold.phi dd.Wall.Threshold.base dd.Wall.Threshold.alpha dd.Wall.Threshold.dec
    dd.Block.set_bytes verify_transfer dd.Wall.Transfer.check_shape dd.Wall.Transfer.check_amounts
    dd.Wall.Transfer.sum_inputs dd.Wall.Transfer.sum_outputs usable_deposit_for
    dd.Wall.Transfer.deposited
next_block-there = refl

next_block-older : bytes_eq (101 ∷ []) grown.genesis ≡ false
unfolding check_block append_wall new_mem_chain get ref be64 dd.Base.Bytes.bytes_eq dd.Base.Map.put
    dd.Base.Map.has dd.Wall.Chain.check_on dd.Wall.Chain.read_wall dd.Wall.Chain.index_utro
    dd.Wall.Chain.walk_blocks dd.Wall.Chain.fuel_of dd.Wall.Chain.index_transfers
    dd.Wall.Chain.mark_spent dd.Wall.Chain.put_outputs dd.Wall.Chain.write_block
    dd.Wall.Chain.select_longest_chain dd.Wall.Chain.select_rounds dd.Wall.Chain.select_round
    dd.Wall.Chain.sort_round dd.Wall.Chain.weigh_round_blocks dd.Wall.Verify.verify_cheap
    dd.Wall.Verify.verify_against_prev dd.Wall.Verify.check_prev dd.Wall.Verify.check_witnesses
    dd.Wall.Verify.verify_transfers dd.Wall.Verify.check_stake dd.Wall.Verify.verify_against_utro
    dd.Wall.verify_block_id dd.Wall.verify_vote dd.Wall.verify_ticket dd.Wall.Threshold.thr
    dd.Wall.Threshold.phi dd.Wall.Threshold.base dd.Wall.Threshold.alpha dd.Wall.Threshold.dec
    dd.Block.set_bytes verify_transfer dd.Wall.Transfer.check_shape dd.Wall.Transfer.check_amounts
    dd.Wall.Transfer.sum_inputs dd.Wall.Transfer.sum_outputs usable_deposit_for
    dd.Wall.Transfer.deposited
next_block-older = refl

abbrev own_id : Bytes
own_id = 101 ∷ []

IsMade-votes_once_example : own_id ≡ own_id
IsMade-votes_once_example =
    IsMade-votes_once fractions-Divides params origin_block grown grown-IsMade own_id own_id
      next_block next_block next_block-there next_block-there next_block-older next_block-older refl
      refl

grown-IsWall : IsWall grown
grown-IsWall = (IsMade-IsFair fractions-Divides params origin_block grown grown-IsMade).wall

both : Ancestry grown.genesis grown.blocks own_id (next_block ∷ origin_block ∷ [])
unfolding check_block append_wall new_mem_chain get ref be64 dd.Base.Bytes.bytes_eq dd.Base.Map.put
    dd.Base.Map.has dd.Wall.Chain.check_on dd.Wall.Chain.read_wall dd.Wall.Chain.index_utro
    dd.Wall.Chain.walk_blocks dd.Wall.Chain.fuel_of dd.Wall.Chain.index_transfers
    dd.Wall.Chain.mark_spent dd.Wall.Chain.put_outputs dd.Wall.Chain.write_block
    dd.Wall.Chain.select_longest_chain dd.Wall.Chain.select_rounds dd.Wall.Chain.select_round
    dd.Wall.Chain.sort_round dd.Wall.Chain.weigh_round_blocks dd.Wall.Verify.verify_cheap
    dd.Wall.Verify.verify_against_prev dd.Wall.Verify.check_prev dd.Wall.Verify.check_witnesses
    dd.Wall.Verify.verify_transfers dd.Wall.Verify.check_stake dd.Wall.Verify.verify_against_utro
    dd.Wall.verify_block_id dd.Wall.verify_vote dd.Wall.verify_ticket dd.Wall.Threshold.thr
    dd.Wall.Threshold.phi dd.Wall.Threshold.base dd.Wall.Threshold.alpha dd.Wall.Threshold.dec
    dd.Block.set_bytes verify_transfer dd.Wall.Transfer.check_shape dd.Wall.Transfer.check_amounts
    dd.Wall.Transfer.sum_inputs dd.Wall.Transfer.sum_outputs usable_deposit_for
    dd.Wall.Transfer.deposited
both = Ancestry.after next_block-there next_block-older (Ancestry.origin refl)

-- what the references of the test stand for
abbrev content : Bytes → TrOut
content k =
    if bytes_eq (ref (10 ∷ []) 0) k
    then stake_out
    else if bytes_eq (ref (10 ∷ []) 1) k
    then funds
    else paid

funds_apart :
    (k : Bytes)
    → bytes_eq (ref (10 ∷ []) 1) k ≡ true
    → (bytes_eq (ref (10 ∷ []) 0) k ≡ false) × (bytes_eq (ref (11 ∷ []) 0) k ≡ false)
unfolding ref be64 bytes_eq
funds_apart k h = rw (← (bytes_eq_sound (ref (10 ∷ []) 1) k h)) (refl, refl)

paid_apart :
    (k : Bytes)
    → bytes_eq (ref (11 ∷ []) 0) k ≡ true
    → (bytes_eq (ref (10 ∷ []) 0) k ≡ false) × (bytes_eq (ref (10 ∷ []) 1) k ≡ false)
unfolding ref be64 bytes_eq
paid_apart k h = rw (← (bytes_eq_sound (ref (11 ∷ []) 0) k h)) (refl, refl)

history-AreDetermined : AreDetermined content (history (next_block ∷ origin_block ∷ []))
unfolding output_at
history-AreDetermined =
    (λ k out e. ground (arith, funds_apart k), (λ k out e. ground (arith, paid_apart k), tt))

history-NoneSpendsItself : NoneSpendsItself (history (next_block ∷ origin_block ∷ []))
unfolding output_at
history-NoneSpendsItself =
    (λ k h. absurd (ground arith), (λ k h. ground (arith, funds_apart k), tt))

index_utro-replay_example :
    get (ref (11 ∷ []) 0) (index_utro grown.genesis grown.blocks own_id)
    ≡ get (ref (11 ∷ []) 0) (replay_transfers (history (next_block ∷ origin_block ∷ [])) [])
index_utro-replay_example =
    index_utro-replay grown grown-IsWall content own_id (next_block ∷ origin_block ∷ []) both
      history-AreDetermined history-NoneSpendsItself (ref (11 ∷ []) 0)

walk_blocks-visit_example :
    (bs : List WallBlock) × Ancestry grown.genesis grown.blocks own_id bs
    × (walk_blocks grown.genesis grown.blocks index_block
          (fuel_of own_id grown.blocks)
          own_id
          ([], [])
        ≡ visit index_block bs ([], []))
walk_blocks-visit_example =
    walk_blocks-visit grown grown-IsWall index_block ([], []) own_id next_block next_block-there

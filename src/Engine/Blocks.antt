-- ===== src/Engine/Blocks.antt =====
-- The handlers of blocks and rounds (`handleBlock` and `handleRound` of exp/onl/engine/engine.go, with
-- `Mint` and `Sign` of exp/onl/identity.go). What the identity computes with its secret keys is given.
use dd.Base.{
  ℕ, Option, none, some, List, [], ◌∷◌, ◌++◌, ok, err, Error, block_exist, append_conflict, ltb,
  take, if◌then◌else◌,
}
use dd.Base.Bytes.{Bytes}
use dd.Base.Map.{has, put}
use dd.Externals.{Crypto, Radix}
use dd.Kv.{Pk, read_stake}
use dd.Write.{Write}
use dd.State.{view, zeros}
use dd.Block.{Block, BlockId, block_hash, seed}
use dd.Store.{StoreTx}
use dd.Chain.{Chain}
use dd.Chain.Walk.{state_at, nil_id}
use dd.Chain.Append.{append, block_after}
use dd.Engine.{Msg}
use dd.Engine.Ooo.{Ooo, resolve, resolve_round}
use dd.Engine.Pool.{Pool, pick, take_write}

-- the signing keys of the member: its public key, `vrf.Prove` and `ed25519.Sign`
pub record Identity : Type 0 where
  pub pk : Pk
  pub prove : Bytes → Bytes × Bytes
  pub sign : Bytes → Bytes

-- `Identity.Mint`
unfoldable pub mint_block : Identity → ℕ → BlockId → BlockId → ℕ → Block
mint_block idn ts prev stable round =
    let b : Block = record {
      round = round;
      timestamp = ts;
      token = [];
      proof = [];
      pk = idn.pk;
      prev = prev;
      signature = zeros 64;
      writes = [];
    } in
    let (token, proof) = idn.prove (seed b stable) in record b { token = token; proof = proof }

-- how the loop of `handleBlock` ends: the block is stored, it was there, it is refused, or every
-- attempt has lost a race
pub data Attempt (T : Type 0) : Type 0 where
  stored : T → Attempt T
  exists : Attempt T
  refused : Error → Attempt T
  lost : Attempt T

-- what `handleBlock` does for an error of `Append`
abbrev pub on_error {ℓ} : {A : Type ℓ} → Error → A → A → A → A
on_error block_exist there retry other = there
on_error append_conflict there retry other = retry
on_error e there retry other = other

abbrev pub block_msg : Block → Msg
block_msg b = record { block = some b; write = none; sync = none }

-- what a handler leaves: the chain, the buffer and the pool, what the store holds if it changed, the
-- block as `Append` leaves it, the messages that are passed on, and those that are sent to the peers
pub record Handled (C : Type 0) (T : Type 0) : Type 0 where
  pub chain : C
  pub ooo : Ooo
  pub pool : Pool
  pub store : Option T
  pub block : Option Block
  pub due : List Msg
  pub sent : List Msg

-- the pool after the writes that it shares with a block were stamped
unfoldable pub share : List Write → Pool → Pool
share [] p = p
share (w ∷ ws) p = share ws (if has w.nonce p then put w.nonce w p else p)

module _ ⦃c : Crypto⦄ ⦃r : Radix⦄ ⦃x : StoreTx⦄ where
  -- the loop of `handleBlock`, with the store as each attempt finds it
  unfoldable pub append_block : List x.T → Chain → Block → Chain × Block × Attempt x.T
  append_block [] ch b = (ch, b, lost)
  append_block (t ∷ ts) ch b =
      let (ch', res) = append ch t b in
      let b' = block_after ch t b in
      elim res [
        | ok u ↦ (ch', b', stored u)
        | err e ↦ on_error e (ch', b', exists) (append_block ts ch' b') (ch', b', refused e)
      ]

  -- what follows the loop, whether or not the block is stored
  unfoldable pub relay : Chain → Ooo → Pool → Block → Option x.T → Handled Chain x.T
  relay ch o p b store =
      let (o', due) = resolve (block_hash b) o in
      record {
        chain = ch;
        ooo = o';
        pool = p;
        store = store;
        block = some b;
        due = due;
        sent = block_msg b ∷ [];
      }

  -- `Engine.handleBlock`: five attempts
  unfoldable pub handle_block : List x.T → Chain → Ooo → Pool → Block → Handled Chain x.T
  unfolding append_block relay
  handle_block ts ch o p b =
      let (ch', b', end) = append_block (take 5 ts) ch b in
      let quiet : Handled Chain x.T = record {
        chain = ch';
        ooo = o;
        pool = p;
        store = none;
        block = some b';
        due = [];
        sent = [];
      } in
      elim end [
        | exists ↦ quiet
        | refused e ↦ quiet
        | stored u ↦ relay ch' o p b' (some u)
        | lost ↦ relay ch' o p b' none
      ]

  -- `Engine.handleRound` on the store `t`; the attempts to store its own block find `ts`
  unfoldable pub handle_round :
      Identity → BlockId → ℕ → List x.T → x.T → Chain → Ooo → Pool → ℕ → ℕ → Handled Chain x.T
  unfolding handle_block mint_block share
  handle_round idn genesis maxw ts t ch o p round time =
      let (o', due, sync) = resolve_round round o in
      let idle : Handled Chain x.T = record {
        chain = ch;
        ooo = o';
        pool = p;
        store = none;
        block = none;
        due = due;
        sent = sync ∷ [];
      } in
      elim (state_at ch t nil_id) [
        | err e ↦ idle
        | ok (tip, s) ↦
            let stake = (view s (read_stake idn.pk)).0 in
            if ltb stake 1
            then idle
            else (let (s', p', b) =
                  pick (take_write maxw) s p (mint_block idn time tip genesis round) in
                let h =
                  handle_block ts ch o' p' (record b { signature = idn.sign (block_hash b) }) in
                record h {
                  pool = share (elim h.block [ none ↦ [] | some b' ↦ b'.writes ]) h.pool;
                  due = due ++ h.due;
                  sent = sync ∷ h.sent;
                })
      ]

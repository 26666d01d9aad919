-- ===== src/Tests/Engine.antt =====
-- Tests of the out-of-order buffer, the pool and a proposal.
use dd.Base.{
  ◌<◌, ◌≡◌, refl, ℕ, ◌+◌, Bool, true, false, Option, none, some, List, [], ◌∷◌, ◌++◌, Result, ok,
  err, arith, All,
}
use dd.Base.Bytes.{Bytes, bytes_eq, be64, u64, u64_mod}
use dd.Base.Map.{get, put, has}
use dd.State.{State, apply, empty_state, zeros, replay_block}
use dd.Block.{Block}
use dd.Kv.{coinbase_transfer}
use dd.Ssi.Client.{run}
use dd.Ssi.{
  new_tx, tx_set, tx_get, commit, handle_commit, oracle_commit, mark, any_newer, key_set,
  commit_time,
}
use dd.Engine.{Msg}
use dd.Engine.Ooo.{Ooo, new_ooo, handle, resolve, resolve_round, deferred, round_key}
use dd.Engine.Order.{handle-drops_second}
use dd.Engine.Ready.{IsReady, is_due, resolve-IsReady, resolve-keeps_due}
use dd.Engine.Pool.{Pool, pick, take_write}
use dd.Engine.Pooled.{
  IsPool, PoolCall, adds, picks, after_calls, first_valid, unstamped_of, after_calls-first_valid,
}
use dd.Engine.Proposal.{pick-applies}
use dd.Chain.Genesis.{blank_genesis}
use dd.Tests.Memory.{crypto, radix}
use dd.Tests.Accounts.{mint, gift}

-- two blocks of round 5 on block 1
abbrev child : Block
child = record (blank_genesis 5) { prev = 1 ∷ zeros 31 }

abbrev msg_of : Block → Msg
msg_of b = record { block = some b; write = none; sync = none }

abbrev twin : Block
twin = record child { timestamp = 9 }

handle-drops_second_example :
    let (o1, h1) = handle new_ooo (msg_of child) in
    let (o2, h2) = handle o1 (msg_of twin) in
    let (o3, h3) = resolve (1 ∷ zeros 31) o2 in
    let (o4, h4, s) = resolve_round 5 o3 in
    (h1 ++ h2 ++ h3 ++ h4 ≡ msg_of child ∷ [])
    × (deferred (1 ∷ zeros 31) o4.on_blocks ≡ [])
    × (deferred (round_key 5) o4.on_rounds ≡ [])
unfolding dd.Engine.dependency bytes_eq get
handle-drops_second_example =
    handle-drops_second new_ooo (msg_of child) (msg_of twin) (1 ∷ zeros 31) 5 refl refl refl refl
      refl refl

-- a buffer in which the child waits for its round alone
abbrev waiting : Ooo
waiting = (resolve (1 ∷ zeros 31) (handle new_ooo (msg_of child)).0).0

resolve-IsReady_example :
    All (IsReady (handle waiting (msg_of twin)).0) (handle waiting (msg_of twin)).1
    × All (IsReady (resolve (2 ∷ zeros 31) waiting).0) (resolve (2 ∷ zeros 31) waiting).1
    × All (IsReady (resolve_round 5 waiting).0) (resolve_round 5 waiting).1
resolve-IsReady_example = resolve-IsReady waiting (msg_of twin) (2 ∷ zeros 31) 5

resolve-keeps_due_example :
    (is_due (handle waiting (msg_of twin)).0 (1 ∷ zeros 31, 0) ≡ true)
    × (is_due (resolve (2 ∷ zeros 31) waiting).0 (1 ∷ zeros 31, 0) ≡ true)
    × (is_due (resolve_round 5 waiting).0 (1 ∷ zeros 31, 0) ≡ true)
unfolding dd.Engine.dependency dd.Engine.Ooo.handle_on dd.Engine.Ooo.handle_all dd.Engine.Ooo.await
    handle resolve deferred bytes_eq get put
resolve-keeps_due_example =
    resolve-keeps_due waiting (msg_of twin) (2 ∷ zeros 31) 5 (1 ∷ zeros 31, 0) refl

abbrev pool : Pool
pool = (mint.nonce, mint) ∷ (gift.nonce, gift) ∷ []

-- a write is added twice, with a pick in between, and one without a signature
abbrev calls : List (PoolCall Block)
calls =
    adds mint
    ∷ picks (take_write 10) empty_state child
    ∷ adds (record mint { signature = 1 ∷ [] })
    ∷ adds (record gift { signature = [] })
    ∷ []

after_calls-first_valid_example :
    let p = after_calls calls [] in
    IsPool p × ((n : Bytes) → unstamped_of (get n p) ≡ unstamped_of (first_valid n calls))
after_calls-first_valid_example = after_calls-first_valid calls

-- the state that has applied the second write
abbrev after_gift : State
after_gift = (apply empty_state gift false).0

clock_room : after_gift.db.oracle.time + 2 < u64_mod
unfolding apply coinbase_transfer run new_tx tx_set tx_get commit handle_commit oracle_commit mark
    any_newer key_set commit_time get put has bytes_eq be64 u64
clock_room = omega arith

-- a pool that still has it
pick-applies_example :
    (t : State) × (replay_block after_gift (pick (take_write 10) after_gift pool child).2.writes
      ≡ ok t)
unfolding bytes_eq dd.Base.Map.has get
pick-applies_example = pick-applies 10 pool after_gift child refl clock_room (refl, (refl, tt))

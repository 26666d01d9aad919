-- ===== src/Engine/Ooo.antt =====
-- The out-of-order buffer (exp/onl/engine/ooo.go): a message waits until the block and the round that
-- it depends on are resolved. An operation returns the messages that it hands to the handler, each
-- in a goroutine of its own, in the order in which they are started.
use dd.Base.{
  ℕ, Bool, true, false, Option, none, some, List, [], ◌∷◌, ◌++◌, ltb, leb, if◌then◌else◌, ◌&&◌,
}
use dd.Base.Bytes.{Bytes, bytes_eq}
use dd.Base.Map.{Map, get, put}
use dd.Block.{BlockId, id_round}
use dd.Chain.Walk.{nil_id}
use dd.Engine.{Msg, dependency}

-- what waits on a key: none for the nil slice of a key that is resolved
abbrev pub Waiting : Type 0
Waiting = Map (Option (List Msg))

-- The key of a round is the list of its number.
pub record Ooo : Type 0 where
  pub on_blocks : Waiting
  pub on_rounds : Waiting

-- `NewOutOfOrder`
abbrev pub new_ooo : Ooo
new_ooo = record { on_blocks = []; on_rounds = [] }

abbrev pub round_key : ℕ → Bytes
round_key nr = nr ∷ []

-- The part of `Handle` for one dependency: whether it is resolved. A message is added only under a
-- key that is not there.
unfoldable pub await : Bytes → Msg → Waiting → Bool × Waiting
await key msg w = elim (get key w) [
  | none ↦ (false, put key (some (msg ∷ [])) w)
  | some none ↦ (true, w)
  | some (some _) ↦ (false, w)
]

-- `OutOfOrder.Handle` for a message with these dependencies
unfoldable pub handle_on : Ooo → Msg → BlockId × ℕ → Ooo × List Msg
unfolding await
handle_on o msg (bdep, rdep) =
    let (bres, on_blocks) =
      if bytes_eq bdep nil_id then (true, o.on_blocks) else await bdep msg o.on_blocks in
    let (rres, on_rounds) =
      if ltb 0 rdep then await (round_key rdep) msg o.on_rounds else (true, o.on_rounds) in
    (record { on_blocks = on_blocks; on_rounds = on_rounds }, if rres && bres then msg ∷ [] else [])

-- `OutOfOrder.Handle`
unfoldable pub handle : Ooo → Msg → Ooo × List Msg
unfolding dependency handle_on
handle o msg = handle_on o msg (dependency msg)

-- the loop over the deferred messages
unfoldable pub handle_all : Ooo → List Msg → Ooo × List Msg
handle_all o [] = (o, [])
handle_all o (msg ∷ msgs) =
    let (o', now) = handle o msg in let (o'', later) = handle_all o' msgs in (o'', now ++ later)

-- the messages that were deferred under a key
unfoldable pub deferred : Bytes → Waiting → List Msg
deferred key w = elim (get key w) [ none ↦ [] | some none ↦ [] | some (some msgs) ↦ msgs ]

-- `OutOfOrder.Resolve`
unfoldable pub resolve : BlockId → Ooo → Ooo × List Msg
unfolding deferred
resolve id o =
    handle_all (record o { on_blocks = put id none o.on_blocks }) (deferred id o.on_blocks)

-- the blocks of past rounds that messages wait on
unfoldable pub missing : ℕ → Waiting → List BlockId
missing nr [] = []
missing nr ((id, none) ∷ w) = missing nr w
missing nr ((id, some _) ∷ w) = if leb (id_round id) nr then id ∷ missing nr w else missing nr w

-- `OutOfOrder.ResolveRound`: the sync that is sent to the peers comes third
unfoldable pub resolve_round : ℕ → Ooo → Ooo × List Msg × Msg
unfolding deferred missing
resolve_round nr o =
    let (o', msgs) =
      handle_all (record o { on_rounds = put (round_key nr) none o.on_rounds })
        (deferred (round_key nr) o.on_rounds) in
    (o', msgs, record { block = none; write = none; sync = some (missing nr o.on_blocks) })

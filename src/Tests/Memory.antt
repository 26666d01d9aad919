-- ===== src/Tests/Memory.antt =====
-- Concrete instances of what the library takes as parameters, for the tests: a hash that is the
-- identity, verifiers that accept signatures that are not empty, rows in an association list, and a store of
-- blocks in memory.
use dd.Base.{
  ◌≡◌, refl, ap, sym, ◌∙◌, ℕ, none, some, List, [], ◌∷◌, Result, ok, err, block_not_exist, length,
  ltb, leb, ◌==◌, arith, if◌then◌else◌,
}
use dd.Base.Bytes.{Bytes}
use dd.Base.Inversion.{ok-injective}
use dd.Base.Map.{Map, get, put, get-put}
use dd.Externals.{Crypto, Radix}
use dd.Block.{BlockId, block_hash, id_round}
use dd.State.{zeros}
use dd.Store.{Entry, StoreTx, StoreLaws}

instance abbrev pub crypto : Crypto
crypto = record {
  sha256 = λ b. b;
  ed_verify = λ pk m s. ltb 0 (length s);
  vrf_verify = λ pk seed token proof. ltb 0 (length token);
}

pub get-empty : (k : Bytes) → get {V = Bytes} k [] ≡ none
unfolding get
get-empty k = refl

instance abbrev pub radix : Radix
radix = record {
  Tree = Map Bytes;
  new = [];
  insert = put;
  lookup = get;
  lookup-new = get-empty;
  lookup-insert = λ k j v t. get-put k j v t;
}

pub record Memory : Type 0 where
  pub entries : Map Entry
  pub tip_of : BlockId × ℕ

-- the entries of a round
unfoldable pub of_round : ℕ → Map Entry → List (BlockId × Entry)
of_round nr [] = []
of_round nr ((id, e) ∷ m) = if id_round id == nr then (id, e) ∷ of_round nr m else of_round nr m

unfoldable pub highest : Map Entry → ℕ
highest [] = 0
highest ((id, _) ∷ m) = let rest = highest m in if leb rest (id_round id) then id_round id else rest

unfoldable pub find_entry : BlockId → Map Entry → Result Entry
find_entry id m = elim (get id m) [ none ↦ err block_not_exist | some e ↦ ok e ]

instance abbrev pub memory : StoreTx
memory = record {
  T = Memory;
  read_tip = λ t. ok t.tip_of;
  write_tip = λ id w t. ok (record t { tip_of = (id, w) });
  write = λ e t. ok (record t { entries = put (block_hash e.block) e t.entries });
  read = λ id t. find_entry id t.entries;
  round = λ nr t. ok (of_round nr t.entries);
  max_round = λ t. highest t.entries;
  min_round = λ t. 0;
  commit = λ t. ok t;
}

abbrev pub no_blocks : Memory
no_blocks = record { entries = []; tip_of = (zeros 32, 0) }

pub memory-StoreLaws : StoreLaws memory
unfolding find_entry
memory-StoreLaws = record {
  read-write = λ e t u id h.
      ap (λ (m : Memory). find_entry id m.entries) (sym (ok-injective h))
      ∙ ground (arith, get-put (block_hash e.block) id e t.entries);
  read-write_tip =
      λ tip w t u id h. ap (λ (m : Memory). find_entry id m.entries) (sym (ok-injective h));
  read_tip-write_tip = λ tip w t u hl hw h. ap (λ (m : Memory). ok m.tip_of) (sym (ok-injective h));
  read-commit = λ t u id h. ap (λ (m : Memory). find_entry id m.entries) (sym (ok-injective h));
}

-- ===== src/Wall/Transfer.antt =====
-- The set of unspent outputs (exp/onl/wall/utro.go), and the check of a transfer against it
-- (`Tr.Verify` of tr.go). Unsigned words wrap around at 2 ^ 64.
use dd.Base.{
  ℕ, ◌+◌, ◌-◌, ◌%◌, Bool, not, ◌&&◌, none, some, List, [], ◌∷◌, Result, ok, err, ◌>>=◌, ◌>>◌, wall,
  transfer_empty, transfer_id_invalid, transfer_sender_not_funds_owner,
  transfer_output_amount_invalid, transfer_time_locked_output, transfer_uses_unspendable_output,
  transfer_deposit_locked_too_long, block_deposit_not_locked, block_deposit_locked_too_long,
  block_deposit_not_marked_as_deposit, fail_if, ltb, leb, length, ◌==◌, if◌then◌else◌,
}
use dd.Base.Bytes.{Bytes, u64_mod, bytes_eq}
use dd.Base.Map.{Map, get}
use dd.Externals.{Crypto}
use dd.Wall.{TrOut, Tr, tr_hash, zero_sig, zero_proof}

-- `UTRO`; `Put` and `Get` are those of the map
abbrev pub Utro : Type 0
Utro = Map TrOut

-- `a - b` of two `uint64`
abbrev pub sub_u64 : ℕ → ℕ → ℕ
sub_u64 a b = (a + u64_mod - b) % u64_mod

-- `TrOut.UsableDepositFor`
unfoldable pub usable_deposit_for : TrOut → ℕ → ℕ → Result (Unit {0})
usable_deposit_for out round ttl = do
  fail_if (not out.is_deposit) (wall block_deposit_not_marked_as_deposit)
  fail_if (leb out.unlocks_after round) (wall block_deposit_not_locked)
  fail_if (ltb ttl (sub_u64 out.unlocks_after round)) (wall block_deposit_locked_too_long)

-- `UTRO.Deposited`
unfoldable pub deposited : ℕ → ℕ → Utro → ℕ
unfolding usable_deposit_for
deposited round ttl [] = 0
deposited round ttl ((_, out) ∷ utro) =
    let rest = deposited round ttl utro in
    elim (usable_deposit_for out round ttl) [ err _ ↦ rest | ok _ ↦ (out.amount + rest) % u64_mod ]

-- The loop of `Tr.Verify` over the inputs, which adds up their amounts.
unfoldable pub sum_inputs : Bytes → ℕ → Utro → ℕ → List Bytes → Result ℕ
sum_inputs sender round utro total [] = ok total
sum_inputs sender round utro total (input ∷ inputs) = elim (get input utro) [
  | none ↦ err (wall transfer_uses_unspendable_output)
  | some out ↦ do
    fail_if (not (bytes_eq out.receiver sender)) (wall transfer_sender_not_funds_owner)
    fail_if (leb round out.unlocks_after) (wall transfer_time_locked_output)
    sum_inputs sender round utro ((total + out.amount) % u64_mod) inputs
]

-- its loop over the outputs
unfoldable pub sum_outputs : ℕ → ℕ → ℕ → List TrOut → Result ℕ
sum_outputs round ttl total [] = ok total
sum_outputs round ttl total (out ∷ outs) = do
  fail_if (out.is_deposit && ltb ttl (sub_u64 out.unlocks_after round))
      (wall transfer_deposit_locked_too_long)
  sum_outputs round ttl ((total + out.amount) % u64_mod) outs

module _ ⦃c : Crypto⦄ where
  -- what `Tr.Verify` checks before the signature
  unfoldable pub check_shape : Tr → Bool → Result (Unit {0})
  check_shape tr coinbase = do
    fail_if (ltb (length tr.outputs) 1) (wall transfer_empty)
    fail_if (not coinbase && ltb (length tr.inputs) 1) (wall transfer_empty)

  -- and after it
  unfoldable pub check_amounts : Tr → Bool → ℕ → Utro → ℕ → Result (Unit {0})
  unfolding sum_inputs sum_outputs
  check_amounts tr coinbase round utro ttl = do
    in_total ← sum_inputs tr.sender round utro 0 tr.inputs
    out_total ← sum_outputs round ttl 0 tr.outputs
    fail_if (not coinbase && not (out_total == in_total)) (wall transfer_output_amount_invalid)

  -- the transfer with an empty signature
  abbrev pub bare_tr : Tr → Tr
  bare_tr tr = record tr { id = zero_sig; proof = zero_proof }

  -- `Tr.Verify`
  unfoldable pub verify_transfer : Tr → Bool → ℕ → Utro → ℕ → Tr × Result (Unit {0})
  unfolding check_shape check_amounts
  verify_transfer tr coinbase round utro ttl = elim (check_shape tr coinbase) [
    | err e ↦ (tr, err e)
    | ok _ ↦
        if c.vrf_verify tr.sender (tr_hash (bare_tr tr)) tr.id tr.proof
        then (tr, check_amounts tr coinbase round utro ttl)
        else (bare_tr tr, err (wall transfer_id_invalid))
  ]

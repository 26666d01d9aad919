-- ===== src/Base/Fallible.antt =====
-- Go's error results: a value or an error. `wrap` is `fmt.Errorf` around another error, and
-- `panic` a panic of the Go runtime or of the code.
use Prim.Native.String.{String}
use mathlib.Core.Path.{◌≡◌, refl, subst}
use mathlib.Core.Logic.{◌⊎◌, inl, inr}
use mathlib.Core.Bool.{Bool, true, false}
use mathlib.Core.Option.{Option, none, some}

-- the sentinel errors of exp/onl/wall/errors.go and wall/chain/errors.go
pub data WallError : Type 0 where
  transfer_empty transfer_id_invalid transfer_sender_not_funds_owner : WallError
  transfer_output_amount_invalid transfer_time_locked_output : WallError
  transfer_uses_unspendable_output transfer_deposit_locked_too_long : WallError
  block_id_invalid block_vote_signature_invalid block_ticket_invalid block_round_is_zero : WallError
  witness_signature_invalid witness_invalid_round witness_timestamp_not_in_past : WallError
  block_timestamp_in_past block_round_in_past block_deposit_not_spendable : WallError
  block_voter_doesnt_own_deposit block_deposit_not_locked block_deposit_locked_too_long : WallError
  block_deposit_not_marked_as_deposit no_spendable_deposit_available : WallError
  blocks_ticket_not_good_enough witness_was_prev_block : WallError
  wall_block_not_exist block_exists deposit_not_found voter_already_voted : WallError

-- the sentinel errors of exp/slot/errors2.go
pub data SlotError : Type 0 where
  block_nil_prev : SlotError
  proposal_token_len proposal_proof_len proposal_pk_len proposal_no_block : SlotError
  vote_token_len vote_proof_len vote_pk_len vote_no_proposal : SlotError

-- the sentinel errors of exp/onl/errors.go, ssi/errors.go, ssi/bank.go, engine/errors.go and io.EOF
pub data Error : Type 0 where
  invalid_signature invalid_token block_exist block_not_exist zero_round : Error
  stable_not_in_chain state_reconstruction apply_conflict no_token_pk zero_rank : Error
  round_nr_not_after_prev timestamp_not_after_prev not_weighted : Error
  append_conflict already_applied : Error
  conflict already_in_pool invalid_write_signature : Error
  account_exists account_not_exist not_enough_funds : Error
  badger_conflict : Error
  wall : WallError → Error
  slot : SlotError → Error
  -- not an error of the code: the loop has not ended within the fuel of the model
  diverges : Error
  failed : String → Error
  wrap : String → Error → Error
  panic : String → Error

-- the result of a call that may fail
pub data Result {ℓ} (V : Type ℓ) : Type ℓ where
  err : Error → Result V
  ok : V → Result V

-- `if test { return err }`
abbrev pub fail_if : Bool → Error → Result (Unit {0})
fail_if true e = err e
fail_if false e = ok tt

-- the rest of a function, after a call that may fail
abbrev pub ◌>>=◌ {κ ℓ} : {V : Type κ} {W : Type ℓ} → Result V → (V → Result W) → Result W
err e >>= next = err e
ok v >>= next = next v

-- and after a test
abbrev pub ◌>>◌ {ℓ} : {W : Type ℓ} → Result (Unit {0}) → Result W → Result W
test >> rest = test >>= (λ u. rest)

infixl 5 ◌>>=◌ ◌>>◌
-- an error of the callee, returned under a message
abbrev pub wrapped {ℓ} : {A : Type ℓ} → String → Result A → Result A
wrapped s (ok a) = ok a
wrapped s (err e) = err (wrap s e)

-- a helper that panics
abbrev pub or_panic {ℓ} : {A : Type ℓ} → Option A → String → Result A
or_panic (some a) s = ok a
or_panic none s = err (panic s)

-- a function that returned has come through its first call
pub >>=-eq-ok {κ ℓ} :
    {V : Type κ} {W : Type ℓ} (call : Result V) (next : V → Result W) {w : W}
    → (call >>= next) ≡ ok w
    → (v : V) × (call ≡ ok v) × (next v ≡ ok w)
>>=-eq-ok (err e) next returned = cc
>>=-eq-ok (ok v) next returned = (v, refl, returned)

pub Result-cases {ℓ} :
    {A : Type ℓ} (m : Result A) → ((a : A) × (m ≡ ok a)) ⊎ ((e : Error) × (m ≡ err e))
Result-cases (ok a) = inl (a, refl)
Result-cases (err e) = inr (e, refl)

-- `P` holds of the value, if there is one.
abbrev pub Returns {ℓ κ} : {A : Type ℓ} → (A → Type κ) → Result A → Type κ
Returns P (ok a) = P a
Returns P (err e) = Unit

pub Returns-eq-ok {ℓ κ} :
    {A : Type ℓ} (P : A → Type κ) (m : Result A) {a : A} → Returns P m → m ≡ ok a → P a
Returns-eq-ok P m h e = subst (λ r. Returns P r) e h

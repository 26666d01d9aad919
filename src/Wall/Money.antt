-- ===== src/Wall/Money.antt =====
-- What a transfer needs (`Tr.Verify` of exp/onl/wall/tr.go), and what its signature leaves open.
use dd.Base.{
  ◌≡◌, refl, ap, ◌∙◌, ◌++◌, ◌↔◌, ℕ, suc, ◌+◌, ◌%◌, ◌≤◌, ◌<◌, Bool, true, false, none, some, List,
  [], ◌∷◌, ok, All, arith, length, inl, inr, Option-cases, >>=-eq-ok,
}
use dd.Base.Bytes.{Bytes, u64_mod, bytes_eq_iff}
use dd.Base.Map.{get}
use dd.Externals.{Crypto}
use dd.Write.{join}
use dd.Wall.{TrOut, Tr, tr_hash, output_fields}
use dd.Wall.Transfer.{
  Utro, sub_u64, sum_inputs, sum_outputs, check_shape, check_amounts, verify_transfer, bare_tr,
  usable_deposit_for,
}

-- the sum of the outputs
unfoldable pub amount_out : List TrOut → ℕ
amount_out [] = 0
amount_out (out ∷ outs) = out.amount + amount_out outs

-- the sum of the unspent outputs that the inputs name
unfoldable pub amount_in : Utro → List Bytes → ℕ
amount_in utro [] = 0
amount_in utro (input ∷ inputs) =
    elim (get input utro) [ none ↦ 0 | some out ↦ out.amount ] + amount_in utro inputs

-- every input is an unspent output of the sender that was unlocked before the round
abbrev pub AllFunded : Bytes → ℕ → Utro → List Bytes → Type 0
AllFunded sender round utro = All (λ input.
    (out : TrOut) × (get input utro ≡ some out)
    × (out.receiver ≡ sender)
    × (out.unlocks_after < round))

-- a deposit is not locked for longer than the limit, counted in 64-bit words
abbrev pub AllLocked : ℕ → ℕ → List TrOut → Type 0
AllLocked round ttl = All (λ out. out.is_deposit ≡ true → sub_u64 out.unlocks_after round ≤ ttl)

-- what is left of the loop after an input that is there
sum_inputs-step :
    (sender : Bytes) (round : ℕ) (utro : Utro) (total : ℕ) (input : Bytes) (inputs : List Bytes)
    (out : TrOut) {n : ℕ}
    → get input utro ≡ some out
    → sum_inputs sender round utro total (input ∷ inputs) ≡ ok n
    → (out.receiver ≡ sender)
      × (out.unlocks_after < round)
      × (sum_inputs sender round utro ((total + out.amount) % u64_mod) inputs ≡ ok n)
unfolding sum_inputs
sum_inputs-step sender round utro total input inputs out at e =
    ground (arith, bytes_eq_iff out.receiver sender)

amount_in-step :
    (utro : Utro) (input : Bytes) (inputs : List Bytes) (out : TrOut)
    → get input utro ≡ some out
    → amount_in utro (input ∷ inputs) ≡ out.amount + amount_in utro inputs
unfolding amount_in
amount_in-step utro input inputs out at = ground arith

sum_inputs-funded :
    (sender : Bytes) (round : ℕ) (utro : Utro) (total : ℕ) (inputs : List Bytes) {n : ℕ}
    → total < u64_mod
    → sum_inputs sender round utro total inputs ≡ ok n
    → AllFunded sender round utro inputs × (n ≡ (total + amount_in utro inputs) % u64_mod)
sum_inputs-funded sender round utro total [] h e = unfold sum_inputs amount_in in (tt, ground arith)
sum_inputs-funded sender round utro total (input ∷ inputs) h e =
    elim (Option-cases (get input utro)) [
      | inl absent ↦ absurd (unfold sum_inputs in ground arith)
      | inr (out, at) ↦
          let (own, unlocked, rest) =
            sum_inputs-step sender round utro total input inputs out at e in
          let (funded, sum) =
            sum_inputs-funded sender round utro ((total + out.amount) % u64_mod) inputs
              (omega arith) rest in
          (
            ((out, at, own, unlocked), funded),
            omega (arith, sum, amount_in-step utro input inputs out at),
          )
    ]

funded-sum_inputs :
    (sender : Bytes) (round : ℕ) (utro : Utro) (total : ℕ) (inputs : List Bytes)
    → total < u64_mod
    → AllFunded sender round utro inputs
    → sum_inputs sender round utro total inputs ≡ ok ((total + amount_in utro inputs) % u64_mod)
unfolding sum_inputs amount_in
funded-sum_inputs sender round utro total [] h f = ap ok (omega arith)
funded-sum_inputs sender round utro total (input ∷ inputs) h f =
    let (out, at, own, unlocked) = f.0 in
    ground (
      arith,
      bytes_eq_iff out.receiver sender,
      funded-sum_inputs sender round utro ((total + out.amount) % u64_mod) inputs (omega arith) f.1,
    )

sum_outputs-locked :
    (round ttl total : ℕ) (outs : List TrOut) {n : ℕ}
    → total < u64_mod
    → sum_outputs round ttl total outs ≡ ok n
    → AllLocked round ttl outs × (n ≡ (total + amount_out outs) % u64_mod)
unfolding sum_outputs amount_out
sum_outputs-locked round ttl total [] h e = (tt, ground arith)
sum_outputs-locked round ttl total (out ∷ outs) {n = n} h e =
    ground (arith, sum_outputs-locked round ttl ((total + out.amount) % u64_mod) outs {n = n})

locked-sum_outputs :
    (round ttl total : ℕ) (outs : List TrOut)
    → total < u64_mod
    → AllLocked round ttl outs
    → sum_outputs round ttl total outs ≡ ok ((total + amount_out outs) % u64_mod)
unfolding sum_outputs amount_out
locked-sum_outputs round ttl total [] h f = ap ok (omega arith)
locked-sum_outputs round ttl total (out ∷ outs) h f = ground (
  arith,
  f.0,
  locked-sum_outputs round ttl ((total + out.amount) % u64_mod) outs (omega arith) f.1,
)

-- The outputs of a transfer with other lock times.
abbrev pub relock : (TrOut → ℕ) → List TrOut → List TrOut
relock f [] = []
relock f (out ∷ outs) = record out { unlocks_after = f out } ∷ relock f outs

output_fields-relock :
    (f : TrOut → ℕ) (outs : List TrOut) → output_fields (relock f outs) ≡ output_fields outs
unfolding output_fields
output_fields-relock f [] = refl
output_fields-relock f (out ∷ outs) = ground (arith, output_fields-relock f outs)

length-relock : (f : TrOut → ℕ) (outs : List TrOut) → length (relock f outs) ≡ length outs
length-relock f [] = refl
length-relock f (out ∷ outs) = ap suc (length-relock f outs)

amount_out-relock :
    (f : TrOut → ℕ) (outs : List TrOut) → amount_out (relock f outs) ≡ amount_out outs
unfolding amount_out
amount_out-relock f [] = refl
amount_out-relock f (out ∷ outs) = ap (λ n. out.amount + n) (amount_out-relock f outs)

module _ ⦃c : Crypto⦄ where
  -- a transfer that may be made in the round
  pub record IsTransfer (tr : Tr) (coinbase : Bool) (round : ℕ) (utro : Utro) (ttl : ℕ)
      : Type 0 where
    pub has_outputs : 0 < length tr.outputs
    pub has_inputs : coinbase ≡ false → 0 < length tr.inputs
    pub signed : c.vrf_verify tr.sender (tr_hash (bare_tr tr)) tr.id tr.proof ≡ true
    pub funded : AllFunded tr.sender round utro tr.inputs
    pub locked : AllLocked round ttl tr.outputs
    pub balanced :
        coinbase ≡ false → amount_out tr.outputs % u64_mod ≡ amount_in utro tr.inputs % u64_mod

  check_amounts-eq-ok :
      (tr : Tr) (coinbase : Bool) (round : ℕ) (utro : Utro) (ttl : ℕ)
      → check_amounts tr coinbase round utro ttl ≡ ok tt
      → AllFunded tr.sender round utro tr.inputs
        × AllLocked round ttl tr.outputs
        × (coinbase ≡ false → amount_out tr.outputs % u64_mod ≡ amount_in utro tr.inputs % u64_mod)
  unfolding check_amounts
  check_amounts-eq-ok tr coinbase round utro ttl h =
      let (n, into, rest) = >>=-eq-ok (sum_inputs tr.sender round utro 0 tr.inputs) _ h in
      let (m, outof, balance) = >>=-eq-ok (sum_outputs round ttl 0 tr.outputs) _ rest in
      let (funded, n-is) = sum_inputs-funded tr.sender round utro 0 tr.inputs (omega arith) into in
      let (locked, m-is) = sum_outputs-locked round ttl 0 tr.outputs (omega arith) outof in
      (funded, locked, λ paid. ground (arith, n-is, m-is, paid, balance))

  verify_transfer-eq-ok :
      (tr : Tr) (coinbase : Bool) (round : ℕ) (utro : Utro) (ttl : ℕ)
      → (verify_transfer tr coinbase round utro ttl).1 ≡ ok tt
      → (check_shape tr coinbase ≡ ok tt)
        × (c.vrf_verify tr.sender (tr_hash (bare_tr tr)) tr.id tr.proof ≡ true)
        × (check_amounts tr coinbase round utro ttl ≡ ok tt)
  unfolding verify_transfer
  verify_transfer-eq-ok tr coinbase round utro ttl h = ground arith

  pub accepts-IsTransfer :
      (tr : Tr) (coinbase : Bool) (round : ℕ) (utro : Utro) (ttl : ℕ)
      → (verify_transfer tr coinbase round utro ttl).1 ≡ ok tt
      → IsTransfer tr coinbase round utro ttl
  unfolding check_shape
  accepts-IsTransfer tr coinbase round utro ttl h =
      let (shape, signed, amounts) = verify_transfer-eq-ok tr coinbase round utro ttl h in
      let (funded, locked, balanced) = check_amounts-eq-ok tr coinbase round utro ttl amounts in
      record {
        has_outputs = ground arith;
        has_inputs = λ paid. ground arith;
        signed = signed;
        funded = funded;
        locked = locked;
        balanced = balanced;
      }

  pub IsTransfer-accepts :
      (tr : Tr) (coinbase : Bool) (round : ℕ) (utro : Utro) (ttl : ℕ)
      → IsTransfer tr coinbase round utro ttl
      → verify_transfer tr coinbase round utro ttl ≡ (tr, ok tt)
  unfolding verify_transfer check_shape check_amounts
  IsTransfer-accepts tr coinbase round utro ttl t = ground (
    arith,
    t.has_outputs,
    t.has_inputs,
    t.signed,
    t.balanced,
    funded-sum_inputs tr.sender round utro 0 tr.inputs (omega arith) t.funded,
    locked-sum_outputs round ttl 0 tr.outputs (omega arith) t.locked,
  )

  -- Which transfers are accepted: those with outputs, with inputs unless they are a coinbase, with
  -- a signature of the sender, whose inputs are unspent outputs of the sender that were unlocked
  -- before the round, whose deposits are not locked for too long, and whose outputs have the sum
  -- of the inputs, as 64-bit words, unless they are a coinbase. No other condition is checked: an
  -- input may be named twice.
  pub verify_transfer_iff :
      (tr : Tr) (coinbase : Bool) (round : ℕ) (utro : Utro) (ttl : ℕ)
      → ((verify_transfer tr coinbase round utro ttl).1 ≡ ok tt)
        ↔ IsTransfer tr coinbase round utro ttl
  verify_transfer_iff tr coinbase round utro ttl = (
    accepts-IsTransfer tr coinbase round utro ttl,
    λ t. ap (λ r. r.1) (IsTransfer-accepts tr coinbase round utro ttl t),
  )

  tr_hash-relock :
      (f : TrOut → ℕ) (tr : Tr) → tr_hash (record tr { outputs = relock f tr.outputs }) ≡ tr_hash tr
  unfolding tr_hash
  tr_hash-relock f tr =
      ap (λ fields. c.sha256 (join (tr.inputs ++ (fields ++ tr.sender ∷ tr.id ∷ tr.proof ∷ []))))
        (output_fields-relock f tr.outputs)

  -- The signature of a transfer does not cover its lock times: a transfer that is accepted is
  -- accepted with any other lock times of its outputs too, with the same identifier and proof,
  -- as long as its deposits are not locked for too long.
  pub verify_transfer-relock :
      (f : TrOut → ℕ) (tr : Tr) (coinbase : Bool) (round : ℕ) (utro : Utro) (ttl : ℕ)
      → (verify_transfer tr coinbase round utro ttl).1 ≡ ok tt
      → AllLocked round ttl (relock f tr.outputs)
      → (verify_transfer (record tr { outputs = relock f tr.outputs }) coinbase round utro ttl).1
        ≡ ok tt
  verify_transfer-relock f tr coinbase round utro ttl h locked =
      let t = accepts-IsTransfer tr coinbase round utro ttl h in
      ap (λ r. r.1)
        (IsTransfer-accepts _ coinbase round utro ttl (record {
          has_outputs = rw (length-relock f tr.outputs) t.has_outputs;
          has_inputs = t.has_inputs;
          signed =
              ap (λ h. c.vrf_verify tr.sender h tr.id tr.proof) (tr_hash-relock f (bare_tr tr))
              ∙ t.signed;
          funded = t.funded;
          locked = locked;
          balanced = λ paid. rw (amount_out-relock f tr.outputs) (t.balanced paid);
        }))

-- A deposit that is usable in a round is locked past the round, and for no more than the limit; no
-- wrap-around of the words gets another one through. The lock time is a 64-bit word.
pub usable_deposit_for-window :
    (out : TrOut) (round ttl : ℕ)
    → out.unlocks_after < u64_mod
    → (usable_deposit_for out round ttl ≡ ok tt)
      ↔ ((out.is_deposit ≡ true) × (round < out.unlocks_after) × (out.unlocks_after ≤ round + ttl))
unfolding usable_deposit_for
usable_deposit_for-window out round ttl h = (λ e. ground arith, λ w. ground arith)

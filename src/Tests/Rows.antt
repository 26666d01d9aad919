-- ===== src/Tests/Rows.antt =====
-- Tests of the database (exp/onl/ssi).
use dd.Base.{◌≡◌, refl, false, Option, none, some, [], ◌∷◌, ok, arith}
use dd.Base.Bytes.{Bytes, bytes_eq, bytes_eq}
use dd.Base.Map.{get, put}
use dd.Ssi.{
  TxData, new_db, new_tx, tx_set, tx_get, commit, handle_commit, oracle_commit, insert_all, mark,
  any_newer, key_set, commit_time,
}
use dd.Ssi.Client.{Client, run, ◌>>=◌, ◌>>◌, get_row, set_row}
use dd.Ssi.Clock.{IsClocked-new_oracle}
use dd.Ssi.Serial.{serve, commit-serializable}
use dd.Tests.Memory.{crypto, radix}

-- a client that writes row 2 as row 1 is
abbrev copy : Client (Option Bytes)
copy = do
  v ← get_row (1 ∷ [])
  set_row (2 ∷ []) (elim v [ none ↦ 5 ∷ [] | some w ↦ w ])
  get_row (2 ∷ [])

-- another client's commit of row 3
abbrev other : TxData
other = (run (set_row (3 ∷ []) (7 ∷ [])) (new_tx new_db)).1.txd

commit-serializable_example :
    let now = serve new_db ((other, false) ∷ []) in
    ((run copy (new_tx new_db)).0 ≡ (run copy (new_tx now)).0)
    × ((commit now (run copy (new_tx new_db)).1.txd false).0
        ≡ (commit now (run copy (new_tx now)).1.txd false).0)
    × ((commit now (run copy (new_tx now)).1.txd false).2 ≡ ok tt)
unfolding serve run new_tx tx_set tx_get commit handle_commit oracle_commit insert_all mark
    any_newer key_set commit_time get put bytes_eq
commit-serializable_example =
    commit-serializable copy new_db ((other, false) ∷ []) IsClocked-new_oracle (omega arith)
      ((refl, tt), tt) (omega arith) refl

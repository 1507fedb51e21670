-- ===== src/Chain/Accepted.antt =====
-- What the chain knows of a transaction that it accepts (crates/godcoin/src/blockchain/mod.rs).
use godcoin.Base.{◌≤◌, ◌≡◌, ap, ◌∙◌, arith, false, not, List, [], some, Result, ok, err, length}
use godcoin.Base.Int.{ℤ, pos, ◌+ℤ◌, ◌-ℤ◌, ◌≤ℤ◌, ltb_ℤ, eqb_ℤ, int_laws, eq_of_parts, InI64}
use godcoin.Asset.{Asset}
use godcoin.Asset.Arith.{checked_add_iff, checked_sub_iff}
use godcoin.Crypto.{Crypto}
use godcoin.Script.Consume.{Fault, eval_err}
use godcoin.Tx.Types.{TxVariant, MintTx, TransferTx, mint_tx, transfer_tx, sigs}
use godcoin.Receipt.Types.{LogEntry, Receipt}
use godcoin.Engine.Invariant.{log_sum}
use godcoin.Engine.Settle.{eval-pays_all}
use godcoin.Chain.Types.{TxErr, AccountInfo, total_fee}
use godcoin.Chain.Accounts.{Blockchain, get_account_info}
use godcoin.Chain.Execute.{
  of_eval, engine_data, run_script, execute_tx, execute_body, execute_transfer, execute_mint,
}
use godcoin.Chain.Inversion.{bind_ok, bind_ok-elim, reject_if_ok, ok_or_ok}

-- The sender can pay for the transfer and for its fee, which is no lower than the required one.
pub record Payable (ch : Blockchain) (tx : TransferTx) (receipts : List Receipt) : Type 0 where
  pub info : AccountInfo
  pub known : get_account_info {E = TxErr} ch tx.from receipts ≡ ok (some info)
  pub fee : Asset
  pub required : total_fee info ≡ some fee
  pub fee_paid : fee.amount ≤ℤ tx.base.fee.amount
  pub covered : tx.base.fee.amount +ℤ tx.amount.amount ≤ℤ info.account.balance.amount
  pub not_negative : pos 0 ≤ℤ tx.amount.amount

of_eval_ok :
    (r : Result Fault (List LogEntry)) (log : List LogEntry) → of_eval r ≡ ok log → r ≡ ok log
unfolding of_eval
of_eval_ok (ok l) log e = cc
of_eval_ok (err (eval_err x)) log e = absurd cc
of_eval_ok (err Fault.panic) log e = absurd cc
of_eval_ok (err Fault.out_of_fuel) log e = absurd cc

not_below : (x y : ℤ) → ltb_ℤ x y ≡ false → y ≤ℤ x
not_below x y e = ground arith

covers_exact :
    (balance fee amount : ℤ) → pos 0 ≤ℤ balance -ℤ fee -ℤ amount → fee +ℤ amount ≤ℤ balance
covers_exact balance fee amount h = omega int_laws

covers :
    (balance fee amount rest bal : ℤ)
    → rest ≡ balance -ℤ fee
    → bal ≡ rest -ℤ amount
    → pos 0 ≤ℤ bal
    → fee +ℤ amount ≤ℤ balance
covers balance fee amount rest bal e e' h = covers_exact balance fee amount (rw⁻¹ (e) (rw⁻¹ (e') h))

pub sigs_bounded :
    (c : Crypto) (ch : Blockchain) (tx : TxVariant) (receipts : List Receipt) (log : List LogEntry)
    → execute_tx c ch tx receipts ≡ ok log
    → (length (sigs tx) ≤ 8) × (execute_body c ch tx receipts ≡ ok log)
unfolding execute_tx
sigs_bounded c ch tx receipts log e =
    let (u, few, body) = bind_ok _ _ log e in (ground (arith, reject_if_ok _ _ u few), body)

transfer_checks :
    (c : Crypto) (ch : Blockchain) (tx : TransferTx) (receipts : List Receipt) (log : List LogEntry)
    → execute_transfer c ch tx receipts ≡ ok log
    → Payable ch tx receipts × (log_sum log ≡ tx.amount.amount)
unfolding execute_transfer run_script
transfer_checks c ch tx receipts log e = bind_ok-elim _ _ log e (λ _ _ e1.
    bind_ok-elim _ _ log e1 (λ _ nonneg e2. bind_ok-elim _ _ log e2 (λ found known e3.
      bind_ok-elim _ _ log e3 (λ info is_known e4. bind_ok-elim _ _ log e4 (λ fee has_fee e5.
        bind_ok-elim _ _ log e5 (λ _ enough e6. bind_ok-elim _ _ log e6 (λ rest has_rest e7.
          bind_ok-elim _ _ log e7 (λ bal has_bal e8. bind_ok-elim _ _ log e8 (λ _ left ran.
            let remaining = not_below bal.amount (pos 0) (reject_if_ok _ _ _ left) in
            let not_negative = not_below tx.amount.amount (pos 0) (reject_if_ok _ _ _ nonneg) in
            (
              record {
                info = info;
                known = known ∙ ap ok (ok_or_ok _ _ _ is_known);
                fee = fee;
                required = ok_or_ok _ _ _ has_fee;
                fee_paid = not_below tx.base.fee.amount fee.amount (reject_if_ok _ _ _ enough);
                covered =
                    covers _ _ _ rest.amount bal.amount
                      (((checked_sub_iff _ _ _).0 (ok_or_ok _ _ _ has_rest)).0)
                      (((checked_sub_iff _ _ _).0 (ok_or_ok _ _ _ has_bal)).0) remaining;
                not_negative = not_negative;
              },
              eval-pays_all c (engine_data c ch (transfer_tx tx) receipts info.account.script) log
                  not_negative (of_eval_ok _ _ ran),
            ))))))))))

-- A transfer that is accepted has at most eight signatures; its amount is not negative, its sender
-- is known and can pay the amount and the fee, and the fee is no lower than the required one; and the
-- log it returns pays out exactly the amount.
pub transfer_accepted :
    (c : Crypto) (ch : Blockchain) (tx : TransferTx) (receipts : List Receipt) (log : List LogEntry)
    → execute_tx c ch (transfer_tx tx) receipts ≡ ok log
    → (length tx.base.signature_pairs ≤ 8)
      × Payable ch tx receipts
      × (log_sum log ≡ tx.amount.amount)
unfolding execute_body
transfer_accepted c ch tx receipts log e =
    let (few, body) = sigs_bounded c ch (transfer_tx tx) receipts log e in
    let (payable, paid) = transfer_checks c ch tx receipts log body in (few, payable, paid)

pub zero_of_test : (x : ℤ) → not (eqb_ℤ x (pos 0)) ≡ false → x ≡ pos 0
zero_of_test x e = eq_of_parts x (pos 0) (ground (arith, e))

-- A minting that is accepted has no fee and no negative amount, returns no log, and with the token supply
-- of the index it fits the machine integer; mintings of the same block are not counted.
pub mint_accepted :
    (c : Crypto) (ch : Blockchain) (tx : MintTx) (receipts : List Receipt) (log : List LogEntry)
    → execute_tx c ch (mint_tx tx) receipts ≡ ok log
    → (log ≡ [])
      × (tx.base.fee.amount ≡ pos 0)
      × (pos 0 ≤ℤ tx.amount.amount)
      × InI64 (ch.indexer.token_supply.amount +ℤ tx.amount.amount)
unfolding execute_body execute_mint
mint_accepted c ch tx receipts log e =
    let (few, e0) = sigs_bounded c ch (mint_tx tx) receipts log e in
    bind_ok-elim _ _ log e0 (λ _ free e1. bind_ok-elim _ _ log e1 (λ _ nonneg e2.
      bind_ok-elim _ _ log e2 (λ _ ran e3. bind_ok-elim _ _ log e3 (λ supply has_supply done.
        let empty : log ≡ [] = cc in
        (
          empty,
          zero_of_test tx.base.fee.amount (reject_if_ok _ _ _ free),
          not_below tx.amount.amount (pos 0) (reject_if_ok _ _ _ nonneg),
          ((checked_add_iff _ _ _).0 (ok_or_ok _ _ _ has_supply)).1,
        )))))

-- ===== src/Chain/Supply/Blocks.antt =====
-- The receipts of a block and its rewards: the money in the accounts is the token supply
-- (crates/godcoin/src/blockchain/mod.rs).
use godcoin.Base.{
  ℕ, ◌≡◌, refl, ap, sym, ◌∙◌, arith, false, List, [], ◌∷◌, some, ok, Option-cases, inl, inr,
}
use godcoin.Base.Int.{+ℤ_assoc, +ℤ_zero, ℤ, pos, ◌+ℤ◌, int_laws}
use godcoin.Asset.{Asset, asset_default, checked_add}
use godcoin.Asset.Arith.{checked_add_iff}
use godcoin.Script.Op.{AccountId}
use godcoin.Tx.Types.{
  TxVariant, owner_tx, mint_tx, create_account_tx, update_account_tx, transfer_tx, base,
}
use godcoin.Receipt.Types.{Receipt}
use godcoin.Chain.Index.{WriteBatch}
use godcoin.Chain.Execute.{creates}
use godcoin.Chain.Apply.{index_receipt, index_receipts}
use godcoin.Chain.Inversion.{bind_ok-elim}
use godcoin.Chain.Supply.Ledger.{Lists, Table, view, total}
use godcoin.Chain.Supply.Moves.{supply, add_bal-Effect}
use godcoin.Chain.Supply.Receipts.{minted, IsSettled, IsFresh, Booked}
use godcoin.Base.{All}
use godcoin.Chain.Supply.Bookings.{index_receipt-Booked}
use godcoin.Chain.Block.{sum_fees}
use godcoin.Chain.Types.{Block}
use godcoin.Chain.Index.{Indexer, batch_new, commit, set_chain_height}
use godcoin.Chain.Accounts.{Blockchain}
use godcoin.Chain.Apply.{index_block}

abbrev pub AreSettled : List Receipt → Type 0
AreSettled rs = All (λ (r : Receipt). IsSettled r.tx r.log) rs

-- A transaction creates no account that a receipt before it creates.
abbrev pub IsNewAfter : Receipt → TxVariant → Type 0
IsNewAfter r (create_account_tx tx) = creates tx.account.id (r ∷ []) ≡ false
IsNewAfter r _ = Unit {0}

-- The accounts that the receipts create are new to the table and to one another.
abbrev pub AreFresh : List AccountId → Table → List Receipt → Type 0
AreFresh ids f [] = Unit {0}
AreFresh ids f (r ∷ rs) =
    IsFresh ids f r.tx × All (λ (later : Receipt). IsNewAfter r later.tx) rs × AreFresh ids f rs

abbrev pub fee_sum : List Receipt → ℤ
fee_sum [] = pos 0
fee_sum (r ∷ rs) = (base r.tx).fee.amount +ℤ fee_sum rs

abbrev pub mint_sum : List Receipt → ℤ
mint_sum [] = pos 0
mint_sum (r ∷ rs) = minted r.tx +ℤ mint_sum rs

creates_receipt :
    (id : AccountId) (r : Receipt)
    → creates id (record { tx = r.tx; log = [] } ∷ []) ≡ creates id (r ∷ [])
unfolding creates
creates_receipt id r = refl

-- What is new stays new after a receipt that does not create it.
IsFresh-Booked :
    (ids : List AccountId) (b b' : WriteBatch) (r : Receipt) (tx : TxVariant)
    → Booked ids b b' r.tx
    → IsNewAfter r tx
    → IsFresh ids (view b) tx
    → IsFresh ids (view b') tx
IsFresh-Booked ids b b' r (owner_tx tx) h new fresh = tt
IsFresh-Booked ids b b' r (mint_tx tx) h new fresh = tt
IsFresh-Booked ids b b' r (create_account_tx tx) h new (absent, once) =
    (h.absent tx.account.id (creates_receipt tx.account.id r ∙ new) absent, once)
IsFresh-Booked ids b b' r (update_account_tx tx) h new fresh = tt
IsFresh-Booked ids b b' r (transfer_tx tx) h new fresh = tt

AreFresh-Booked :
    (ids : List AccountId) (b b' : WriteBatch) (r : Receipt) (rs : List Receipt)
    → Booked ids b b' r.tx
    → All (λ (later : Receipt). IsNewAfter r later.tx) rs
    → AreFresh ids (view b) rs
    → AreFresh ids (view b') rs
AreFresh-Booked ids b b' r [] h new fresh = tt
AreFresh-Booked ids b b' r (later ∷ rs) h (new, news) (fresh, apart, rest) = (
  IsFresh-Booked ids b b' r later.tx h new fresh,
  apart,
  AreFresh-Booked ids b b' r rs h news rest,
)

pub record AllBooked (ids : List AccountId) (b b' : WriteBatch) (rs : List Receipt) : Type 0 where
  pub balanced : total ids (view b') +ℤ fee_sum rs ≡ total ids (view b) +ℤ mint_sum rs
  pub lists : Lists ids (view b')
  pub supplied : (supply b').amount ≡ (supply b).amount +ℤ mint_sum rs
  pub index_kept : b'.indexer ≡ b.indexer

swap_last : (x y z : ℤ) → x +ℤ (y +ℤ z) ≡ x +ℤ z +ℤ y
swap_last x y z = omega int_laws

swap_mid : (x y z : ℤ) → x +ℤ y +ℤ z ≡ x +ℤ z +ℤ y
swap_mid x y z = omega int_laws

chain_sums :
    (t t1 t2 f fs m ms : ℤ)
    → t1 +ℤ f ≡ t +ℤ m
    → t2 +ℤ fs ≡ t1 +ℤ ms
    → t2 +ℤ (f +ℤ fs) ≡ t +ℤ (m +ℤ ms)
chain_sums t t1 t2 f fs m ms p q = rw (swap_last t2 f fs, q, swap_mid t1 ms f, p) (+ℤ_assoc t m ms)

index_receipts-AllBooked :
    {E : Type 0} (ids : List AccountId) (b b' : WriteBatch) (rs : List Receipt)
    → Lists ids (view b)
    → AreSettled rs
    → AreFresh ids (view b) rs
    → index_receipts {E = E} b rs ≡ ok b'
    → AllBooked ids b b' rs
unfolding index_receipts
index_receipts-AllBooked ids b b' [] lists settled fresh e =
    let same : b' ≡ b = cc in
    rw same
      (record { balanced = refl; lists = lists; supplied = omega int_laws; index_kept = refl })
index_receipts-AllBooked {E} ids b b' (r ∷ rs) lists (settled, settles) (fresh, apart, rest) e =
    bind_ok-elim (index_receipt {E = E} b r) (λ b1. index_receipts b1 rs) b' e
      (λ b1 first later.
        let one = index_receipt-Booked ids b b1 r.tx r.log lists settled fresh first in
        let others =
          index_receipts-AllBooked ids b1 b' rs one.lists settles
            (AreFresh-Booked ids b b1 r rs one apart rest) later in
        record {
          balanced =
              chain_sums (total ids (view b)) (total ids (view b1)) (total ids (view b')) _ _ _ _
                one.balanced others.balanced;
          lists = others.lists;
          supplied =
              others.supplied
              ∙ rw one.supplied (+ℤ_assoc (supply b).amount (minted r.tx) (mint_sum rs));
          index_kept = others.index_kept ∙ one.index_kept;
        })

sum_fees-fee_sum :
    (rs : List Receipt) (acc rewards : Asset)
    → sum_fees rs acc ≡ some rewards
    → rewards.amount ≡ acc.amount +ℤ fee_sum rs
unfolding sum_fees
sum_fees-fee_sum [] acc rewards e = rw (same_amount acc rewards (cc)) (sym (+ℤ_zero acc.amount))
  where
    same_amount : (a b : Asset) → some a ≡ some b → b.amount ≡ a.amount
    same_amount a b e = cc
sum_fees-fee_sum (r ∷ rs) acc rewards e = elim (Option-cases (checked_add acc (base r.tx).fee)) [
  | inl over ↦ absurd (ground (arith, over))
  | inr (sum, added) ↦
      sum_fees-fee_sum rs sum rewards (ground (arith, added))
      ∙ rw (((checked_add_iff acc (base r.tx).fee sum).0 added).0)
          (+ℤ_assoc acc.amount (base r.tx).fee.amount (fee_sum rs))
]

-- The accounts hold exactly the token supply.
abbrev pub IsBacked : List AccountId → Indexer → Type 0
IsBacked ids ix = total ids ix.accounts ≡ ix.token_supply.amount

commit-IsBacked :
    (ids : List AccountId) (b : WriteBatch)
    → total ids (view b) ≡ (supply b).amount
    → IsBacked ids (commit b)
unfolding commit
commit-IsBacked ids b e = e

commit-Lists :
    (ids : List AccountId) (b : WriteBatch) → Lists ids (view b) → Lists ids (commit b).accounts
unfolding commit
commit-Lists ids b h = h

supply-set_chain_height : (b : WriteBatch) (n : ℕ) → supply (set_chain_height b n) ≡ supply b
unfolding set_chain_height
supply-set_chain_height b n = refl

zero_+ℤ : (x : ℤ) → pos 0 +ℤ x ≡ x
zero_+ℤ x = omega int_laws

balance_up :
    (t t' t'' s s' fees mints rewards : ℤ)
    → t ≡ s
    → t' +ℤ fees ≡ t +ℤ mints
    → s' ≡ s +ℤ mints
    → rewards ≡ pos 0 +ℤ fees
    → t'' ≡ t' +ℤ rewards
    → t'' ≡ s'
balance_up t t' t'' s s' fees mints rewards backed booked supplied paid added =
    rw (added, paid, zero_+ℤ fees, booked, backed, supplied) refl

-- Indexing the receipts of a block and paying its rewards keeps the accounts equal to the supply.
pub index_block-IsBacked :
    {E : Type 0} (ids : List AccountId) (ch : Blockchain) (block : Block) (batch : WriteBatch)
    → IsBacked ids ch.indexer
    → Lists ids ch.indexer.accounts
    → AreSettled block.receipts
    → AreFresh ids ch.indexer.accounts block.receipts
    → sum_fees block.receipts asset_default ≡ some block.rewards
    → index_block {E = E} ch (batch_new ch.indexer) block ≡ ok batch
    → IsBacked ids (commit batch) × Lists ids (commit batch).accounts
unfolding index_block
index_block-IsBacked ids ch block batch backed lists settled fresh fees e =
    bind_ok-elim _ _ batch e (λ b1 indexed e1. bind_ok-elim _ _ batch e1 (λ owner found e2.
      let booked =
        index_receipts-AllBooked ids (batch_new ch.indexer) b1 block.receipts lists settled fresh
          indexed in
      let paid = add_bal-Effect ids b1 batch owner.wallet block.rewards booked.lists e2 in
      (
        commit-IsBacked ids batch (
            balance_up _ (total ids (view b1)) _ _ _ (fee_sum block.receipts)
              (mint_sum block.receipts) block.rewards.amount backed booked.balanced
              (ap (λ (a : Asset). a.amount) paid.supply_kept ∙ booked.supplied)
              (sum_fees-fee_sum block.receipts asset_default block.rewards fees) paid.moved),
        commit-Lists ids batch paid.lists,
      )))

-- ===== src/Chain/Index.antt =====
-- The index of the chain and a batch of changes to it (crates/godcoin/src/blockchain/index.rs). The
-- tables of the database are functions; `Outcome` carries the panics.
use godcoin.Base.{ℕ, Bool, Option, some, none, ok, err, ◌==◌, if◌then◌else◌}
use godcoin.Asset.{Asset, checked_add, checked_sub}
use godcoin.Script.Op.{AccountId}
use godcoin.Account.Types.{Account}
use godcoin.Tx.Types.{TxVariant, owner_tx}
use godcoin.Chain.Types.{panic, Outcome, unwrap, ◌>>=◌}

pub record Indexer : Type 0 where
  pub chain_height : ℕ
  pub owner : Option TxVariant
  pub token_supply : Asset
  pub accounts : AccountId → Option Account

abbrev pub account_exists : Indexer → AccountId → Bool
account_exists ix id = elim (ix.accounts id) [ some acc ↦ Bool.true | none ↦ Bool.false ]

pub record WriteBatch : Type 0 where
  pub indexer : Indexer
  pub chain_height : Option ℕ
  pub owner : Option TxVariant
  pub accounts : AccountId → Option Account
  pub token_supply : Option Asset

abbrev pub batch_new : Indexer → WriteBatch
batch_new ix = record {
  indexer = ix;
  chain_height = none;
  owner = none;
  accounts = λ id. none;
  token_supply = none;
}

abbrev pub or_else {ℓ} : {A : Type ℓ} → Option A → Option A → Option A
or_else (some a) o = some a
or_else none o = o

abbrev pub or_value {ℓ} : {A : Type ℓ} → Option A → A → A
or_value (some a) b = a
or_value none b = b

-- `commit`: what the batch has set replaces what the index has.
unfoldable pub commit : WriteBatch → Indexer
commit b = record {
  chain_height = or_value b.chain_height b.indexer.chain_height;
  owner = or_else b.owner b.indexer.owner;
  token_supply = or_value b.token_supply b.indexer.token_supply;
  accounts = λ id. or_else (b.accounts id) (b.indexer.accounts id);
}

unfoldable pub set_chain_height : WriteBatch → ℕ → WriteBatch
set_chain_height b height = record b { chain_height = some height }

unfoldable pub insert_or_update_account : WriteBatch → Account → WriteBatch
insert_or_update_account b account = record b {
  accounts = λ id. if id == account.id then some account else b.accounts id;
}

-- A write through the reference that `get_account_mut` gives.
unfoldable pub put_account : WriteBatch → AccountId → Account → WriteBatch
put_account b key account = record b {
  accounts = λ id. if id == key then some account else b.accounts id;
}

module _ {E : Type 0} where
  unfoldable pub set_owner : WriteBatch → TxVariant → Outcome E WriteBatch
  set_owner b (owner_tx tx) = ok (record b { owner = some (owner_tx tx) })
  set_owner b _ = err panic

  unfoldable pub add_token_supply : WriteBatch → Asset → Outcome E WriteBatch
  add_token_supply b amount = do
    supply ← unwrap (checked_add (or_value b.token_supply b.indexer.token_supply) amount)
    ok (record b { token_supply = some supply })

  -- The account that `get_account_mut` gives a reference to, which is copied into the batch.
  unfoldable pub get_account_mut : WriteBatch → AccountId → Outcome E Account
  get_account_mut b id = unwrap (or_else (b.accounts id) (b.indexer.accounts id))

  unfoldable pub add_bal : WriteBatch → AccountId → Asset → Outcome E WriteBatch
  add_bal b id amount = do
    acc ← get_account_mut b id
    balance ← unwrap (checked_add acc.balance amount)
    ok (put_account b id (record acc { balance = balance }))

  unfoldable pub sub_bal : WriteBatch → AccountId → Asset → Outcome E WriteBatch
  sub_bal b id amount = do
    acc ← get_account_mut b id
    balance ← unwrap (checked_sub acc.balance amount)
    ok (put_account b id (record acc { balance = balance }))

-- ===== src/Chain/Supply/Moves.antt =====
-- What the writes of a batch do to the money in its accounts (crates/godcoin/src/blockchain/index.rs).
use godcoin.Base.{
  ◌+◌, ◌≡◌, refl, ap, sym, ◌∙◌, List, some, none, ok, ◌==◌, ==_iff, Bool-cases, inl, inr,
}
use mathlib.Core.Path.{subst}
use godcoin.Base.Int.{ℤ, pos, ◌+ℤ◌, ◌-ℤ◌, int_laws, eq_of_parts, pos_part, neg_part}
use godcoin.Asset.{Asset}
use godcoin.Asset.Arith.{checked_add_iff, checked_sub_iff}
use godcoin.Script.Op.{AccountId}
use godcoin.Account.Types.{Account}
use godcoin.Chain.Index.{WriteBatch, or_value, put_account, get_account_mut, add_bal, sub_bal}
use godcoin.Chain.Inversion.{bind_ok-elim, unwrap_ok}
use godcoin.Chain.Supply.Ledger.{
  Lists, Table, view, total, write, total-write, Lists-write, view-put_account,
}

-- The token supply as of a batch.
abbrev pub supply : WriteBatch → Asset
supply b = or_value b.token_supply b.indexer.token_supply

-- From one batch to the next the money in the accounts changes by `change`; the supply stays, and no
-- account comes to be.
pub record Effect (ids : List AccountId) (b b' : WriteBatch) (change : ℤ) : Type 0 where
  pub moved : total ids (view b') ≡ total ids (view b) +ℤ change
  pub lists : Lists ids (view b')
  pub absent : (id : AccountId) → view b id ≡ none → view b' id ≡ none
  pub supply_kept : supply b' ≡ supply b
  pub index_kept : b'.indexer ≡ b.indexer

then_add : (x y z d e : ℤ) → z ≡ y +ℤ e → y ≡ x +ℤ d → z ≡ x +ℤ (d +ℤ e)
then_add x y z d e p q = p ∙ rw q (add_assoc x d e)
  where
    add_assoc : (x d e : ℤ) → x +ℤ d +ℤ e ≡ x +ℤ (d +ℤ e)
    add_assoc x d e = omega int_laws

ℤ_parts_of : (a b : ℤ) → a ≡ b → pos_part a + neg_part b ≡ pos_part b + neg_part a
ℤ_parts_of a b e = rw e refl

change_of : (t' t x x' : ℤ) → t' +ℤ x ≡ t +ℤ x' → t' ≡ t +ℤ (x' -ℤ x)
change_of t' t x x' h = eq_of_parts t' (t +ℤ (x' -ℤ x)) (omega (int_laws, ℤ_parts_of _ _ h))

change_of_sum : (x a x' : ℤ) → x' ≡ x +ℤ a → x' -ℤ x ≡ a
change_of_sum x a x' h = rw h (omega int_laws)

change_of_difference : (x a x' : ℤ) → x' ≡ x -ℤ a → x' -ℤ x ≡ pos 0 -ℤ a
change_of_difference x a x' h = rw h (omega int_laws)

supply-put_account :
    (b : WriteBatch) (k : AccountId) (a : Account) → supply (put_account b k a) ≡ supply b
unfolding put_account
supply-put_account b k a = refl

index-put_account :
    (b : WriteBatch) (k : AccountId) (a : Account) → (put_account b k a).indexer ≡ b.indexer
unfolding put_account
index-put_account b k a = refl

write-absent :
    (f : Table) (k : AccountId) (acc acc' : Account)
    → f k ≡ some acc
    → (id : AccountId) → f id ≡ none
    → write f k acc' id ≡ none
write-absent f k acc acc' known id h = elim (Bool-cases (id == k)) [
  | inl same ↦ absurd (cc (known, h, (==_iff id k).0 same))
  | inr other ↦ rw other h
]

pub with_change :
    {ids : List AccountId} {b b' : WriteBatch} {d e : ℤ}
    → d ≡ e
    → Effect ids b b' d
    → Effect ids b b' e
with_change same p = rw⁻¹ same p

module _ (ids : List AccountId) where
  pub Effect-trans :
      (b b' b'' : WriteBatch) (d e : ℤ)
      → Effect ids b b' d
      → Effect ids b' b'' e
      → Effect ids b b'' (d +ℤ e)
  Effect-trans b b' b'' d e p q = record {
    moved = then_add _ _ _ d e q.moved p.moved;
    lists = q.lists;
    absent = λ id h. q.absent id (p.absent id h);
    supply_kept = q.supply_kept ∙ p.supply_kept;
    index_kept = q.index_kept ∙ p.index_kept;
  }

  pub Effect-put :
      (b : WriteBatch) (k : AccountId) (acc acc' : Account)
      → Lists ids (view b)
      → view b k ≡ some acc
      → Effect ids b (put_account b k acc') (acc'.balance.amount -ℤ acc.balance.amount)
  Effect-put b k acc acc' lists known = record {
    moved = rw (view-put_account b k acc') (
        change_of _ _ acc.balance.amount acc'.balance.amount
          (rw known at (total-write ids (view b) k acc' (lists k acc known))));
    lists =
        subst (λ (t : Table). Lists ids t) (sym (view-put_account b k acc'))
          (Lists-write ids (view b) k acc' lists (lists k acc known));
    absent = λ id h.
        ap (λ (t : Table). t id) (view-put_account b k acc')
        ∙ write-absent (view b) k acc acc' known id h;
    supply_kept = supply-put_account b k acc';
    index_kept = index-put_account b k acc';
  }

  pub add_bal-Effect :
      {E : Type 0} (b b' : WriteBatch) (k : AccountId) (amount : Asset)
      → Lists ids (view b)
      → add_bal {E = E} b k amount ≡ ok b'
      → Effect ids b b' amount.amount
  unfolding add_bal get_account_mut
  add_bal-Effect b b' k amount lists e = bind_ok-elim _ _ b' e (λ acc found e1.
      bind_ok-elim _ _ b' e1 (λ balance summed e2.
        let known = unwrap_ok (view b k) acc found in
        let sum = ((checked_add_iff acc.balance amount balance).0 (unwrap_ok _ _ summed)).0 in
        let same : b' ≡ put_account b k (record acc { balance = balance }) = cc in
        rw (same) (
          with_change (change_of_sum _ _ _ sum)
            (Effect-put b k acc (record acc { balance = balance }) lists known))))

  pub sub_bal-Effect :
      {E : Type 0} (b b' : WriteBatch) (k : AccountId) (amount : Asset)
      → Lists ids (view b)
      → sub_bal {E = E} b k amount ≡ ok b'
      → Effect ids b b' (pos 0 -ℤ amount.amount)
  unfolding sub_bal get_account_mut
  sub_bal-Effect b b' k amount lists e = bind_ok-elim _ _ b' e (λ acc found e1.
      bind_ok-elim _ _ b' e1 (λ balance summed e2.
        let known = unwrap_ok (view b k) acc found in
        let rest = ((checked_sub_iff acc.balance amount balance).0 (unwrap_ok _ _ summed)).0 in
        let same : b' ≡ put_account b k (record acc { balance = balance }) = cc in
        rw (same) (
          with_change (change_of_difference _ _ _ rest)
            (Effect-put b k acc (record acc { balance = balance }) lists known))))

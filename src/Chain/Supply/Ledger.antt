-- ===== src/Chain/Supply/Ledger.antt =====
-- Sums over a table of accounts, and what a write to one account does to them
-- (crates/godcoin/src/blockchain/index.rs).
use godcoin.Base.{
  ℕ, ◌+◌, ◌≡◌, refl, ap, sym, ◌∙◌, arith, true, List, [], ◌∷◌, Option, some, none, ◌==◌,
  if◌then◌else◌, Bool-cases, inl, inr,
}
use mathlib.Core.Path.{fun_ext}
use godcoin.Base.Int.{+ℤ_assoc, ℤ, pos, ◌+ℤ◌, int_laws}
use godcoin.Script.Op.{AccountId}
use godcoin.Account.Types.{Account}
use godcoin.Chain.Index.{WriteBatch, or_else, put_account, insert_or_update_account}

eq_of_test : (i k : ℕ) → (i == k) ≡ true → i ≡ k
eq_of_test i k h = ground arith

abbrev pub Table : Type 0
Table = AccountId → Option Account

-- What a batch makes of the table of its index.
abbrev pub view : WriteBatch → Table
view b id = or_else (b.accounts id) (b.indexer.accounts id)

abbrev pub balance_of : Option Account → ℤ
balance_of none = pos 0
balance_of (some acc) = acc.balance.amount

abbrev pub total : List AccountId → Table → ℤ
total [] f = pos 0
total (id ∷ ids) f = balance_of (f id) +ℤ total ids f

abbrev pub occurrences : AccountId → List AccountId → ℕ
occurrences a [] = 0
occurrences a (id ∷ ids) = (if id == a then 1 else 0) + occurrences a ids

-- Every account of the table stands in the list, once.
abbrev pub Lists : List AccountId → Table → Type 0
Lists ids f = (id : AccountId) (acc : Account) → f id ≡ some acc → occurrences id ids ≡ 1

abbrev pub write : Table → AccountId → Account → Table
write f k a id = if id == k then some a else f id

total-write_other :
    (ids : List AccountId) (f : Table) (k : AccountId) (a : Account)
    → occurrences k ids ≡ 0
    → total ids (write f k a) ≡ total ids f
total-write_other [] f k a h = refl
total-write_other (id ∷ ids) f k a h = elim (Bool-cases (id == k)) [
  | inl same ↦ absurd (ground (arith, same))
  | inr other ↦ rw (other, total-write_other ids f k a (ground (arith, other)))
]

swap_ends : (x y z : ℤ) → x +ℤ y +ℤ z ≡ z +ℤ y +ℤ x
swap_ends x y z = omega int_laws

under : (w x y u v : ℤ) → x +ℤ u ≡ y +ℤ v → w +ℤ x +ℤ u ≡ w +ℤ y +ℤ v
under w x y u v e = +ℤ_assoc w x u ∙ ap (λ (t : ℤ). w +ℤ t) e ∙ sym (+ℤ_assoc w y v)

pub total-write :
    (ids : List AccountId) (f : Table) (k : AccountId) (a : Account)
    → occurrences k ids ≡ 1
    → total ids (write f k a) +ℤ balance_of (f k) ≡ total ids f +ℤ a.balance.amount
total-write [] f k a h = absurd (omega arith)
total-write (id ∷ ids) f k a h = elim (Bool-cases (id == k)) [
  | inl same ↦
      rw (same, total-write_other ids f k a (ground (arith, same)), eq_of_test id k same)
        (swap_ends a.balance.amount (total ids f) (balance_of (f k)))
  | inr other ↦ rw (other) (
      under (balance_of (f id)) (total ids (write f k a)) (total ids f) (balance_of (f k))
        a.balance.amount (total-write ids f k a (ground (arith, other))))
]

pub Lists-write :
    (ids : List AccountId) (f : Table) (k : AccountId) (a : Account)
    → Lists ids f
    → occurrences k ids ≡ 1
    → Lists ids (write f k a)
Lists-write ids f k a h once id acc e = elim (Bool-cases (id == k)) [
  | inl same ↦ rw (eq_of_test id k same) once
  | inr other ↦ h id acc (rw other at e)
]

-- A write through a batch is a write to the table.
pub view-put_account :
    (b : WriteBatch) (k : AccountId) (a : Account) → view (put_account b k a) ≡ write (view b) k a
unfolding put_account
view-put_account b k a =
    fun_ext (λ id. elim (Bool-cases (id == k)) [ inl same ↦ rw same | inr other ↦ rw other ])

pub view-insert_or_update_account :
    (b : WriteBatch) (a : Account) → view (insert_or_update_account b a) ≡ write (view b) a.id a
unfolding insert_or_update_account
view-insert_or_update_account b a =
    fun_ext (λ id. elim (Bool-cases (id == a.id)) [ inl same ↦ rw same | inr other ↦ rw other ])

-- ===== src/Script/Header.antt =====
-- The function table of a script: `Script::get_fn_ptr` (crates/godcoin/src/script/mod.rs).
use godcoin.Base.{ℕ, zero, suc, Option, some, none, Result, ok, err, ◌==◌, if◌then◌else◌, drop}
use godcoin.Serializer.Read.{IoErr, Read, take_u8, take_u32, pure, ◌>>=◌}
use godcoin.Script.Op.{Script}

-- The loop over the header, on the entries left. `consume(4)` moves the cursor, and past the end a
-- cursor reads nothing.
unfoldable pub find_fn : ℕ → ℕ → Read (Option ℕ)
find_fn fn_id zero = pure none
find_fn fn_id (suc entries) = do
  header_id ← take_u8
  let found : Read (Option ℕ) = take_u32 >>= λ pos. pure (some pos)
  let next : Read (Option ℕ) = λ cur. find_fn fn_id entries (drop 4 cur)
  if header_id == fn_id then found else next

unfoldable pub get_fn_ptr : Script → ℕ → Result IoErr (Option ℕ)
get_fn_ptr script fn_id = elim ((take_u8 >>= λ fn_count. find_fn fn_id fn_count) script.code) [
  | ok (ptr, cur) ↦ ok ptr
  | err e ↦ err e
]

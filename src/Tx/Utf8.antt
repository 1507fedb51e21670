-- ===== src/Tx/Utf8.antt =====
-- `String::from_utf8` of the standard library, which crates/godcoin/src/tx/mod.rs applies to the name of
-- an attachment: a string is a byte string that is well-formed UTF-8.
use godcoin.Base.{
  ℕ, zero, suc, Bool, true, false, ◌&&◌, [], ◌∷◌, Bytes, Option, some, none, leb, ltb, ◌==◌,
  if◌then◌else◌,
}

-- After a first byte: how many more follow, and the range of the next. `none` is no first byte.
abbrev lead : ℕ → Option (ℕ × ℕ × ℕ)
lead b =
    if ltb b 0x80
    then some (0, 0x80, 0xBF)
    else if ltb b 0xC2
    then none
    else if ltb b 0xE0
    then some (1, 0x80, 0xBF)
    else if b == 0xE0
    then some (2, 0xA0, 0xBF)
    else if b == 0xED
    then some (2, 0x80, 0x9F)
    else if ltb b 0xF0
    then some (2, 0x80, 0xBF)
    else if b == 0xF0
    then some (3, 0x90, 0xBF)
    else if ltb b 0xF4
    then some (3, 0x80, 0xBF)
    else if b == 0xF4
    then some (3, 0x80, 0x8F)
    else none

-- The bytes that are to follow, the range of the next one, and the text.
follows : ℕ → ℕ → ℕ → Bytes → Bool
follows zero lo hi [] = true
follows (suc n) lo hi [] = false
follows zero lo hi (b ∷ bs) = elim (lead b) [ none ↦ false | some (n, l, h) ↦ follows n l h bs ]
follows (suc n) lo hi (b ∷ bs) = leb lo b && leb b hi && follows n 0x80 0xBF bs

unfoldable pub is_utf8 : Bytes → Bool
unfolding follows
is_utf8 = follows 0 0 0

unfoldable pub from_utf8 : Bytes → Option Bytes
from_utf8 bs = if is_utf8 bs then some bs else none

-- ===== src/Settlement/Values.antt =====
-- The value objects of backend/src/settlement/domain/value_objects.py: each constructor gives the value
-- that it holds, or raises. `int(value, 16)` of Python is the argument `reads_hex`.
use cadencia_a2a_platform.Prelude.{
  ℕ, zero, suc, Bool, true, false, not, ◌&&◌, ◌||◌, [], ◌∷◌, leb, ◌==◌, if◌then◌else◌, length,
}
use cadencia_a2a_platform.Prelude.Int.{ℤ, pos, negsuc}
use cadencia_a2a_platform.Prelude.Texts.{Text, text_eq}
use cadencia_a2a_platform.Errors.{validation_error, Result, ok, err}

-- `AlgoAppId`
unfoldable pub app_id : ℤ → Result ℕ
app_id (pos zero) = err validation_error
app_id (pos (suc n)) = ok (suc n)
app_id (negsuc n) = err validation_error

-- `[A-Z2-7]`
abbrev pub is_base32 : ℕ → Bool
is_base32 c = (leb b'A' c && leb c b'Z') || (leb b'2' c && leb c b'7')

-- `^[A-Z2-7]{n}$` by `re.match`: `$` lets one newline stand before the end.
unfoldable pub matches_base32 : ℕ → Text → Bool
matches_base32 zero [] = true
matches_base32 zero (c ∷ s) = (c == 10) && text_eq s []
matches_base32 (suc n) [] = false
matches_base32 (suc n) (c ∷ s) = let rest = matches_base32 n s in is_base32 c && rest

-- `AlgoAppAddress`
unfoldable pub app_address : Text → Result Text
unfolding matches_base32
app_address s = if not (matches_base32 58 s) then err validation_error else ok s

-- `TxId`
unfoldable pub tx_id : Text → Result Text
unfolding matches_base32
tx_id s = if not (matches_base32 52 s) then err validation_error else ok s

-- `MicroAlgo`
unfoldable pub micro_algo : ℤ → Result ℕ
micro_algo (pos n) = ok n
micro_algo (negsuc n) = err validation_error

-- `EscrowAmount`
unfoldable pub escrow_amount : ℕ → Result ℕ
escrow_amount n = if n == 0 then err validation_error else ok n

-- `MerkleRoot`
unfoldable pub merkle_root : (Text → Bool) → Text → Result Text
merkle_root reads_hex s =
    if not (length s == 64)
    then err validation_error
    else if not (reads_hex s)
    then err validation_error
    else ok s

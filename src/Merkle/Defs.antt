-- ===== src/Merkle/Defs.antt =====
-- `_sha256`, `_hash_pair` and `MerkleService` of backend/src/shared/infrastructure/merkle_service.py.
-- `sha256` stands for the hexadecimal digest of the UTF-8 bytes of a text, from Python's hashlib.
use cadencia_a2a_platform.Prelude.{
  ℕ, zero, suc, ◌+◌, ◌-◌, ◌/◌, ◌%◌, Bool, true, false, ◌&&◌, Option, none, some, List, [], ◌∷◌,
  ◌++◌, map, ltb, ◌==◌, if◌then◌else◌, length, get_elem?, last?,
}
use cadencia_a2a_platform.Prelude.Texts.{Text, text_eq, text_lt}
use cadencia_a2a_platform.Prelude.Int.{ℤ, pos, negsuc}
use cadencia_a2a_platform.Errors.{validation_error, Result, ok, err}

-- Python's `min(a, b)` and `max(a, b)` on strings: the first one unless the second is better.
abbrev pub min_text : Text → Text → Text
min_text a b = if text_lt b a then b else a

abbrev pub max_text : Text → Text → Text
max_text a b = if text_lt a b then b else a

-- `layer.append(layer[-1])` if the length is odd
unfoldable pub pad : List Text → List Text
pad layer =
    if length layer % 2 == 1
    then elim (last? layer) [ none ↦ layer | some x ↦ layer ++ (x ∷ []) ]
    else layer

-- `pos ^ 1`: the other one of the pair 2k, 2k + 1
unfoldable pub sibling_of : ℕ → ℕ
sibling_of place = if place % 2 == 0 then place + 1 else place - 1

-- f"R:{hash}" and f"L:{hash}"
abbrev pub right_step : Text → Text
right_step hash = b'R' ∷ b':' ∷ hash

abbrev pub left_step : Text → Text
left_step hash = b'L' ∷ b':' ∷ hash

-- `step.startswith("R:")`, and `step[2:]`
unfoldable pub after_mark : ℕ → Text → Option Text
after_mark mark [] = none
after_mark mark (c ∷ []) = none
after_mark mark (c ∷ d ∷ rest) = if (c == mark) && (d == b':') then some rest else none

-- The value that a loop returned, as the method's.
abbrev pub returned {ℓ} : {A : Type ℓ} → Option A → Option (Result A)
returned none = none
returned (some a) = some (ok a)

module _ (sha256 : Text → Text) where
  unfoldable pub hash_pair : Text → Text → Text
  hash_pair left right = sha256 (min_text left right ++ max_text left right)

  -- The inner `for` loop. `none` is an `IndexError` at `layer[i + 1]`.
  unfoldable pub pair_up : List Text → Option (List Text)
  pair_up [] = some []
  pair_up (a ∷ []) = none
  pair_up (a ∷ b ∷ rest) = elim (pair_up rest) [
    | none ↦ none
    | some next ↦ some (hash_pair a b ∷ next)
  ]

  -- The `while` loop of `compute_root`, on fuel; `none` is an `IndexError`, or the end of the fuel.
  unfoldable pub climb : ℕ → List Text → Option Text
  climb zero layer = none
  climb (suc fuel) layer = elim (ltb 1 (length layer)) [
    | true ↦ elim (pair_up (pad layer)) [ none ↦ none | some next ↦ climb fuel next ]
    | false ↦ get_elem? layer 0
  ]

  unfoldable pub compute_root : List Text → Option (Result Text)
  compute_root [] = some (err validation_error)
  compute_root (e ∷ es) = returned (climb (length (e ∷ es)) (map sha256 (e ∷ es)))

  -- The `while` loop of `generate_proof`.
  unfoldable pub gather : ℕ → List Text → ℕ → List Text → Option (List Text)
  unfolding pad sibling_of pair_up
  gather zero layer place proof = none
  gather (suc fuel) layer place proof = elim (ltb 1 (length layer)) [
    | false ↦ some proof
    | true ↦ elim (get_elem? (pad layer) (sibling_of place)) [
      | none ↦ none
      | some hash ↦ elim (pair_up (pad layer)) [
        | none ↦ none
        | some next ↦ gather fuel next (place / 2) (
            proof
            ++ ((if ltb place (sibling_of place) then right_step hash else left_step hash) ∷ []))
      ]
    ]
  ]

  unfoldable pub generate_proof : List Text → ℤ → Option (Result (List Text))
  generate_proof [] index = some (err validation_error)
  generate_proof (e ∷ es) (negsuc n) = some (err validation_error)
  generate_proof (e ∷ es) (pos index) =
      if ltb index (length (e ∷ es))
      then returned (gather (length (e ∷ es)) (map sha256 (e ∷ es)) index [])
      else some (err validation_error)

  -- The `for` loop of `verify_proof`.
  unfoldable pub verify_steps : Text → Text → ℕ → List Text → Bool
  unfolding after_mark hash_pair
  verify_steps root current place [] = text_eq current root
  verify_steps root current place (step ∷ steps) = elim (after_mark b'R' step) [
    | some sibling ↦ verify_steps root (hash_pair current sibling) (place / 2) steps
    | none ↦ elim (after_mark b'L' step) [
      | some sibling ↦ verify_steps root (hash_pair sibling current) (place / 2) steps
      | none ↦ false
    ]
  ]

  unfoldable pub verify_proof : Text → Text → List Text → ℕ → Bool
  unfolding verify_steps
  verify_proof root entry proof index = verify_steps root (sha256 entry) index proof

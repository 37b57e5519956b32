-- ===== src/Merkle/Collisions.antt =====
-- What a Merkle root of backend/src/shared/infrastructure/merkle_service.py fixes of its entries, and
-- what it does not.
use cadencia_a2a_platform.Prelude.{
  ℕ, zero, suc, ◌%◌, ◌≡◌, refl, sym, ap, ◌∙◌, inl, inr, true, Option, none, some, List, [], ◌∷◌,
  ◌++◌, map, arith, Bool-cases, length, length-map,
}
use cadencia_a2a_platform.Prelude.Texts.{Text, text_eq_self, text_lt, text_lt_total, text_lt_asymm}
use cadencia_a2a_platform.Errors.{ok}
use cadencia_a2a_platform.Merkle.Layers.{above}
use cadencia_a2a_platform.Merkle.Defs.{
  min_text, max_text, pad, returned, hash_pair, pair_up, climb, compute_root, verify_proof,
}
use cadencia_a2a_platform.Merkle.Inclusion.{climb-above}

-- The pair hash does not depend on the order of the pair.
pub hash_pair_comm :
    (sha256 : Text → Text) (a b : Text) → hash_pair sha256 a b ≡ hash_pair sha256 b a
unfolding hash_pair
hash_pair_comm sha256 a b = elim (Bool-cases (text_lt a b)) [
  | inl e ↦ rw (e, text_lt_asymm a b e)
  | inr e ↦ elim (Bool-cases (text_lt b a)) [
    | inl f ↦ rw (e, f)
    | inr f ↦ rw (text_lt_total a b e f)
  ]
]

-- Exchanging the first two entries does not change the root: a root does not fix the order.
root_ignores_swap :
    (sha256 : Text → Text) (a b : Text) (rest : List Text)
    → compute_root sha256 (a ∷ b ∷ rest) ≡ compute_root sha256 (b ∷ a ∷ rest)
unfolding compute_root above
root_ignores_swap sha256 a b rest = ap returned (
    climb-above sha256 (suc (length rest)) (sha256 a) (sha256 b) (map sha256 rest)
    ∙ ap (λ h. climb sha256 (suc (length rest)) (h ∷ above sha256 (map sha256 rest)))
        (hash_pair_comm sha256 (sha256 a) (sha256 b))
    ∙ sym (climb-above sha256 (suc (length rest)) (sha256 b) (sha256 a) (map sha256 rest)))

-- The list with its last entry written twice.
pub repeat_last : List Text → List Text
repeat_last [] = []
repeat_last (a ∷ []) = a ∷ a ∷ []
repeat_last (a ∷ b ∷ rest) = a ∷ repeat_last (b ∷ rest)

map-repeat_last :
    (f : Text → Text) (xs : List Text) → map f (repeat_last xs) ≡ repeat_last (map f xs)
unfolding repeat_last
map-repeat_last f [] = refl
map-repeat_last f (a ∷ []) = refl
map-repeat_last f (a ∷ b ∷ xs) = ap (λ ys. f a ∷ ys) (map-repeat_last f (b ∷ xs))

length-repeat_last :
    (a : Text) (xs : List Text) → length (repeat_last (a ∷ xs)) ≡ suc (length (a ∷ xs))
unfolding repeat_last
length-repeat_last a [] = refl
length-repeat_last a (b ∷ xs) = ap suc (length-repeat_last b xs)

above-repeat_last :
    (sha256 : Text → Text) (xs : List Text)
    → length xs % 2 ≡ 1
    → above sha256 (repeat_last xs) ≡ above sha256 xs
unfolding repeat_last above
above-repeat_last sha256 [] h = refl
above-repeat_last sha256 (a ∷ []) h = refl
above-repeat_last sha256 (a ∷ b ∷ []) h = absurd (omega arith)
above-repeat_last sha256 (a ∷ b ∷ c ∷ xs) h =
    ap (λ ys. hash_pair sha256 a b ∷ ys) (above-repeat_last sha256 (c ∷ xs) (omega arith))

climb_more :
    (sha256 : Text → Text) (fuel : ℕ) (layer : List Text) (root : Text)
    → climb sha256 fuel layer ≡ some root
    → climb sha256 (suc fuel) layer ≡ some root
climb_more sha256 zero layer root h = unfold climb in cc
climb_more sha256 (suc fuel) [] root h = unfold climb in cc
climb_more sha256 (suc fuel) (a ∷ []) root h = unfold climb in cc
climb_more sha256 (suc fuel) (a ∷ b ∷ layer) root h =
    climb-above sha256 (suc fuel) a b layer
    ∙ climb_more sha256 fuel (above sha256 (a ∷ b ∷ layer)) root
        (sym (climb-above sha256 fuel a b layer) ∙ h)

returned_inv {ℓ} : {A : Type ℓ} (o : Option A) (a : A) → returned o ≡ some (ok a) → o ≡ some a
returned_inv none a h = cc
returned_inv (some b) a h = cc

-- The last entry of an odd list of three or more can be written twice without changing the root: a
-- root does not fix the number of entries.
root_ignores_repeat :
    (sha256 : Text → Text) (a b c : Text) (rest : List Text) (root : Text)
    → length (c ∷ rest) % 2 ≡ 1
    → compute_root sha256 (a ∷ b ∷ c ∷ rest) ≡ some (ok root)
    → compute_root sha256 (a ∷ b ∷ repeat_last (c ∷ rest)) ≡ some (ok root)
unfolding compute_root above
root_ignores_repeat sha256 a b c rest root odd h =
    let x = sha256 a in
    let y = sha256 b in
    let low = map sha256 (c ∷ rest) in
    let fuel = suc (length (c ∷ rest)) in
    let up = returned_inv (climb sha256 (suc fuel) (x ∷ y ∷ low)) root h in
    rw (length-repeat_last c rest, map-repeat_last sha256 (c ∷ rest))
      (ap returned (
        climb-above sha256 (suc fuel) x y (repeat_last low)
        ∙ ap (λ ys. climb sha256 (suc fuel) (hash_pair sha256 x y ∷ ys))
            (above-repeat_last sha256 low (ap (λ n. n % 2) (length-map sha256 (c ∷ rest)) ∙ odd))
        ∙ climb_more sha256 fuel (above sha256 (x ∷ y ∷ low)) root
            (sym (climb-above sha256 fuel x y low) ∙ up)))

-- The entry that is the pair of the first two digests verifies with no step at all against the root
-- of two entries: leaves and inner nodes are hashed alike.
pub inner_node_verifies :
    (sha256 : Text → Text) (a b : Text)
    → (root : Text) × (compute_root sha256 (a ∷ b ∷ []) ≡ some (ok root))
      × (verify_proof sha256 root
            (min_text (sha256 a) (sha256 b) ++ max_text (sha256 a) (sha256 b))
            []
            0
          ≡ true)
unfolding compute_root climb pad pair_up hash_pair verify_proof
inner_node_verifies sha256 a b = (
  hash_pair sha256 (sha256 a) (sha256 b),
  refl,
  text_eq_self (hash_pair sha256 (sha256 a) (sha256 b)),
)

-- ===== src/Merkle/Layers.antt =====
-- One level of the tree: the padded layer, the layer above it, and the sibling of a node.
use cadencia_a2a_platform.Prelude.{
  ℕ, zero, suc, ◌+◌, ◌/◌, ◌≡◌, refl, some, List, [], ◌∷◌, arith, ltb, if◌then◌else◌, length,
  get_elem?,
}
use cadencia_a2a_platform.Prelude.Texts.{Text}
use cadencia_a2a_platform.Merkle.Defs.{pad, sibling_of, hash_pair, pair_up}

module _ (sha256 : Text → Text) where
  -- The layer above, with the last of an odd layer paired with itself.
  unfoldable pub above : List Text → List Text
  above [] = []
  above (a ∷ []) = hash_pair sha256 a a ∷ []
  above (a ∷ b ∷ rest) = hash_pair sha256 a b ∷ above rest

pub pad-pair : (a b : Text) (rest : List Text) → pad (a ∷ b ∷ rest) ≡ a ∷ b ∷ pad rest
unfolding pad
pad-pair a b [] = refl
pad-pair a b (c ∷ rest) = ground arith

sibling_of-suc : (i : ℕ) → sibling_of (suc (suc i)) ≡ suc (suc (sibling_of i))
unfolding sibling_of
sibling_of-suc i = ground arith

half-suc : (i : ℕ) → suc (suc i) / 2 ≡ suc (i / 2)
half-suc i = omega arith

ltb-suc : (i j : ℕ) → ltb (suc (suc i)) (suc (suc j)) ≡ ltb i j
ltb-suc i j = ground arith

module _ (sha256 : Text → Text) where
  -- The inner loop on a padded layer never runs off its end.
  pub pair_up-pad : (layer : List Text) → pair_up sha256 (pad layer) ≡ some (above sha256 layer)
  unfolding pair_up above
  pair_up-pad [] = unfold pad in refl
  pair_up-pad (a ∷ []) = unfold pad in refl
  pair_up-pad (a ∷ b ∷ rest) = rw (pad-pair a b rest) (rw (pair_up-pad rest, pair_up))

  pub length-above : (layer : List Text) → length (above sha256 layer) ≡ (length layer + 1) / 2
  unfolding above
  length-above [] = refl
  length-above (a ∷ []) = refl
  length-above (a ∷ b ∷ rest) = omega (arith, length-above rest)

  -- A node and its sibling hash, in this order or the other, to the node above them.
  pub sibling-above :
      (layer : List Text) (i : ℕ) (x : Text)
      → get_elem? layer i ≡ some x
      → (hash : Text) × (get_elem? (pad layer) (sibling_of i) ≡ some hash)
        × (get_elem? (above sha256 layer) (i / 2)
            ≡ some
                (if ltb i (sibling_of i) then hash_pair sha256 x hash else hash_pair sha256 hash x))
  unfolding above
  sibling-above [] i x h = cc
  sibling-above (a ∷ []) zero x h = (a, unfold pad sibling_of in refl, unfold sibling_of in cc)
  sibling-above (a ∷ []) (suc i) x h = cc
  sibling-above (a ∷ b ∷ rest) zero x h =
      (b, unfold sibling_of in rw (pad-pair a b rest), unfold sibling_of in cc)
  sibling-above (a ∷ b ∷ rest) (suc zero) x h =
      (a, unfold sibling_of in rw (pad-pair a b rest), unfold sibling_of in cc)
  sibling-above (a ∷ b ∷ rest) (suc (suc i)) x h =
      let (hash, p, q) = sibling-above rest i x h in
      (
        hash,
        rw (pad-pair a b rest, sibling_of-suc i) p,
        rw (half-suc i, sibling_of-suc i, ltb-suc i (sibling_of i)) q,
      )

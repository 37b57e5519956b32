-- ===== src/Merkle/Tests.antt =====
-- The Merkle theorems at concrete entries, with a small digest in place of SHA-256.
use cadencia_a2a_platform.Prelude.{ℕ, ◌+◌, ◌%◌, ◌≡◌, refl, ◌⊎◌, true, false, some, List, [], ◌∷◌}
use cadencia_a2a_platform.Prelude.Int.{pos}
use cadencia_a2a_platform.Prelude.Texts.{Text, codes}
use cadencia_a2a_platform.Errors.{ok}
use cadencia_a2a_platform.Merkle.Defs.{
  pad, hash_pair, pair_up, climb, compute_root, generate_proof, verify_proof,
}
use cadencia_a2a_platform.Merkle.Inclusion.{proof_verifies}
use cadencia_a2a_platform.Merkle.Binding.{Collision, HasWidth, proof_binds}

-- A digest of 64 decimal digits: the sum of the code points, modulo 10, and zeros.
abbrev weight : Text → ℕ
weight [] = 0
weight (c ∷ s) = c + weight s

abbrev digest : Text → Text
digest t =
    (b'0' + weight t % 10) ∷ codes "000000000000000000000000000000000000000000000000000000000000000"

digest-HasWidth : HasWidth digest
digest-HasWidth t = refl

abbrev entries : List Text
entries = codes "a" ∷ codes "b" ∷ codes "c" ∷ []

root_of_three :
    compute_root digest entries
    ≡ some (ok (codes "5000000000000000000000000000000000000000000000000000000000000000"))
unfolding compute_root climb pad pair_up hash_pair
root_of_three = refl

proof_verifies_example :
    (root : Text) × (proof : List Text) × (compute_root digest entries ≡ some (ok root))
    × (generate_proof digest entries (pos 2) ≡ some (ok proof))
    × (verify_proof digest root (codes "c") proof 2 ≡ true)
proof_verifies_example = proof_verifies digest entries 2 (codes "c") refl

abbrev root_text : Text
root_text = codes "9000000000000000000000000000000000000000000000000000000000000000"

abbrev step_text : Text
step_text = codes "R:8000000000000000000000000000000000000000000000000000000000000000"

a_verifies : verify_proof digest root_text (codes "a") (step_text ∷ []) 0 ≡ true
unfolding verify_proof
a_verifies = refl

-- Another text of the same digest, at another index.
k_verifies : verify_proof digest root_text (codes "k") (step_text ∷ []) 5 ≡ true
unfolding verify_proof
k_verifies = refl

b_fails : verify_proof digest root_text (codes "b") (step_text ∷ []) 0 ≡ false
unfolding verify_proof
b_fails = refl

proof_binds_example : (codes "a" ≡ codes "k") ⊎ Collision digest
proof_binds_example =
    proof_binds digest digest-HasWidth root_text (codes "a") (codes "k") (step_text ∷ []) 0 5
      (refl, tt) a_verifies k_verifies

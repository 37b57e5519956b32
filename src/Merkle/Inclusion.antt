-- ===== src/Merkle/Inclusion.antt =====
-- Inclusion proofs of backend/src/shared/infrastructure/merkle_service.py: every entry of a list has
-- one, and it verifies against the root.
use cadencia_a2a_platform.Prelude.{
  ℕ, zero, suc, ◌/◌, ◌≤◌, ◌≡◌, refl, ap, ◌∙◌, inl, inr, true, some, List, [], ◌∷◌, ◌++◌, map,
  append_assoc, arith, ltb, if◌then◌else◌, Bool-cases, length, get_elem?, length-map,
}
use cadencia_a2a_platform.Prelude.Texts.{Text, text_eq_self}
use cadencia_a2a_platform.Prelude.Int.{pos}
use cadencia_a2a_platform.Errors.{ok}
use cadencia_a2a_platform.Merkle.Defs.{
  pad, sibling_of, right_step, left_step, hash_pair, climb, compute_root, gather, generate_proof,
  verify_steps, verify_proof,
}
use cadencia_a2a_platform.Merkle.Layers.{above, pair_up-pad, length-above, sibling-above}
use mathlib.Core.List.{append-nil}

get_elem?-map :
    (f : Text → Text) (xs : List Text) (i : ℕ) (x : Text)
    → get_elem? xs i ≡ some x
    → get_elem? (map f xs) i ≡ some (f x)
get_elem?-map f [] i x h = cc
get_elem?-map f (y ∷ ys) zero x h = cc
get_elem?-map f (y ∷ ys) (suc i) x h = get_elem?-map f ys i x h

index-lt : (xs : List Text) (i : ℕ) (x : Text) → get_elem? xs i ≡ some x → ltb i (length xs) ≡ true
index-lt [] i x h = cc
index-lt (y ∷ ys) zero x h = ground arith
index-lt (y ∷ ys) (suc i) x h = ground (arith, index-lt ys i x h)

module _ (sha256 : Text → Text) where
  pub climb-above :
      (fuel : ℕ) (a b : Text) (layer : List Text)
      → climb sha256 (suc fuel) (a ∷ b ∷ layer) ≡ climb sha256 fuel (above sha256 (a ∷ b ∷ layer))
  unfolding climb
  climb-above fuel a b layer = ground (arith, pair_up-pad sha256 (a ∷ b ∷ layer))

  gather-above :
      (fuel place : ℕ) (a b hash : Text) (layer proof : List Text)
      → get_elem? (pad (a ∷ b ∷ layer)) (sibling_of place) ≡ some hash
      → gather sha256 (suc fuel) (a ∷ b ∷ layer) place proof
        ≡ gather sha256 fuel (above sha256 (a ∷ b ∷ layer)) (place / 2) (
            proof
            ++ ((if ltb place (sibling_of place) then right_step hash else left_step hash) ∷ []))
  unfolding gather
  gather-above fuel place a b hash layer proof h =
      ground (arith, pair_up-pad sha256 (a ∷ b ∷ layer))

  verify-right :
      (root x hash : Text) (place : ℕ) (steps : List Text)
      → verify_steps sha256 root x place (right_step hash ∷ steps)
        ≡ verify_steps sha256 root (hash_pair sha256 x hash) (place / 2) steps
  unfolding verify_steps
  verify-right root x hash place steps = refl

  verify-left :
      (root x hash : Text) (place : ℕ) (steps : List Text)
      → verify_steps sha256 root x place (left_step hash ∷ steps)
        ≡ verify_steps sha256 root (hash_pair sha256 hash x) (place / 2) steps
  unfolding verify_steps
  verify-left root x hash place steps = refl

  -- `climb` and `gather` in lockstep: they agree on every level, and the steps gathered lead from the
  -- node to the root.
  record Leads (root x : Text) (layer : List Text) (fuel place : ℕ) (proof : List Text)
      : Type 0 where
    steps : List Text
    climbed : climb sha256 fuel layer ≡ some root
    gathered : gather sha256 fuel layer place proof ≡ some (proof ++ steps)
    verified : verify_steps sha256 root x place steps ≡ true

  -- One step of the verification, as the gathering wrote it.
  verify-step :
      (root x hash : Text) (place : ℕ) (steps : List Text)
      → verify_steps sha256 root x place
          ((if ltb place (sibling_of place) then right_step hash else left_step hash) ∷ steps)
        ≡ verify_steps sha256 root
            (if ltb place (sibling_of place)
              then hash_pair sha256 x hash
              else hash_pair sha256 hash x)
            (place / 2)
            steps
  verify-step root x hash place steps = elim (Bool-cases (ltb place (sibling_of place))) [
    | inl e ↦ rw e (verify-right root x hash place steps)
    | inr e ↦ rw e (verify-left root x hash place steps)
  ]

  lockstep :
      (fuel : ℕ) (layer : List Text) (place : ℕ) (x : Text) (proof : List Text)
      → get_elem? layer place ≡ some x
      → length layer ≤ fuel
      → (root : Text) × Leads root x layer fuel place proof
  lockstep zero [] place x proof h l = cc
  lockstep zero (a ∷ layer) place x proof h l = absurd (omega arith)
  lockstep (suc fuel) [] place x proof h l = cc
  lockstep (suc fuel) (a ∷ []) zero x proof h l = (
    a,
    record {
      steps = [];
      climbed = unfold climb in refl;
      gathered = unfold gather in rw (append-nil);
      verified = unfold verify_steps in ground (arith, text_eq_self x);
    },
  )
  lockstep (suc fuel) (a ∷ []) (suc place) x proof h l = cc
  lockstep (suc fuel) (a ∷ b ∷ layer) place x proof h l =
      let (hash, p, q) = sibling-above sha256 (a ∷ b ∷ layer) place x h in
      let step : Text = if ltb place (sibling_of place) then right_step hash else left_step hash in
      let (root, r) =
        lockstep fuel (above sha256 (a ∷ b ∷ layer)) (place / 2)
          (if ltb place (sibling_of place)
            then hash_pair sha256 x hash
            else hash_pair sha256 hash x)
          (proof ++ (step ∷ [])) q (omega (arith, length-above sha256 (a ∷ b ∷ layer))) in
      (
        root,
        record {
          steps = step ∷ r.steps;
          climbed = climb-above fuel a b layer ∙ r.climbed;
          gathered =
              gather-above fuel place a b hash layer proof p
              ∙ r.gathered
              ∙ ap some (append_assoc proof (step ∷ []) r.steps);
          verified = verify-step root x hash place r.steps ∙ r.verified;
        },
      )

  -- For every position of every list, `compute_root` gives a root and `generate_proof` a proof, with no
  -- index out of range and in as many rounds as there are entries, and `verify_proof` accepts the proof
  -- of the entry against the root.
  pub proof_verifies :
      (entries : List Text) (index : ℕ) (entry : Text)
      → get_elem? entries index ≡ some entry
      → (root : Text) × (proof : List Text) × (compute_root sha256 entries ≡ some (ok root))
        × (generate_proof sha256 entries (pos index) ≡ some (ok proof))
        × (verify_proof sha256 root entry proof index ≡ true)
  unfolding compute_root generate_proof verify_proof
  proof_verifies [] index entry h = cc
  proof_verifies (e ∷ es) index entry h =
      let (root, r) =
        lockstep (length (e ∷ es)) (map sha256 (e ∷ es)) index (sha256 entry) []
          (get_elem?-map sha256 (e ∷ es) index entry h)
          (omega (arith, length-map sha256 (e ∷ es))) in
      (
        root,
        r.steps,
        rw (r.climbed, compute_root),
        rw (index-lt (e ∷ es) index entry h, r.gathered, generate_proof),
        r.verified,
      )

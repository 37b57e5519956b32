-- ===== src/Merkle/Binding.antt =====
-- What an accepted inclusion proof of backend/src/shared/infrastructure/merkle_service.py binds.
use cadencia_a2a_platform.Prelude.{
  ℕ, ◌+◌, ◌/◌, ◌≡◌, refl, sym, ◌∙◌, ◌≢◌, ◌⊎◌, inl, inr, true, false, none, some, List, [], ◌∷◌,
  ◌++◌, arith, Bool-cases, Option-cases, length, All,
}
use cadencia_a2a_platform.Prelude.Texts.{
  Text, text_eq→eq, text_lt, text_lt_total, text_lt_asymm, append_parts, text_eq-cases,
}
use cadencia_a2a_platform.Merkle.Collisions.{hash_pair_comm}
use cadencia_a2a_platform.Merkle.Defs.{
  min_text, max_text, after_mark, hash_pair, verify_steps, verify_proof,
}
use mathlib.Core.Bool.{false≢true}

-- Two texts with one digest.
abbrev pub Collision : (Text → Text) → Type 0
Collision sha256 = (a : Text) × (b : Text) × (a ≢ b) × (sha256 a ≡ sha256 b)

-- Digests of the width of a SHA-256 in hexadecimal.
abbrev pub HasWidth : (Text → Text) → Type 0
HasWidth sha256 = (t : Text) → length (sha256 t) ≡ 64

-- The steps of a proof as `generate_proof` writes them: a mark and a digest of 64 characters.
abbrev pub IsProper : List Text → Type 0
IsProper = All (λ (step : Text). length step ≡ 66)

-- The text that a pair hash digests is the one part and then the other.
sorted_pair :
    (a s : Text) → (min_text a s ++ max_text a s ≡ s ++ a) ⊎ (min_text a s ++ max_text a s ≡ a ++ s)
sorted_pair a s = elim (Bool-cases (text_lt s a)) [
  | inl e ↦ inl (rw (e, text_lt_asymm s a e))
  | inr e ↦ elim (Bool-cases (text_lt a s)) [
    | inl f ↦ inr (rw (e, f))
    | inr f ↦ inr (rw (e, f, text_lt_total a s f e))
  ]
]

sorted_pair_cancel :
    (a b s : Text)
    → length a ≡ length s
    → length b ≡ length s
    → min_text a s ++ max_text a s ≡ min_text b s ++ max_text b s
    → a ≡ b
sorted_pair_cancel a b s la lb h = elim (sorted_pair a s) [
  | inl p ↦ elim (sorted_pair b s) [
    | inl q ↦ (append_parts s s a b refl (sym p ∙ h ∙ q)).1
    | inr q ↦ let r = append_parts s b a s (sym lb) (sym p ∙ h ∙ q) in r.1 ∙ r.0
  ]
  | inr p ↦ elim (sorted_pair b s) [
    | inl q ↦ let r = append_parts a s s b la (sym p ∙ h ∙ q) in r.0 ∙ r.1
    | inr q ↦ (append_parts a b s s (la ∙ sym lb) (sym p ∙ h ∙ q)).0
  ]
]

digest_cancel :
    (sha256 : Text → Text) (a b : Text) → sha256 a ≡ sha256 b → (a ≡ b) ⊎ Collision sha256
digest_cancel sha256 a b h = elim (text_eq-cases a b) [ inl e ↦ inl e | inr n ↦ inr (a, b, n, h) ]

-- With a neighbour of the same width a pair hash fixes its first part, or shows a collision.
hash_pair_cancel :
    (sha256 : Text → Text) (a b s : Text)
    → length a ≡ length s
    → length b ≡ length s
    → hash_pair sha256 a s ≡ hash_pair sha256 b s
    → (a ≡ b) ⊎ Collision sha256
unfolding hash_pair
hash_pair_cancel sha256 a b s la lb h =
    elim (digest_cancel sha256 (min_text a s ++ max_text a s) (min_text b s ++ max_text b s) h) [
      | inl e ↦ inl (sorted_pair_cancel a b s la lb e)
      | inr c ↦ inr c
    ]

after_mark-length :
    (mark : ℕ) (step hash : Text) → after_mark mark step ≡ some hash → length step ≡ length hash + 2
unfolding after_mark
after_mark-length mark [] hash h = cc
after_mark-length mark (c ∷ []) hash h = cc
after_mark-length mark (c ∷ d ∷ rest) hash h = ground arith

-- One round of the verification, by the mark of the step.
module _ (sha256 : Text → Text) (root x : Text) (place : ℕ) (step : Text) (steps : List Text) where
  verify-marked_right :
      (hash : Text)
      → after_mark b'R' step ≡ some hash
      → verify_steps sha256 root x place (step ∷ steps)
        ≡ verify_steps sha256 root (hash_pair sha256 x hash) (place / 2) steps
  unfolding verify_steps
  verify-marked_right hash e = rw (e, verify_steps)

  verify-marked_left :
      (hash : Text)
      → after_mark b'R' step ≡ none
      → after_mark b'L' step ≡ some hash
      → verify_steps sha256 root x place (step ∷ steps)
        ≡ verify_steps sha256 root (hash_pair sha256 hash x) (place / 2) steps
  unfolding verify_steps
  verify-marked_left hash e f = rw (e, f, verify_steps)

  verify-unmarked :
      after_mark b'R' step ≡ none
      → after_mark b'L' step ≡ none
      → verify_steps sha256 root x place (step ∷ steps) ≡ false
  unfolding verify_steps
  verify-unmarked e f = rw (e, f, verify_steps)

-- The position is carried along, and nothing depends on it.
verify-place :
    (sha256 : Text → Text) (root x : Text) (i j : ℕ) (steps : List Text)
    → verify_steps sha256 root x i steps ≡ verify_steps sha256 root x j steps
verify-place sha256 root x i j [] = unfold verify_steps in refl
verify-place sha256 root x i j (step ∷ steps) = elim (Option-cases (after_mark b'R' step)) [
  | inr (hash, e) ↦
      verify-marked_right sha256 root x i step steps hash e
      ∙ verify-place sha256 root (hash_pair sha256 x hash) (i / 2) (j / 2) steps
      ∙ sym (verify-marked_right sha256 root x j step steps hash e)
  | inl e ↦ elim (Option-cases (after_mark b'L' step)) [
    | inr (hash, f) ↦
        verify-marked_left sha256 root x i step steps hash e f
        ∙ verify-place sha256 root (hash_pair sha256 hash x) (i / 2) (j / 2) steps
        ∙ sym (verify-marked_left sha256 root x j step steps hash e f)
    | inl f ↦
        verify-unmarked sha256 root x i step steps e f
        ∙ sym (verify-unmarked sha256 root x j step steps e f)
  ]
]

module _ (sha256 : Text → Text) (wide : HasWidth sha256) where
  hash_pair-width : (a b : Text) → length (hash_pair sha256 a b) ≡ 64
  unfolding hash_pair
  hash_pair-width a b = wide (min_text a b ++ max_text a b)

  verify_steps_bind :
      (root x y : Text) (place : ℕ) (steps : List Text)
      → IsProper steps
      → length x ≡ 64
      → length y ≡ 64
      → verify_steps sha256 root x place steps ≡ true
      → verify_steps sha256 root y place steps ≡ true
      → (x ≡ y) ⊎ Collision sha256
  verify_steps_bind root x y place [] w lx ly h k = inl (
      text_eq→eq x root (unfold verify_steps in h)
      ∙ sym (text_eq→eq y root (unfold verify_steps in k)))
  verify_steps_bind root x y place (step ∷ steps) w lx ly h k =
      elim (Option-cases (after_mark b'R' step)) [
        | inr (hash, e) ↦
            let wh : length hash ≡ 64 = omega (arith, after_mark-length b'R' step hash e, w.0) in
            elim (verify_steps_bind root (hash_pair sha256 x hash) (hash_pair sha256 y hash)
              (place / 2) steps w.1 (hash_pair-width x hash) (hash_pair-width y hash)
              (sym (verify-marked_right sha256 root x place step steps hash e) ∙ h)
              (sym (verify-marked_right sha256 root y place step steps hash e) ∙ k)) [
                | inl p ↦ hash_pair_cancel sha256 x y hash (lx ∙ sym wh) (ly ∙ sym wh) p
                | inr c ↦ inr c
              ]
        | inl e ↦ elim (Option-cases (after_mark b'L' step)) [
          | inr (hash, f) ↦
              let wh : length hash ≡ 64 = omega (arith, after_mark-length b'L' step hash f, w.0) in
              elim (verify_steps_bind root (hash_pair sha256 hash x) (hash_pair sha256 hash y)
                (place / 2) steps w.1 (hash_pair-width hash x) (hash_pair-width hash y)
                (sym (verify-marked_left sha256 root x place step steps hash e f) ∙ h)
                (sym (verify-marked_left sha256 root y place step steps hash e f) ∙ k)) [
                  | inl p ↦
                      hash_pair_cancel sha256 x y hash (lx ∙ sym wh) (ly ∙ sym wh)
                        (hash_pair_comm sha256 x hash ∙ p ∙ hash_pair_comm sha256 hash y)
                  | inr c ↦ inr c
                ]
          | inl f ↦
              absurd (false≢true (sym (verify-unmarked sha256 root x place step steps e f) ∙ h))
        ]
      ]

  -- For a digest of 64 characters: if one proof, with steps as `generate_proof` writes them, is
  -- accepted for two entries against one root, then the entries are equal, or two different texts with
  -- one digest are at hand.
  pub proof_binds :
      (root x y : Text) (steps : List Text) (i j : ℕ)
      → IsProper steps
      → verify_proof sha256 root x steps i ≡ true
      → verify_proof sha256 root y steps j ≡ true
      → (x ≡ y) ⊎ Collision sha256
  unfolding verify_proof
  proof_binds root x y steps i j w h k =
      elim (verify_steps_bind root (sha256 x) (sha256 y) i steps w (wide x) (wide y) h
        (verify-place sha256 root (sha256 y) i j steps ∙ k)) [
          | inl p ↦ digest_cancel sha256 x y p
          | inr c ↦ inr c
        ]

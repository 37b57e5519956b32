-- ===== src/Audit/Faults.antt =====
-- What the verifier of backend/src/compliance/domain/audit_log.py reports, and what escapes it.
use cadencia_a2a_platform.Prelude.{
  ℕ, ◌+◌, ◌≡◌, refl, ap, ◌≢◌, ◌⊎◌, inl, inr, true, false, none, some, List, [], ◌∷◌, ◌++◌, arith,
  Bool-cases,
}
use cadencia_a2a_platform.Prelude.Texts.{Text, text_eq, text_eq_self}
use cadencia_a2a_platform.Audit.Append.{
  IsHexDigest, final_hash, IsChain, sort-IsChain, verify-IsChain, appended_verifies,
}
use cadencia_a2a_platform.Audit.Defs.{
  genesis_hash, verify_entry, verify_from, sort_entries, verify_chain, append_all, AuditEntry,
}

-- The number of an entry that fails its own hash, or the link to the accepted entries before it.
pub record IsFault (sha256 : Text → Text) (prev : Text) (es : List AuditEntry) (k : ℕ)
    : Type 0 where
  pub before : List AuditEntry
  pub entry : AuditEntry
  pub behind : List AuditEntry
  pub position : es ≡ before ++ (entry ∷ behind)
  pub number : entry.sequence_no ≡ k
  pub accepted : verify_from sha256 prev before ≡ (true, none)
  pub broken : (verify_entry sha256 entry ≡ false) ⊎ (entry.prev_hash ≢ final_hash prev before)

text_ne : (a b : Text) → text_eq a b ≡ false → a ≢ b
text_ne a b h = λ p. cc (text_eq_self a)

module _ (sha256 : Text → Text) where
  here :
      (prev : Text) (e : AuditEntry) (es : List AuditEntry) (k : ℕ)
      → e.sequence_no ≡ k
      → (verify_entry sha256 e ≡ false) ⊎ (e.prev_hash ≢ prev)
      → IsFault sha256 prev (e ∷ es) k
  here prev e es k n b = record {
    before = [];
    entry = e;
    behind = es;
    position = refl;
    number = n;
    accepted = unfold verify_from in refl;
    broken = b;
  }

  there :
      (prev : Text) (e : AuditEntry) (es : List AuditEntry) (k : ℕ)
      → verify_entry sha256 e ≡ true
      → text_eq e.prev_hash prev ≡ true
      → IsFault sha256 e.entry_hash es k
      → IsFault sha256 prev (e ∷ es) k
  there prev e es k v l f = record {
    before = e ∷ f.before;
    entry = f.entry;
    behind = f.behind;
    position = ap (λ xs. e ∷ xs) f.position;
    number = f.number;
    accepted = unfold verify_from in rw (v, l) f.accepted;
    broken = f.broken;
  }

  verify_from-IsFault :
      (prev : Text) (es : List AuditEntry) (k : ℕ)
      → verify_from sha256 prev es ≡ (false, some k)
      → IsFault sha256 prev es k
  unfolding verify_from
  verify_from-IsFault prev [] k h = absurd (cc)
  verify_from-IsFault prev (e ∷ es) k h = elim (Bool-cases (verify_entry sha256 e)) [
    | inr v ↦ here prev e es k (ground arith) (inl v)
    | inl v ↦ elim (Bool-cases (text_eq e.prev_hash prev)) [
      | inr l ↦ here prev e es k (ground arith) (inr (text_ne e.prev_hash prev l))
      | inl l ↦ there prev e es k v l (verify_from-IsFault e.entry_hash es k (ground arith))
    ]
  ]

-- A rejected log comes with the number of an entry such that all entries before it, by number, are
-- accepted, and which fails its own hash or does not carry the hash of the entry before it.
verifier_reports-IsFault :
    (sha256 : Text → Text) (es : List AuditEntry) (k : ℕ)
    → verify_chain sha256 es ≡ (false, some k)
    → IsFault sha256 genesis_hash (sort_entries es) k
unfolding verify_chain
verifier_reports-IsFault sha256 es k h =
    verify_from-IsFault sha256 genesis_hash (sort_entries es) k h

IsChain-prefix :
    (sha256 : Text → Text) (k : ℕ) (prev : Text) (xs ys : List AuditEntry)
    → IsChain sha256 k prev (xs ++ ys)
    → IsChain sha256 k prev xs
IsChain-prefix sha256 k prev [] ys h = tt
IsChain-prefix sha256 k prev (x ∷ xs) ys h =
    (h.0, h.1, h.2, IsChain-prefix sha256 (k + 1) x.entry_hash xs ys h.3)

-- The log that is left when the last entries of an appended log are deleted is accepted too: the
-- verifier does not notice a truncation.
truncation_verifies :
    (sha256 : Text → Text) (escrow_id : ℕ) (events : List (Text × Text)) (xs ys : List AuditEntry)
    → IsHexDigest sha256
    → append_all sha256 escrow_id events [] ≡ xs ++ ys
    → verify_chain sha256 xs ≡ (true, none)
unfolding verify_chain
truncation_verifies sha256 escrow_id events xs ys d h =
    let c = (appended_verifies sha256 escrow_id events d).1 in
    let p = IsChain-prefix sha256 0 genesis_hash xs ys (rw h at c) in
    rw (sort-IsChain sha256 0 genesis_hash xs p) (verify-IsChain sha256 0 genesis_hash xs p)

-- ===== src/Audit/Append.antt =====
-- What appending builds (backend/src/compliance/application/services.py) and the verifier accepts.
use cadencia_a2a_platform.Prelude.{
  ℕ, ◌+◌, ◌≡◌, refl, ap, ◌∙◌, true, none, some, List, [], ◌∷◌, ◌++◌, append_assoc, arith, length,
  last?,
}
use cadencia_a2a_platform.Prelude.Texts.{Text, text_eq_self, text_eq→eq}
use cadencia_a2a_platform.Errors.{ok}
use cadencia_a2a_platform.Audit.Defs.{
  genesis_hash, is_hash_value, content, verify_entry, create, verify_from, insert_entry,
  sort_entries, verify_chain, get_latest, hash_after, number_after, append_audit_event, append_all,
  AuditEntry,
}
use mathlib.Core.List.{append-nil}

-- Hashlib gives 64 lowercase hexadecimal digits.
abbrev pub IsHexDigest : (Text → Text) → Type 0
IsHexDigest sha256 = (t : Text) → is_hash_value (sha256 t) ≡ true

-- The hash that the next entry builds on.
abbrev pub final_hash : Text → List AuditEntry → Text
final_hash prev [] = prev
final_hash prev (e ∷ es) = final_hash e.entry_hash es

-- A chain in order: numbered from `k`, each entry on the hash before it.
abbrev pub IsChain : (Text → Text) → ℕ → Text → List AuditEntry → Type 0
IsChain sha256 k prev [] = Unit
IsChain sha256 k prev (e ∷ es) =
    (e.sequence_no ≡ k)
    × (e.prev_hash ≡ prev)
    × (verify_entry sha256 e ≡ true)
    × IsChain sha256 (k + 1) e.entry_hash es

module _ (sha256 : Text → Text) where
  pub sort-IsChain :
      (k : ℕ) (prev : Text) (es : List AuditEntry) → IsChain sha256 k prev es → sort_entries es ≡ es
  unfolding sort_entries
  sort-IsChain k prev [] h = refl
  sort-IsChain k prev (e ∷ []) h = refl
  sort-IsChain k prev (e ∷ x ∷ xs) h =
      ap (insert_entry e) (sort-IsChain (k + 1) e.entry_hash (x ∷ xs) h.3) ∙ ground arith

  pub verify-IsChain :
      (k : ℕ) (prev : Text) (es : List AuditEntry)
      → IsChain sha256 k prev es
      → verify_from sha256 prev es ≡ (true, none)
  unfolding verify_from
  verify-IsChain k prev [] h = refl
  verify-IsChain k prev (e ∷ es) h =
      rw (h.2, h.1, text_eq_self prev) (verify-IsChain (k + 1) e.entry_hash es h.3)

  IsChain-snoc :
      (k : ℕ) (prev : Text) (es : List AuditEntry) (e : AuditEntry)
      → IsChain sha256 k prev es
      → e.sequence_no ≡ k + length es
      → e.prev_hash ≡ final_hash prev es
      → verify_entry sha256 e ≡ true
      → IsChain sha256 k prev (es ++ (e ∷ []))
  IsChain-snoc k prev [] e h n p v = (omega arith, p, v, tt)
  IsChain-snoc k prev (x ∷ xs) e h n p v =
      (h.0, h.1, h.2, IsChain-snoc (k + 1) x.entry_hash xs e h.3 (omega arith) p v)

  -- The latest row of a chain, as the next append reads it.
  hash_after-IsChain :
      (prev : Text) (es : List AuditEntry)
      → elim (last? es) [ none ↦ prev | some e ↦ e.entry_hash ] ≡ final_hash prev es
  hash_after-IsChain prev [] = refl
  hash_after-IsChain prev (e ∷ es) = ground (arith, hash_after-IsChain e.entry_hash es)

  number_after-IsChain :
      (k : ℕ) (prev : Text) (es : List AuditEntry)
      → IsChain sha256 k prev es
      → elim (last? es) [ none ↦ k | some e ↦ e.sequence_no + 1 ] ≡ k + length es
  number_after-IsChain k prev [] h = omega arith
  number_after-IsChain k prev (e ∷ es) h =
      ground (arith, number_after-IsChain (k + 1) e.entry_hash es h.3)

  final_hash-valid :
      (k : ℕ) (prev : Text) (es : List AuditEntry)
      → IsHexDigest sha256
      → IsChain sha256 k prev es
      → is_hash_value prev ≡ true
      → is_hash_value (final_hash prev es) ≡ true
  unfolding verify_entry
  final_hash-valid k prev [] d h v = v
  final_hash-valid k prev (e ∷ es) d h v = final_hash-valid (k + 1) e.entry_hash es d h.3 (
      ap is_hash_value
        (text_eq→eq e.entry_hash (sha256 (content e.prev_hash e.event_type e.payload_json)) h.2)
      ∙ d (content e.prev_hash e.event_type e.payload_json))

  hash_after-last :
      (rows : List AuditEntry) → hash_after (last? rows) ≡ final_hash genesis_hash rows
  unfolding hash_after
  hash_after-last rows = ground (arith, hash_after-IsChain genesis_hash rows)

  number_after-last :
      (rows : List AuditEntry)
      → IsChain sha256 0 genesis_hash rows
      → number_after (last? rows) ≡ length rows
  number_after-last rows h = ground (arith, number_after-IsChain 0 genesis_hash rows h)

  genesis-valid : is_hash_value genesis_hash ≡ true
  unfolding is_hash_value genesis_hash
  genesis-valid = refl

  latest-IsChain :
      (rows : List AuditEntry) → IsChain sha256 0 genesis_hash rows → get_latest rows ≡ last? rows
  unfolding get_latest
  latest-IsChain rows h = ap last? (sort-IsChain 0 genesis_hash rows h)

  create_lem :
      (escrow_id n : ℕ) (event_type payload prev : Text)
      → is_hash_value prev ≡ true
      → is_hash_value (sha256 (content prev event_type payload)) ≡ true
      → create sha256 escrow_id n event_type payload prev
        ≡ ok (record {
          escrow_id = escrow_id;
          sequence_no = n;
          event_type = event_type;
          payload_json = payload;
          prev_hash = prev;
          entry_hash = sha256 (content prev event_type payload);
        })
  unfolding create
  create_lem escrow_id n event_type payload prev p q = ground arith

  -- What an append does to a chain.
  append-IsChain :
      (escrow_id : ℕ) (event_type payload : Text) (rows : List AuditEntry)
      → IsHexDigest sha256
      → IsChain sha256 0 genesis_hash rows
      → (e : AuditEntry) × (append_audit_event sha256 escrow_id event_type payload rows
          ≡ (ok e, rows ++ (e ∷ [])))
        × (e.event_type ≡ event_type)
        × (e.payload_json ≡ payload)
        × IsChain sha256 0 genesis_hash (rows ++ (e ∷ []))
  unfolding append_audit_event
  append-IsChain escrow_id event_type payload rows d h =
      let prev = final_hash genesis_hash rows in
      let text = content prev event_type payload in
      let e : AuditEntry = record {
        escrow_id = escrow_id;
        sequence_no = length rows;
        event_type = event_type;
        payload_json = payload;
        prev_hash = prev;
        entry_hash = sha256 text;
      } in
      (
        e,
        rw (
          latest-IsChain rows h,
          hash_after-last rows,
          number_after-last rows h,
          create_lem escrow_id (length rows) event_type payload prev
              (final_hash-valid 0 genesis_hash rows d h genesis-valid) (d text),
        ),
        refl,
        refl,
        IsChain-snoc 0 genesis_hash rows e h (omega arith) refl
            (unfold verify_entry in text_eq_self (sha256 text)),
      )

-- The events that the rows record, in order.
abbrev pub recorded : List AuditEntry → List (Text × Text)
recorded [] = []
recorded (e ∷ es) = (e.event_type, e.payload_json) ∷ recorded es

recorded-snoc :
    (rows : List AuditEntry) (e : AuditEntry)
    → recorded (rows ++ (e ∷ [])) ≡ recorded rows ++ ((e.event_type, e.payload_json) ∷ [])
recorded-snoc [] e = refl
recorded-snoc (x ∷ rows) e = rw (recorded-snoc rows e)

append_all-IsChain :
    (sha256 : Text → Text) (escrow_id : ℕ) (events : List (Text × Text)) (rows : List AuditEntry)
    → IsHexDigest sha256
    → IsChain sha256 0 genesis_hash rows
    → IsChain sha256 0 genesis_hash (append_all sha256 escrow_id events rows)
      × (recorded (append_all sha256 escrow_id events rows) ≡ recorded rows ++ events)
unfolding append_all
append_all-IsChain sha256 escrow_id [] rows d h = (h, rw (append-nil))
append_all-IsChain sha256 escrow_id ((event_type, payload) ∷ events) rows d h =
    let (e, p, q, r, c) = append-IsChain sha256 escrow_id event_type payload rows d h in
    let (c', same) = append_all-IsChain sha256 escrow_id events (rows ++ (e ∷ [])) d c in
    rw p (c', same ∙ rw (recorded-snoc rows e, q, r, append_assoc))

-- With a digest of 64 hexadecimal digits, appending any events to an empty log raises nothing: the
-- rows record exactly the events, in order, numbered from 0 and each on the hash of the one before,
-- and the verifier accepts them.
pub appended_verifies :
    (sha256 : Text → Text) (escrow_id : ℕ) (events : List (Text × Text))
    → IsHexDigest sha256
    → let rows = append_all sha256 escrow_id events [] in
      (recorded rows ≡ events)
      × IsChain sha256 0 genesis_hash rows
      × (verify_chain sha256 rows ≡ (true, none))
unfolding verify_chain
appended_verifies sha256 escrow_id events d =
    let (c, same) = append_all-IsChain sha256 escrow_id events [] d tt in
    (
      same,
      c,
      rw (sort-IsChain sha256 0 genesis_hash (append_all sha256 escrow_id events []) c)
          (verify-IsChain sha256 0 genesis_hash (append_all sha256 escrow_id events []) c),
    )

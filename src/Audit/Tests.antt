-- ===== src/Audit/Tests.antt =====
-- The audit log's theorems at concrete logs, with a small digest in place of SHA-256.
use cadencia_a2a_platform.Prelude.{
  ℕ, ◌+◌, ◌%◌, ◌≡◌, refl, ◌⊎◌, true, false, none, some, List, [], ◌∷◌, arith, length,
}
use cadencia_a2a_platform.Prelude.Texts.{Text, codes}
use cadencia_a2a_platform.Audit.Defs.{
  genesis_hash, is_hash_value, verify_entry, create, verify_from, sort_entries, verify_chain,
  get_latest, hash_after, append_audit_event, append_all, AuditEntry,
}
use cadencia_a2a_platform.Audit.Append.{
  IsHexDigest, final_hash, IsChain, recorded, appended_verifies,
}
use cadencia_a2a_platform.Audit.Tamper.{Collision, IsWellFormed, SameContent, last_hash_binds}

-- A digest of 64 decimal digits: the sum of the code points, modulo 10, and zeros.
abbrev weight : Text → ℕ
weight [] = 0
weight (c ∷ s) = c + weight s

abbrev digest : Text → Text
digest t =
    (b'0' + weight t % 10) ∷ codes "000000000000000000000000000000000000000000000000000000000000000"

digest-IsHexDigest : IsHexDigest digest
unfolding is_hash_value
digest-IsHexDigest t = ground arith

abbrev events : List (Text × Text)
events = (codes "DEPLOYED", codes "{}") ∷ (codes "FUNDED", codes "{1}") ∷ []

-- The rows of the log of these two events.
abbrev row : ℕ → Text → Text → Text → Text → AuditEntry
row n kind payload above it = record {
  escrow_id = 5;
  sequence_no = n;
  event_type = kind;
  payload_json = payload;
  prev_hash = above;
  entry_hash = it;
}

appended_verifies_example :
    let rows = append_all digest 5 events [] in
    (recorded rows ≡ events)
    × IsChain digest 0 genesis_hash rows
    × (verify_chain digest rows ≡ (true, none))
appended_verifies_example = appended_verifies digest 5 events digest-IsHexDigest

abbrev first_hash : Text
first_hash = codes "6000000000000000000000000000000000000000000000000000000000000000"

abbrev second_hash : Text
second_hash = codes "1000000000000000000000000000000000000000000000000000000000000000"

abbrev first : AuditEntry
first = row 0 (codes "DEPLOYED") (codes "{}") genesis_hash first_hash

abbrev second : AuditEntry
second = row 1 (codes "FUNDED") (codes "{1}") first_hash second_hash

append-events : append_all digest 5 events [] ≡ first ∷ second ∷ []
unfolding append_all append_audit_event get_latest sort_entries create hash_after genesis_hash
append-events = refl

-- The first row with another payload of the same digest.
abbrev forged : AuditEntry
forged = row 0 (codes "DEPLOYED") (codes "}{") genesis_hash first_hash

first_verifies : verify_chain digest (first ∷ []) ≡ (true, none)
unfolding verify_chain sort_entries verify_from verify_entry genesis_hash
first_verifies = refl

forged_verifies : verify_chain digest (forged ∷ []) ≡ (true, none)
unfolding verify_chain sort_entries verify_from verify_entry genesis_hash
forged_verifies = refl

first-IsWellFormed : IsWellFormed (sort_entries (first ∷ []))
unfolding sort_entries genesis_hash
first-IsWellFormed = ((refl, refl), tt)

forged-IsWellFormed : IsWellFormed (sort_entries (forged ∷ []))
unfolding sort_entries genesis_hash
forged-IsWellFormed = ((refl, refl), tt)

same_length : length (sort_entries (first ∷ [])) ≡ length (sort_entries (forged ∷ []))
unfolding sort_entries
same_length = refl

same_end :
    final_hash genesis_hash (sort_entries (first ∷ []))
    ≡ final_hash genesis_hash (sort_entries (forged ∷ []))
unfolding sort_entries
same_end = refl

last_hash_binds_example :
    SameContent (sort_entries (first ∷ [])) (sort_entries (forged ∷ [])) ⊎ Collision digest
last_hash_binds_example =
    last_hash_binds digest (first ∷ []) (forged ∷ []) same_length first-IsWellFormed
      forged-IsWellFormed first_verifies forged_verifies same_end

-- The second row with its amount changed.
abbrev altered : AuditEntry
altered = record second { payload_json = codes "{2}" }

altered_fails : verify_chain digest (altered ∷ first ∷ []) ≡ (false, some 1)
unfolding verify_chain sort_entries verify_from verify_entry genesis_hash
altered_fails = refl

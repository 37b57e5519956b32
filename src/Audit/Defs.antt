-- ===== src/Audit/Defs.antt =====
-- `AuditEntry`, `AuditHasher` and `AuditChainVerifier` (backend/src/compliance/domain/audit_log.py),
-- `HashValue` (value_objects.py), and `ComplianceService.append_audit_event` with the queries of its
-- repository. `sha256` stands for hashlib's hexadecimal digest; a payload comes as the text that
-- `json.dumps` makes of it.
use cadencia_a2a_platform.Prelude.{
  ℕ, zero, suc, ◌+◌, Bool, true, false, not, ◌&&◌, ◌||◌, Option, none, some, List, [], ◌∷◌, ◌++◌,
  ltb, leb, ◌==◌, if◌then◌else◌, length, last?,
}
use cadencia_a2a_platform.Prelude.Texts.{Text, text_eq}
use cadencia_a2a_platform.Errors.{validation_error, Result, ok, err}

pub record AuditEntry : Type 0 where
  pub escrow_id : ℕ
  pub sequence_no : ℕ
  pub event_type : Text
  pub payload_json : Text
  pub prev_hash : Text
  pub entry_hash : Text

-- `"0" * 64`
abbrev zeros : ℕ → Text
zeros zero = []
zeros (suc n) = b'0' ∷ zeros n

unfoldable pub genesis_hash : Text
genesis_hash = zeros 64

-- `[0-9a-f]`
abbrev is_hex : ℕ → Bool
is_hex c = (leb b'0' c && leb c b'9') || (leb b'a' c && leb c b'f')

abbrev all_hex : Text → Bool
all_hex [] = true
all_hex (c ∷ s) = is_hex c && all_hex s

-- `HashValue.__post_init__`: re.fullmatch(r"[0-9a-f]{64}", value)
unfoldable pub is_hash_value : Text → Bool
is_hash_value s = all_hex s && (length s == 64)

-- "|".join([prev_hash, event_type, payload_json])
abbrev pub content : Text → Text → Text → Text
content prev event_type payload = prev ++ (b'|' ∷ (event_type ++ (b'|' ∷ payload)))

module _ (sha256 : Text → Text) where
  unfoldable pub compute : Text → Text → Text → Text
  compute prev event_type payload = sha256 (content prev event_type payload)

  -- `AuditHasher.verify`
  unfoldable pub verify_entry : AuditEntry → Bool
  unfolding compute
  verify_entry e = text_eq e.entry_hash (compute e.prev_hash e.event_type e.payload_json)

  -- `AuditEntry.create`
  unfoldable pub create : ℕ → ℕ → Text → Text → Text → Result AuditEntry
  unfolding compute is_hash_value
  create escrow_id sequence_no event_type payload prev_hash =
      let entry_hash = compute prev_hash event_type payload in
      if not (is_hash_value prev_hash)
      then err validation_error
      else if not (is_hash_value entry_hash)
      then err validation_error
      else ok (record {
        escrow_id = escrow_id;
        sequence_no = sequence_no;
        event_type = event_type;
        payload_json = payload;
        prev_hash = prev_hash;
        entry_hash = entry_hash;
      })

  -- The loop of `AuditChainVerifier.verify`.
  unfoldable pub verify_from : Text → List AuditEntry → Bool × Option ℕ
  verify_from expected_prev [] = (true, none)
  verify_from expected_prev (e ∷ es) =
      if not (verify_entry e)
      then (false, some e.sequence_no)
      else if not (text_eq e.prev_hash expected_prev)
      then (false, some e.sequence_no)
      else verify_from e.entry_hash es

-- `sorted(entries, key=lambda e: e.sequence_no.value)`, which is stable
unfoldable pub insert_entry : AuditEntry → List AuditEntry → List AuditEntry
insert_entry e [] = e ∷ []
insert_entry e (x ∷ xs) =
    if ltb x.sequence_no e.sequence_no then x ∷ insert_entry e xs else e ∷ x ∷ xs

unfoldable pub sort_entries : List AuditEntry → List AuditEntry
unfolding insert_entry
sort_entries [] = []
sort_entries (e ∷ es) = insert_entry e (sort_entries es)

-- `AuditChainVerifier.verify`
unfoldable pub verify_chain : (Text → Text) → List AuditEntry → Bool × Option ℕ
verify_chain sha256 entries = verify_from sha256 genesis_hash (sort_entries entries)

-- `PostgresAuditLogRepository.get_latest`: ORDER BY sequence_no DESC LIMIT 1, over the rows of one
-- escrow
unfoldable pub get_latest : List AuditEntry → Option AuditEntry
get_latest rows = last? (sort_entries rows)

-- `latest.entry_hash.value if latest else GENESIS_HASH`
unfoldable pub hash_after : Option AuditEntry → Text
hash_after none = genesis_hash
hash_after (some e) = e.entry_hash

-- `(latest.sequence_no.value + 1) if latest else 0`
abbrev pub number_after : Option AuditEntry → ℕ
number_after none = 0
number_after (some e) = e.sequence_no + 1

-- Step 4 of the append: the new row, unless its construction raised.
abbrev pub store : Result AuditEntry → List AuditEntry → Result AuditEntry × List AuditEntry
store (err x) rows = (err x, rows)
store (ok entry) rows = (ok entry, rows ++ (entry ∷ []))

-- `ComplianceService.append_audit_event`, under the advisory lock: the rows of one escrow go in and out
unfoldable pub append_audit_event :
    (Text → Text) → ℕ → Text → Text → List AuditEntry → Result AuditEntry × List AuditEntry
append_audit_event sha256 escrow_id event_type payload rows =
    store
      (create sha256 escrow_id (number_after (get_latest rows)) event_type payload
        (hash_after (get_latest rows)))
      rows

-- Events one after another, each with its type and payload.
unfoldable pub append_all :
    (Text → Text) → ℕ → List (Text × Text) → List AuditEntry → List AuditEntry
append_all sha256 escrow_id [] rows = rows
append_all sha256 escrow_id ((event_type, payload) ∷ events) rows =
    append_all sha256 escrow_id events
      (append_audit_event sha256 escrow_id event_type payload rows).1

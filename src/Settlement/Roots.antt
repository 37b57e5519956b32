-- ===== src/Settlement/Roots.antt =====
-- The entries that a release hashes, and the roots (backend/src/settlement/application/services.py):
-- `_get_real_audit_entries`, `_build_stub_audit_entries` and `compute_merkle_root`. `str` is Python's on
-- ids and numbers; `sha256` the hexadecimal digest.
use cadencia_a2a_platform.Prelude.{ℕ, Option, none, some, List, [], ◌∷◌, ◌++◌, map}
use cadencia_a2a_platform.Prelude.Texts.{Text, codes}
use cadencia_a2a_platform.Errors.{Result, ok}
use cadencia_a2a_platform.Escrow.{Escrow}
use cadencia_a2a_platform.Audit.{AuditEntry}
use cadencia_a2a_platform.Merkle.{compute_root}

-- f"{e.event_type}:{e.payload_json}:hash={e.entry_hash.value}"
unfoldable pub entry_line : AuditEntry → Text
entry_line e = e.event_type ++ (codes ":" ++ (e.payload_json ++ (codes ":hash=" ++ e.entry_hash)))

abbrev tx_line : Option Text → List Text
tx_line none = []
tx_line (some tx) = (codes "DEPLOY_TX:" ++ tx) ∷ []

abbrev funded_line : (ℕ → Text) → Escrow → Option Text → List Text
funded_line str e none = []
funded_line str e (some tx) =
    (codes "FUNDED:escrow="
      ++ (str e.id ++ (codes ":tx=" ++ (tx ++ (codes ":amount=" ++ str e.amount)))))
    ∷ []

-- `_build_stub_audit_entries`
unfoldable pub stub_entries : (ℕ → Text) → Escrow → List Text
stub_entries str e =
    (codes "DEPLOYED:escrow="
      ++ (str e.id
          ++ (codes ":session=" ++ (str e.session_id ++ (codes ":amount=" ++ str e.amount)))))
    ∷ (tx_line e.deploy_tx_id ++ funded_line str e e.fund_tx_id)

-- `_get_real_audit_entries`: the rows of the escrow, `none` where the query raised
unfoldable pub real_entries : (ℕ → Text) → Escrow → Option (List AuditEntry) → List Text
unfolding stub_entries entry_line
real_entries str e none = stub_entries str e
real_entries str e (some []) = stub_entries str e
real_entries str e (some (row ∷ rows)) = map entry_line (row ∷ rows)

-- `_load_audit_entries`, which `compute_merkle_root` calls, is defined nowhere in the module: the call
-- raises `NameError`, which the method catches.
abbrev pub load_audit_entries : Option (List AuditEntry) → Option (List Text)
load_audit_entries rows = none

abbrev root_of : (Text → Text) → Text → Option (List Text) → Option (Result Text)
root_of sha256 id none = some (ok (sha256 id))
root_of sha256 id (some []) = some (ok (sha256 id))
root_of sha256 id (some (e ∷ es)) = compute_root sha256 (e ∷ es)

-- `SettlementService.compute_merkle_root`
unfoldable pub compute_merkle_root :
    (Text → Text) → (ℕ → Text) → ℕ → Option (List AuditEntry) → Option (Result Text)
unfolding compute_root
compute_merkle_root sha256 str id rows = root_of sha256 (str id) (load_audit_entries rows)

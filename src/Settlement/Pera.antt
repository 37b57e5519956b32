-- ===== src/Settlement/Pera.antt =====
-- The operations that record what a wallet signed (`record_pera_deploy`, `record_pera_fund`,
-- `record_pera_release` and `record_pera_refund` of
-- backend/src/settlement/application/services.py).
use cadencia_a2a_platform.Prelude.{ℕ, Option, none, some, List, [], ◌∷◌, if◌then◌else◌}
use cadencia_a2a_platform.Prelude.Int.{ℤ}
use cadencia_a2a_platform.Prelude.Texts.{Text}
use cadencia_a2a_platform.Escrow.{
  new_escrow, has_app, record_deployment, record_funding, record_release, record_refund, Escrow,
  deployed,
}
use cadencia_a2a_platform.Audit.{AuditEntry}
use cadencia_a2a_platform.Settlement.Service.{settlement_of, rooted, Outside}
use cadencia_a2a_platform.Settlement.Values.{app_id, app_address, tx_id, merkle_root}
use cadencia_a2a_platform.Settlement.Gateway.{App}
use cadencia_a2a_platform.Settlement.Roots.{compute_merkle_root}
use cadencia_a2a_platform.Settlement.Defs.{
  Served, found, built, recorded, stored, as_is, Desk, answered,
}

abbrev pub recording : Option Escrow → ℕ → ℕ → ℕ → ℤ → Text → Text → App → Desk → Served
recording (some e) id session now index address tx app d =
    if has_app e.algo_app_id
    then (answered e, d)
    else built (app_id index) d (λ n. built (app_address address) d (λ place.
      built (tx_id tx) d
        (λ t. stored (record_deployment n place t now e) (record d { app = some app }))))
recording none id session now index address tx app d =
    let e = record (new_escrow id now session [] [] 1) { status = deployed } in
    built (app_id index) d (λ n. built (app_address address) d (λ place.
      built (tx_id tx) d
        (λ t. stored (record_deployment n place t now e) (record d { app = some app }))))

-- `app` is the application that the wallet deployed.
unfoldable pub record_pera_deploy : ℕ → ℕ → ℕ → ℤ → Text → Text → App → Desk → Served
unfolding new_escrow app_id app_address tx_id record_deployment
record_pera_deploy id session now index address tx app d =
    recording d.row id session now index address tx app d

unfoldable pub record_pera_fund : Text → ℕ → Desk → Served
unfolding tx_id record_funding
record_pera_fund tx now d =
    found d.row d (λ e. built (tx_id tx) d (λ t. recorded (record_funding t now e) as_is [] d))

unfoldable pub record_pera_release :
    Outside → Option (List AuditEntry) → Text → ℕ → ℕ → ℕ → Desk → Served
unfolding compute_merkle_root tx_id merkle_root record_release
record_pera_release o rows tx now later at d = found d.row d (λ e.
    rooted o.reads_hex (compute_merkle_root o.sha256 o.str e.id rows) d (λ root.
      built (tx_id tx) d (λ t.
        recorded (record_release t root now later e) as_is (settlement_of e t (some at) ∷ []) d)))

unfoldable pub record_pera_refund : Text → ℕ → ℕ → Desk → Served
unfolding tx_id record_refund
record_pera_refund tx now later d =
    found d.row d (λ e. built (tx_id tx) d (λ t. recorded (record_refund t now later e) as_is [] d))

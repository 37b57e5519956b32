-- ===== src/Enterprise/Lifecycle.antt =====
-- The KYC steps and the configuration of an enterprise (backend/src/identity/domain/enterprise.py).
use cadencia_a2a_platform.Prelude.{
  ℕ, ◌+◌, ◌≡◌, ◌↔◌, none, some, List, [], ◌∷◌, arith, ◌==◌, if◌then◌else◌,
}
use cadencia_a2a_platform.Prelude.Int.{◌≤ℤ◌, ℤ}
use cadencia_a2a_platform.Prelude.Texts.{Text}
use cadencia_a2a_platform.Errors.{validation_error, ok, err}
use cadencia_a2a_platform.Enterprise.Defs.{
  update_agent_config, link_algorand_wallet, apply, run, Enterprise, AgentConfig, updated, Command,
  submit, verify, make_active, link, unlink,
}

-- The commands that take a step of KYC, in their order.
abbrev pub step_of : Command → ℕ
step_of (submit documents) = 1
step_of verify = 2
step_of make_active = 3
step_of _ = 0

-- The reference: a counter that goes on by one where the next step of KYC is called, and at no other
-- call.
abbrev pub kyc_after : List (ℕ × Command) → ℕ → ℕ
kyc_after [] n = n
kyc_after ((now, c) ∷ cs) n = kyc_after cs (if step_of c == n + 1 then n + 1 else n)

-- A configuration whose bounds end up crossed raises `ValidationError`, and the crossed bounds stay
-- written; nothing else of the enterprise changes.
pub refused_config_writes_bounds :
    (config : AgentConfig) (now : ℕ) (e : Enterprise) (low high : ℤ)
    → config.min_order_value ≡ some low
    → config.max_order_value ≡ some high
    → ¬ (low ≤ℤ high)
    → update_agent_config config now e
      ≡ (err validation_error, record e { min_order_value = some low; max_order_value = some high })
unfolding update_agent_config
refused_config_writes_bounds config now e low high p q h = ground arith

-- A wallet can be linked exactly if none is, is then the one linked, and can be linked anew after it
-- is unlinked.
pub wallet_cycle :
    (a b : Text) (t₀ t₁ t₂ : ℕ) (e : Enterprise)
    → ((link_algorand_wallet a t₀ e).0 ≡ ok updated ↔ e.algorand_wallet ≡ none)
      × (e.algorand_wallet ≡ none
          → ((run ((t₀, link a) ∷ (t₁, link b) ∷ []) e).algorand_wallet ≡ some a)
            × ((run ((t₀, link a) ∷ (t₁, unlink) ∷ (t₂, link b) ∷ []) e).algorand_wallet ≡ some b))
unfolding run apply link_algorand_wallet
wallet_cycle a b t₀ t₁ t₂ e = ((λ h. ground arith, λ h. ground arith), λ h. ground arith)

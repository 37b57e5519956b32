-- ===== src/Settlement/Rules.antt =====
-- Rules for the parts of a request of backend/src/settlement/application/services.py: a predicate on the
-- desk holds after the whole where it holds wherever a part may end, and what follows a part may assume what the part has
-- tested.
use cadencia_a2a_platform.Prelude.{
  ℕ, ◌≡◌, refl, ◌≢◌, Bool, Option, none, some, List, ◌∷◌, ◌++◌, arith,
}
use cadencia_a2a_platform.Prelude.Texts.{Text}
use cadencia_a2a_platform.Errors.{Result, ok, err}
use cadencia_a2a_platform.Escrow.{
  Outcome, Escrow, EscrowStatus, pending_approval, approved, deployed, funded, released, refunded,
  rejected, frozen_status, EscrowEvent,
}
use cadencia_a2a_platform.Settlement.Gateway.{App}
use cadencia_a2a_platform.Settlement.Values.{tx_id, merkle_root}
use cadencia_a2a_platform.Settlement.Defs.{
  Served, found, deployed_app, built, recorded, stored, as_is, Settlement, Desk,
}
use cadencia_a2a_platform.Settlement.Service.{
  awaiting, on_chain, called, unless_refused, has_address, rooted, anchored, ignoring,
}
use cadencia_a2a_platform.Prelude.{[]}
use cadencia_a2a_platform.Prelude.{true, false}

unfoldable pub Holds : (Desk → Type 0) → Served → Type 0
Holds P s = P s.1

pub found-Holds :
    (P : Desk → Type 0) (row : Option Escrow) (d : Desk) (k : Escrow → Served)
    → P d
    → ((e : Escrow) → row ≡ some e → Holds P (k e))
    → Holds P (found row d k)
unfolding Holds
found-Holds P none d k h f = h
found-Holds P (some e) d k h f = f e refl

pub built-Holds :
    (P : Desk → Type 0) {A : Type 0} (r : Result A) (d : Desk) (k : A → Served)
    → P d
    → ((a : A) → r ≡ ok a → Holds P (k a))
    → Holds P (built r d k)
unfolding Holds
built-Holds P (err x) d k h f = h
built-Holds P (ok a) d k h f = f a refl

pub deployed_app-Holds :
    (P : Desk → Type 0) (app : Option ℕ) (d : Desk) (k : Served)
    → P d
    → (app ≢ none → Holds P k)
    → Holds P (deployed_app app d k)
unfolding Holds
deployed_app-Holds P none d k h f = h
deployed_app-Holds P (some a) d k h f = f (grind arith)

pub has_address-Holds :
    (P : Desk → Type 0) (a : Option Text) (d : Desk) (k : Served)
    → P d
    → Holds P k
    → Holds P (has_address a d k)
unfolding Holds
has_address-Holds P none d k h p = h
has_address-Holds P (some a) d k h p = p

pub on_chain-Holds :
    (P : Desk → Type 0) (c : Option Text × Option App) (d : Desk) (k : Text → Desk → Served)
    → P (record d { app = c.1 })
    → ((tx : Text) → Holds P (k tx (record d { app = c.1 })))
    → Holds P (on_chain c d k)
unfolding Holds
on_chain-Holds P (none, app) d k h f = h
on_chain-Holds P (some t, app) d k h f =
    built-Holds P (tx_id t) (record d { app = app }) (λ (tx : Text). k tx (record d { app = app }))
      h (λ tx e. f tx)

pub called-Holds :
    (P : Desk → Type 0) (c : Option Text × Option App) (d : Desk) (k : Text → Desk → Served)
    → P (record d { app = c.1 })
    → ((t : Text) → Holds P (k t (record d { app = c.1 })))
    → Holds P (called c d k)
unfolding Holds
called-Holds P (none, app) d k h f = h
called-Holds P (some t, app) d k h f = f t

pub ignoring-Holds :
    (P : Desk → Type 0) (c : Option Text × Option App) (d : Desk) (k : Desk → Served)
    → P (record d { app = c.1 })
    → Holds P (k (record d { app = c.1 }))
    → Holds P (ignoring c d k)
unfolding Holds
ignoring-Holds P (none, app) d k h f = h
ignoring-Holds P (some t, app) d k h f = f

pub anchored-Holds :
    (P : Desk → Type 0) (c : Option Text) (d : Desk) (k : Served)
    → P d
    → Holds P k
    → Holds P (anchored c d k)
unfolding Holds
anchored-Holds P none d k h f = h
anchored-Holds P (some t) d k h f = built-Holds P (tx_id t) d (λ (a : Text). k) h (λ a e. f)

pub rooted-Holds :
    (P : Desk → Type 0) (reads_hex : Text → Bool) (r : Option (Result Text)) (d : Desk)
    (k : Text → Served)
    → P d
    → ((root : Text) → Holds P (k root))
    → Holds P (rooted reads_hex r d k)
unfolding Holds
rooted-Holds P reads_hex none d k h f = h
rooted-Holds P reads_hex (some r) d k h f =
    built-Holds P r d (λ (t : Text). built (merkle_root reads_hex t) d k) h
      (λ t e. built-Holds P (merkle_root reads_hex t) d k h (λ root e'. f root))

pub awaiting-Holds :
    (P : Desk → Type 0) (s : EscrowStatus) (d : Desk) (k : Served)
    → P d
    → Holds P k
    → Holds P (awaiting s d k)
unfolding Holds
awaiting-Holds P pending_approval d k h f = f
awaiting-Holds P approved d k h f = h
awaiting-Holds P deployed d k h f = h
awaiting-Holds P funded d k h f = h
awaiting-Holds P released d k h f = h
awaiting-Holds P refunded d k h f = h
awaiting-Holds P rejected d k h f = h
awaiting-Holds P frozen_status d k h f = h

-- The event and the row of a method that did not raise have `Q`.
abbrev pub Passes : (EscrowEvent → Escrow → Type 0) → Outcome → Type 0
Passes Q (err x, e) = Unit
Passes Q (ok event, e) = Q event e

pub recorded-Holds :
    (P : Desk → Type 0) (o : Outcome) (patch : EscrowEvent → EscrowEvent) (ss : List Settlement)
    (d : Desk)
    → P d
    → Passes
        (λ event e. P (record d {
          row = some e;
          settlements = ss ++ d.settlements;
          published = patch event ∷ d.published;
        }))
        o
    → Holds P (recorded o patch ss d)
unfolding Holds
recorded-Holds P (err x, e) patch ss d h p = h
recorded-Holds P (ok event, e) patch ss d h p = p

pub unless_refused-Holds :
    (P : Desk → Type 0) (checked : Bool) (o : Outcome) (d : Desk)
    → P d
    → Holds P (recorded o as_is [] d)
    → Holds P (unless_refused checked o d)
unfolding Holds
unless_refused-Holds P checked (err x, e) d h p = h
unless_refused-Holds P true (ok event, e) d h p = p
unless_refused-Holds P false (ok event, e) d h p = h

pub stored-Holds :
    (P : Desk → Type 0) (o : Outcome) (d : Desk)
    → P d
    → Passes (λ event e. P (record d { row = some e })) o
    → Holds P (stored o d)
unfolding Holds
stored-Holds P (err x, e) d h p = h
stored-Holds P (ok event, e) d h p = p

pub ruleset desk_rules = (
  found-Holds, built-Holds, deployed_app-Holds, has_address-Holds, on_chain-Holds, called-Holds,
  unless_refused-Holds, ignoring-Holds, anchored-Holds, rooted-Holds, awaiting-Holds,
  recorded-Holds, stored-Holds,
)

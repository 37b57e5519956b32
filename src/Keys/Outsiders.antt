-- ===== src/Keys/Outsiders.antt =====
-- Requests on API keys by users of other enterprises (backend/src/identity).
use cadencia_a2a_platform.Prelude.{
  ℕ, ◌≡◌, refl, sym, ◌∙◌, inl, inr, Bool, true, false, not, ◌&&◌, Option, none, some, List, [], ◌∷◌,
  ◌++◌, arith, ◌==◌, Bool-cases, Option-cases,
}
use cadencia_a2a_platform.Prelude.Texts.{Text}
use cadencia_a2a_platform.Keys.Defs.{
  get_by_id, belongs, save, created_reply, create_api_key, rows_of, switch_off, revoking,
  revoke_api_key, serve, run, list_by_enterprise, User, ApiKey, Store, Request, create_it,
  revoke_it,
}

-- The enterprise's list of keys, which its users see.
abbrev keys_of : ℕ → Store → List ApiKey
unfolding list_by_enterprise
keys_of e s = list_by_enterprise e s.keys

-- The user who sends a request is not in the store, or belongs to another enterprise.
abbrev pub is_foreign : ℕ → List User → Request → Bool
unfolding get_by_id
is_foreign e us (create_it key raw user enterprise label) = not (belongs e (get_by_id user us))
is_foreign e us (revoke_it key user enterprise) = not (belongs e (get_by_id user us))

list_switch_off :
    (e i d : ℕ) (rs : List ApiKey)
    → (d == e) ≡ false
    → list_by_enterprise e (switch_off i d rs) ≡ list_by_enterprise e rs
unfolding switch_off list_by_enterprise
list_switch_off e i d [] h = refl
list_switch_off e i d (r ∷ rs) h = grind (arith, list_switch_off e i d rs h)

list_snoc :
    (e : ℕ) (r : ApiKey) (rs : List ApiKey)
    → (r.enterprise_id == e) ≡ false
    → list_by_enterprise e (rs ++ r ∷ []) ≡ list_by_enterprise e rs
unfolding list_by_enterprise
list_snoc e r [] h = rw h refl
list_snoc e r (x ∷ rs) h = grind (arith, list_snoc e r rs h)

abbrev pub all_foreign : ℕ → List User → List Request → Bool
all_foreign e us [] = true
all_foreign e us (q ∷ qs) = is_foreign e us q && all_foreign e us qs

-- The users and the enterprise's keys are as they were.
abbrev Leaves : ℕ → Store → Store → Type 0
Leaves e s t = (t.users ≡ s.users) × (keys_of e t ≡ keys_of e s)

save-Leaves :
    (e : ℕ) (r : ApiKey) (s t : Store)
    → (r.enterprise_id == e) ≡ false
    → save r s ≡ some t
    → Leaves e s t
unfolding save list_by_enterprise
save-Leaves e r s t h p =
    let b : (s.users ≡ t.users) × (s.keys ++ r ∷ [] ≡ t.keys) = ground arith in
    (sym (b.0), rw (← b.1) (list_snoc e r s.keys h))

created-Leaves :
    (e i : ℕ) (raw : Text) (label : Option Text) (r : ApiKey) (s : Store)
    → (r.enterprise_id == e) ≡ false
    → Leaves e s (created_reply i raw label s (save r s)).1
created-Leaves e i raw label r s h = elim (Option-cases (save r s)) [
  | inl p ↦ rw p (refl, refl)
  | inr (t, p) ↦ rw p (save-Leaves e r s t h p)
]

revoking-Leaves :
    (e i d : ℕ) (rs : List ApiKey) (s : Store) → (d == e) ≡ false → Leaves e s (revoking i d rs s).1
unfolding keys_of list_by_enterprise
revoking-Leaves e i d [] s h = (refl, refl)
revoking-Leaves e i d (r ∷ []) s h = (refl, list_switch_off e i d s.keys h)
revoking-Leaves e i d (r ∷ t ∷ rs) s h = (refl, refl)

-- A user of one enterprise does not belong to another.
other_enterprise :
    (d e : ℕ) (o : Option User) → belongs d o ≡ true → not (belongs e o) ≡ true → (d == e) ≡ false
other_enterprise d e none p q = absurd (cc)
other_enterprise d e (some u) p q = ground arith

serve-Leaves :
    (hmac : Text → Text → Text) (env : Option Text) (e : ℕ) (q : Request) (s : Store)
    → is_foreign e s.users q ≡ true
    → Leaves e s (serve hmac env q s).1
unfolding serve create_api_key revoke_api_key
serve-Leaves hmac env e (create_it i raw u d label) s h =
    elim (Bool-cases (belongs d (get_by_id u s.users))) [
      | inl p ↦
          rw p (created-Leaves e i raw label _ s (other_enterprise d e (get_by_id u s.users) p h))
      | inr p ↦ rw p (refl, refl)
    ]
serve-Leaves hmac env e (revoke_it i u d) s h =
    elim (Bool-cases (belongs d (get_by_id u s.users))) [
      | inl p ↦ rw p (
          revoking-Leaves e i d (rows_of i d s.keys) s
            (other_enterprise d e (get_by_id u s.users) p h))
      | inr p ↦ rw p (refl, refl)
    ]

run-Leaves :
    (hmac : Text → Text → Text) (env : Option Text) (e : ℕ) (qs : List Request) (s : Store)
    → all_foreign e s.users qs ≡ true
    → Leaves e s (run hmac env qs s)
unfolding run
run-Leaves hmac env e [] s h = (refl, refl)
run-Leaves hmac env e (q ∷ qs) s h =
    let parts : (is_foreign e s.users q ≡ true) × (all_foreign e s.users qs ≡ true) =
      ground arith in
    let first = serve-Leaves hmac env e q s parts.0 in
    let rest = run-Leaves hmac env e qs (serve hmac env q s).1 (rw first.0 parts.1) in
    (rest.0 ∙ first.0, rest.1 ∙ first.1)

-- Creations and revocations that are all requested by users of other enterprises, or by users that are
-- not in the store, leave the keys of an enterprise as they were, active or not, in their order.
pub outsiders_change_nothing :
    (hmac : Text → Text → Text) (env : Option Text) (enterprise : ℕ) (qs : List Request) (s : Store)
    → all_foreign enterprise s.users qs ≡ true
    → list_by_enterprise enterprise (run hmac env qs s).keys ≡ list_by_enterprise enterprise s.keys
unfolding keys_of
outsiders_change_nothing hmac env enterprise qs s h = (run-Leaves hmac env enterprise qs s h).1

-- ===== src/Keys/Revoking.antt =====
-- Revoked API keys (backend/src/identity).
use cadencia_a2a_platform.Prelude.{
  ℕ, ◌≡◌, refl, ◌∙◌, inl, inr, Bool, true, false, not, ◌&&◌, Option, none, some, List, [], ◌∷◌,
  ◌++◌, arith, ◌==◌, Bool-cases, Option-cases,
}
use cadencia_a2a_platform.Prelude.Texts.{Text}
use cadencia_a2a_platform.Keys.Defs.{
  get_by_id, belongs, has_id, save, created_reply, create_api_key, is_row, rows_of, switch_off,
  revoking, revoke_api_key, get_by_hash, entry, enter, serve, run, ApiKey, Store, revoked, Entry,
  known, unauthorized, failed, Request, create_it, revoke_it,
}

-- The row exists, and no row of the key and enterprise is active.
unfoldable all_off : ℕ → ℕ → List ApiKey → Bool
all_off k e [] = true
all_off k e (r ∷ rs) = not (is_row k e r && r.is_active) && all_off k e rs

unfoldable IsShut : ℕ → ℕ → Store → Type 0
unfolding all_off has_id
IsShut k e s = (all_off k e s.keys ≡ true) × (has_id k s.keys ≡ true)

switch_off_shuts : (k e : ℕ) (rs : List ApiKey) → all_off k e (switch_off k e rs) ≡ true
unfolding switch_off all_off
switch_off_shuts k e [] = refl
switch_off_shuts k e (r ∷ rs) = ground (arith, switch_off_shuts k e rs)

all_off-switch_off :
    (k e i d : ℕ) (rs : List ApiKey)
    → all_off k e rs ≡ true
    → all_off k e (switch_off i d rs) ≡ true
unfolding switch_off all_off
all_off-switch_off k e i d [] h = refl
all_off-switch_off k e i d (r ∷ rs) h = ground (arith, all_off-switch_off k e i d rs)

has_id-switch_off : (k i d : ℕ) (rs : List ApiKey) → has_id k (switch_off i d rs) ≡ has_id k rs
unfolding switch_off has_id
has_id-switch_off k i d [] = refl
has_id-switch_off k i d (r ∷ rs) = ground (arith, has_id-switch_off k i d rs)

has_id-rows_of :
    (k e : ℕ) (r : ApiKey) (rs ts : List ApiKey) → rows_of k e rs ≡ r ∷ ts → has_id k rs ≡ true
unfolding rows_of has_id
has_id-rows_of k e r [] ts h = absurd (cc)
has_id-rows_of k e r (x ∷ rs) ts h = ground (arith, has_id-rows_of k e r rs ts)

fresh_id :
    (k i : ℕ) (rs : List ApiKey) → has_id k rs ≡ true → has_id i rs ≡ false → (i == k) ≡ false
unfolding has_id
fresh_id k i [] p q = absurd (cc)
fresh_id k i (x ∷ rs) p q = ground (arith, fresh_id k i rs)

all_off_snoc :
    (k e : ℕ) (r : ApiKey) (rs : List ApiKey)
    → all_off k e rs ≡ true
    → (r.id == k) ≡ false
    → all_off k e (rs ++ r ∷ []) ≡ true
unfolding all_off
all_off_snoc k e r [] h q = ground arith
all_off_snoc k e r (x ∷ rs) h q = ground (arith, all_off_snoc k e r rs)

has_id_snoc :
    (k : ℕ) (r : ApiKey) (rs : List ApiKey) → has_id k rs ≡ true → has_id k (rs ++ r ∷ []) ≡ true
unfolding has_id
has_id_snoc k r [] p = absurd (cc)
has_id_snoc k r (x ∷ rs) p = ground (arith, has_id_snoc k r rs)

-- A row is saved under a new id, after the others.
save_appends :
    (r : ApiKey) (s t : Store)
    → save r s ≡ some t
    → (has_id r.id s.keys ≡ false) × (s.keys ++ r ∷ [] ≡ t.keys)
unfolding save
save_appends r s t p = ground arith

save-IsShut : (k e : ℕ) (r : ApiKey) (s t : Store) → IsShut k e s → save r s ≡ some t → IsShut k e t
unfolding IsShut
save-IsShut k e r s t h p =
    let a = save_appends r s t p in
    let eq = a.1 in
    (
      rw (← eq) (all_off_snoc k e r s.keys h.0 (fresh_id k r.id s.keys h.1 a.0)),
      rw (← eq) (has_id_snoc k r s.keys h.1),
    )

created-IsShut :
    (k e i : ℕ) (raw : Text) (label : Option Text) (r : ApiKey) (s : Store)
    → IsShut k e s
    → IsShut k e (created_reply i raw label s (save r s)).1
unfolding IsShut
created-IsShut k e i raw label r s h = elim (Option-cases (save r s)) [
  | inl p ↦ rw p h
  | inr (t, p) ↦ rw p (save-IsShut k e r s t h p)
]

revoking-IsShut :
    (k e i d : ℕ) (rs : List ApiKey) (s : Store) → IsShut k e s → IsShut k e (revoking i d rs s).1
unfolding IsShut
revoking-IsShut k e i d [] s h = h
revoking-IsShut k e i d (r ∷ []) s h =
    (all_off-switch_off k e i d s.keys h.0, has_id-switch_off k i d s.keys ∙ h.1)
revoking-IsShut k e i d (r ∷ t ∷ rs) s h = h

revoke-IsShut : (k e i u d : ℕ) (s : Store) → IsShut k e s → IsShut k e (revoke_api_key i u d s).1
unfolding revoke_api_key
revoke-IsShut k e i u d s h = elim (Bool-cases (belongs d (get_by_id u s.users))) [
  | inl p ↦ rw p (revoking-IsShut k e i d (rows_of i d s.keys) s h)
  | inr p ↦ rw p h
]

create-IsShut :
    (hmac : Text → Text → Text) (env : Option Text) (k e i : ℕ) (raw : Text) (u d : ℕ)
    (label : Option Text) (s : Store)
    → IsShut k e s
    → IsShut k e (create_api_key hmac env i raw u d label s).1
unfolding create_api_key
create-IsShut hmac env k e i raw u d label s h =
    elim (Bool-cases (belongs d (get_by_id u s.users))) [
      | inl p ↦ rw p (created-IsShut k e i raw label _ s h)
      | inr p ↦ rw p h
    ]

run-IsShut :
    (hmac : Text → Text → Text) (env : Option Text) (k e : ℕ) (qs : List Request) (s : Store)
    → IsShut k e s
    → IsShut k e (run hmac env qs s)
unfolding run serve
run-IsShut hmac env k e [] s h = h
run-IsShut hmac env k e (create_it i raw u d label ∷ qs) s h =
    run-IsShut hmac env k e qs _ (create-IsShut hmac env k e i raw u d label s h)
run-IsShut hmac env k e (revoke_it i u d ∷ qs) s h =
    run-IsShut hmac env k e qs _ (revoke-IsShut k e i u d s h)

rows-IsShut :
    (k e : ℕ) (rs : List ApiKey) (s : Store)
    → rows_of k e s.keys ≡ rs
    → (revoking k e rs s).0 ≡ revoked
    → IsShut k e (revoking k e rs s).1
unfolding IsShut
rows-IsShut k e [] s p h = absurd (cc)
rows-IsShut k e (r ∷ []) s p h =
    (switch_off_shuts k e s.keys, has_id-switch_off k k e s.keys ∙ has_id-rows_of k e r s.keys [] p)
rows-IsShut k e (r ∷ t ∷ rs) s p h = absurd (cc)

revoked-IsShut :
    (k u e : ℕ) (s : Store)
    → (revoke_api_key k u e s).0 ≡ revoked
    → IsShut k e (revoke_api_key k u e s).1
unfolding revoke_api_key
revoked-IsShut k u e s h = elim (Bool-cases (belongs e (get_by_id u s.users))) [
  | inl p ↦ rw p (rows-IsShut k e (rows_of k e s.keys) s refl (rw p at h))
  | inr p ↦ absurd (cc (rw p at h))
]

-- Whether a request got in with the key of the enterprise.
abbrev pub is_let_in : ℕ → ℕ → Entry → Bool
is_let_in k e (known i d name) = (i == k) && (d == e)
is_let_in k e unauthorized = false
is_let_in k e failed = false

unfoldable others_only : ℕ → ℕ → List ApiKey → Bool
others_only k e [] = true
others_only k e (r ∷ rs) = not (is_row k e r) && others_only k e rs

others_found :
    (k e : ℕ) (hash : Text) (rs : List ApiKey)
    → all_off k e rs ≡ true
    → others_only k e (get_by_hash hash rs) ≡ true
unfolding all_off others_only get_by_hash
others_found k e hash [] h = refl
others_found k e hash (r ∷ rs) h = ground (arith, others_found k e hash rs)

others_enter :
    (k e : ℕ) (rs : List ApiKey) → others_only k e rs ≡ true → is_let_in k e (entry rs) ≡ false
unfolding others_only
others_enter k e [] h = refl
others_enter k e (r ∷ []) h = ground arith
others_enter k e (r ∷ t ∷ rs) h = refl

enter_shut :
    (hmac : Text → Text → Text) (env header : Option Text) (k e : ℕ) (s : Store)
    → IsShut k e s
    → is_let_in k e (enter hmac env header s) ≡ false
unfolding enter IsShut
enter_shut hmac env none k e s h = refl
enter_shut hmac env (some []) k e s h = refl
enter_shut hmac env (some (c ∷ raw)) k e s h = others_enter k e _ (others_found k e _ s.keys h.0)

-- Once `revoke_api_key` of a key of an enterprise has returned, no request gets in with that key of
-- that enterprise, whatever its header, after any creations and revocations of keys that follow.
pub key_stays_revoked :
    (hmac : Text → Text → Text) (env header : Option Text) (key user enterprise : ℕ)
    (later : List Request) (s : Store)
    → (revoke_api_key key user enterprise s).0 ≡ revoked
    → is_let_in key enterprise
        (enter hmac env header (run hmac env later (revoke_api_key key user enterprise s).1))
      ≡ false
key_stays_revoked hmac env header k u e later s h =
    enter_shut hmac env header k e _ (run-IsShut hmac env k e later _ (revoked-IsShut k u e s h))

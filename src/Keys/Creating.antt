-- ===== src/Keys/Creating.antt =====
-- Created API keys (backend/src/identity).
use cadencia_a2a_platform.Prelude.{
  ℕ, ◌≡◌, refl, ap, inl, inr, true, false, Option, some, List, [], ◌∷◌, ◌++◌, arith, Bool-cases,
  Option-cases,
}
use cadencia_a2a_platform.Prelude.Texts.{Text, text_eq_self}
use cadencia_a2a_platform.Keys.Defs.{
  get_by_id, belongs, name_of, has_hash, save, created_reply, create_api_key, get_by_hash, entry,
  enter, ApiKey, Store, created, known,
}

none_found : (hash : Text) (rs : List ApiKey) → has_hash hash rs ≡ false → get_by_hash hash rs ≡ []
unfolding has_hash get_by_hash
none_found hash [] h = refl
none_found hash (r ∷ rs) h = ground (arith, none_found hash rs)

last_found :
    (r : ApiKey) (rs : List ApiKey)
    → r.is_active ≡ true
    → has_hash r.key_hash rs ≡ false
    → get_by_hash r.key_hash (rs ++ r ∷ []) ≡ r ∷ []
unfolding has_hash get_by_hash
last_found r [] a h = rw (text_eq_self r.key_hash, a) refl
last_found r (x ∷ rs) a h = ground (arith, last_found r rs)

saved_found :
    (r : ApiKey) (s t : Store)
    → r.is_active ≡ true
    → save r s ≡ some t
    → get_by_hash r.key_hash t.keys ≡ r ∷ []
unfolding save
saved_found r s t a p =
    let b : (has_hash r.key_hash s.keys ≡ false) × (s.keys ++ r ∷ [] ≡ t.keys) = ground arith in
    rw (← b.1) (last_found r s.keys a b.0)

reply_enters :
    (i : ℕ) (raw : Text) (label : Option Text) (r : ApiKey) (s : Store)
    → r.is_active ≡ true
    → (created_reply i raw label s (save r s)).0 ≡ created i raw label
    → entry (get_by_hash r.key_hash (created_reply i raw label s (save r s)).1.keys)
      ≡ known r.id r.enterprise_id r.name
reply_enters i raw label r s a h = elim (Option-cases (save r s)) [
  | inl p ↦ absurd (cc (rw p at h))
  | inr (t, p) ↦ rw p (ap entry (saved_found r s t a p))
]

-- Where JWT_SECRET_KEY is set, the raw key that `create_api_key` returned, sent as the header, gets in
-- as the created key of the enterprise, with its label as the name.
pub created_key_enters :
    (hmac : Text → Text → Text) (secret : Text) (key c : ℕ) (raw : Text) (user enterprise : ℕ)
    (label : Option Text) (s : Store)
    → (create_api_key hmac (some secret) key (c ∷ raw) user enterprise label s).0
      ≡ created key (c ∷ raw) label
    → enter hmac
        (some secret)
        (some (c ∷ raw))
        (create_api_key hmac (some secret) key (c ∷ raw) user enterprise label s).1
      ≡ known key enterprise (name_of label)
unfolding create_api_key enter
created_key_enters hmac secret key c raw user enterprise label s h =
    elim (Bool-cases (belongs enterprise (get_by_id user s.users))) [
      | inl p ↦ rw p (reply_enters key (c ∷ raw) label _ s refl (rw p at h))
      | inr p ↦ absurd (cc (rw p at h))
    ]

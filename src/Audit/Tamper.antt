-- ===== src/Audit/Tamper.antt =====
-- What the verifier of backend/src/compliance/domain/audit_log.py tells of a changed log.
use cadencia_a2a_platform.Prelude.{
  ◌≡◌, refl, sym, ◌∙◌, ◌≢◌, ◌⊎◌, inl, inr, Bool, true, not, ◌&&◌, none, List, [], ◌∷◌, ◌++◌, arith,
  ◌==◌, length, All,
}
use cadencia_a2a_platform.Prelude.Texts.{Text, text_eq→eq, append_parts, text_eq-cases}
use cadencia_a2a_platform.Audit.Defs.{
  genesis_hash, content, verify_entry, verify_from, sort_entries, verify_chain, AuditEntry,
}
use cadencia_a2a_platform.Audit.Append.{final_hash}

-- Two texts with one digest.
abbrev pub Collision : (Text → Text) → Type 0
Collision sha256 = (a : Text) × (b : Text) × (a ≢ b) × (sha256 a ≡ sha256 b)

-- No separator in an event type; a previous hash of 64 characters.
abbrev pub bar_free : Text → Bool
bar_free [] = true
bar_free (c ∷ s) = not (c == b'|') && bar_free s

abbrev pub IsWellFormed : List AuditEntry → Type 0
IsWellFormed = All (λ (e : AuditEntry). (length e.prev_hash ≡ 64) × (bar_free e.event_type ≡ true))

-- The same hashes, types and payloads, entry by entry.
abbrev pub SameContent : List AuditEntry → List AuditEntry → Type 0
SameContent [] [] = Unit
SameContent [] (y ∷ ys) = ⊥
SameContent (x ∷ xs) [] = ⊥
SameContent (x ∷ xs) (y ∷ ys) =
    (x.prev_hash ≡ y.prev_hash)
    × (x.event_type ≡ y.event_type)
    × (x.payload_json ≡ y.payload_json)
    × (x.entry_hash ≡ y.entry_hash)
    × SameContent xs ys

split_bar :
    (a b c d : Text)
    → bar_free a ≡ true
    → bar_free b ≡ true
    → a ++ (b'|' ∷ c) ≡ b ++ (b'|' ∷ d)
    → (a ≡ b) × (c ≡ d)
split_bar [] [] c d p q h = (refl, cc)
split_bar [] (y ∷ b) c d p q h = absurd (ground arith)
split_bar (x ∷ a) [] c d p q h = absurd (ground arith)
split_bar (x ∷ a) (y ∷ b) c d p q h =
    let r = split_bar a b c d (ground arith) (ground arith) (cc) in (cc (r.0), r.1)

-- The content of an entry fixes its parts.
content_parts :
    (x y : AuditEntry)
    → length x.prev_hash ≡ length y.prev_hash
    → bar_free x.event_type ≡ true
    → bar_free y.event_type ≡ true
    → content x.prev_hash x.event_type x.payload_json
      ≡ content y.prev_hash y.event_type y.payload_json
    → (x.prev_hash ≡ y.prev_hash)
      × (x.event_type ≡ y.event_type)
      × (x.payload_json ≡ y.payload_json)
content_parts x y l p q h =
    let (e, rest) = append_parts x.prev_hash y.prev_hash _ _ l h in
    let (f, g) = split_bar x.event_type y.event_type x.payload_json y.payload_json p q (cc rest) in
    (e, f, g)

module _ (sha256 : Text → Text) where
  verify_from_head :
      (prev : Text) (e : AuditEntry) (es : List AuditEntry)
      → verify_from sha256 prev (e ∷ es) ≡ (true, none)
      → (e.entry_hash ≡ sha256 (content e.prev_hash e.event_type e.payload_json))
        × (e.prev_hash ≡ prev)
        × (verify_from sha256 e.entry_hash es ≡ (true, none))
  unfolding verify_from verify_entry
  verify_from_head prev e es h = ground (
    arith,
    text_eq→eq e.entry_hash (sha256 (content e.prev_hash e.event_type e.payload_json)),
    text_eq→eq e.prev_hash prev,
  )

  contents_bind :
      (x y : AuditEntry) (xs ys : List AuditEntry)
      → IsWellFormed (x ∷ xs)
      → IsWellFormed (y ∷ ys)
      → x.entry_hash ≡ sha256 (content x.prev_hash x.event_type x.payload_json)
      → y.entry_hash ≡ sha256 (content y.prev_hash y.event_type y.payload_json)
      → x.entry_hash ≡ y.entry_hash
      → SameContent xs ys
      → SameContent (x ∷ xs) (y ∷ ys) ⊎ Collision sha256
  contents_bind x y xs ys wx wy hx hy e same =
      elim (text_eq-cases (content x.prev_hash x.event_type x.payload_json)
        (content y.prev_hash y.event_type y.payload_json)) [
          | inl p ↦
              let (f, g, k) = content_parts x y (wx.0.0 ∙ sym wy.0.0) wx.0.1 wy.0.1 p in
              inl (f, g, k, e, same)
          | inr n ↦ inr (
            content x.prev_hash x.event_type x.payload_json,
            content y.prev_hash y.event_type y.payload_json,
            n,
            sym hx ∙ e ∙ hy,
          )
        ]

  verify_from_bind :
      (p q : Text) (xs ys : List AuditEntry)
      → length xs ≡ length ys
      → IsWellFormed xs
      → IsWellFormed ys
      → verify_from sha256 p xs ≡ (true, none)
      → verify_from sha256 q ys ≡ (true, none)
      → final_hash p xs ≡ final_hash q ys
      → ((p ≡ q) × SameContent xs ys) ⊎ Collision sha256
  verify_from_bind p q [] [] l wx wy hx hy e = inl (e, tt)
  verify_from_bind p q [] (y ∷ ys) l wx wy hx hy e = absurd (omega arith)
  verify_from_bind p q (x ∷ xs) [] l wx wy hx hy e = absurd (omega arith)
  verify_from_bind p q (x ∷ xs) (y ∷ ys) l wx wy hx hy e =
      let (hash_x, prev_x, rest_x) = verify_from_head p x xs hx in
      let (hash_y, prev_y, rest_y) = verify_from_head q y ys hy in
      elim (verify_from_bind x.entry_hash y.entry_hash xs ys (omega arith) wx.1 wy.1 rest_x rest_y
        e) [
          | inr c ↦ inr c
          | inl (same_hash, same) ↦
              elim (contents_bind x y xs ys wx wy hash_x hash_y same_hash same) [
                | inr c ↦ inr c
                | inl all ↦ inl (sym prev_x ∙ all.0 ∙ prev_y, all)
              ]
        ]

-- Two logs of one length that the verifier accepts and whose last hashes agree have the same hashes,
-- event types and payloads in every entry, or two different texts with one digest are at hand; their
-- event types have no separator in them, and their previous hashes 64 characters.
pub last_hash_binds :
    (sha256 : Text → Text) (xs ys : List AuditEntry)
    → length (sort_entries xs) ≡ length (sort_entries ys)
    → IsWellFormed (sort_entries xs)
    → IsWellFormed (sort_entries ys)
    → verify_chain sha256 xs ≡ (true, none)
    → verify_chain sha256 ys ≡ (true, none)
    → final_hash genesis_hash (sort_entries xs) ≡ final_hash genesis_hash (sort_entries ys)
    → SameContent (sort_entries xs) (sort_entries ys) ⊎ Collision sha256
unfolding verify_chain
last_hash_binds sha256 xs ys l wx wy hx hy e =
    elim (verify_from_bind sha256 genesis_hash genesis_hash (sort_entries xs) (sort_entries ys) l wx
      wy hx hy e) [ inl same ↦ inl same.1 | inr c ↦ inr c ]

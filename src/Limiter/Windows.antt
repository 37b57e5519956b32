-- ===== src/Limiter/Windows.antt =====
-- How many requests a window takes (backend/src/shared/infrastructure/rate_limiter.py).
use cadencia_a2a_platform.Prelude.{
  ℕ, ◌+◌, ◌*◌, ◌/◌, ◌%◌, ◌≤◌, ◌<◌, min, ◌≡◌, refl, inl, inr, Bool, true, false, ◌&&◌, Option, none,
  some, List, [], ◌∷◌, arith, leb, ◌==◌, ==_self, Bool-cases,
}
use cadencia_a2a_platform.Errors.{Result, ok, err}
use cadencia_a2a_platform.Limiter.Defs.{
  Redis, bucket_of, incremented, expiring, check_rate_limit, Counter,
}
use native.Mathlib.Nat.{mod-add-div, mod-lt}
use native.Mathlib.Nat.{mod-add-div, mod-lt}

-- A request of an enterprise at a time.
abbrev pub Request : Type 0
Request = ℕ × ℕ

abbrev pub is_of : ℕ → ℕ → ℕ → Request → Bool
is_of window id bucket (id', now) = (id == id') && (bucket == bucket_of window now)

abbrev pub one_if : Bool → ℕ
one_if true = 1
one_if false = 0

abbrev pub is_ok : Result (Unit {0}) → Bool
is_ok (ok u) = true
is_ok (err x) = false

-- How many requests of one enterprise in one bucket are made, and how many of them are let through.
unfoldable pub made : ℕ → ℕ → ℕ → List Request → ℕ
made window id bucket [] = 0
made window id bucket (q ∷ qs) = one_if (is_of window id bucket q) + made window id bucket qs

unfoldable pub accepted : ℕ → ℕ → ℕ → ℕ → List Request → Redis → ℕ
accepted limit window id bucket [] r = 0
accepted limit window id bucket (q ∷ qs) r =
    let (answer, r') = check_rate_limit limit window q.0 q.1 r in
    one_if (is_of window id bucket q && is_ok answer) + accepted limit window id bucket qs r'

abbrev Lives : ℕ → Option ℕ → Type 0
Lives end none = Unit
Lives end (some at) = end ≤ at

-- The counter of a bucket shows `c` and lives to the end of the bucket.
abbrev Shows : ℕ → ℕ → Option Counter → Type 0
Shows end c none = c ≡ 0
Shows end c (some k) = (k.count ≡ c) × (0 < c) × Lives end k.expires_at

abbrev end_of : ℕ → ℕ → ℕ
end_of window bucket = (bucket + 1) * (window * 1_000)

bucket-IsAround :
    (window now : ℕ)
    → 0 < window
    → (bucket_of window now * (window * 1_000) ≤ now) × (now < end_of window (bucket_of window now))
bucket-IsAround window now h =
    let w = window * 1_000 in
    let p : 0 < w = omega arith in
    let parts : now % w + w * (now / w) ≡ now = mod-add-div now w in
    let left : now % w < w = mod-lt now p in
    let up : (now / w + 1) * w ≡ w * (now / w) + w = omega arith in
    let turn : now / w * w ≡ w * (now / w) = omega arith in
    (omega (arith, parts, turn), omega (arith, parts, left, up))

counts_some :
    (window now end c : ℕ) (k : Counter) (at : Option ℕ)
    → k.expires_at ≡ at
    → end ≤ now + (window + 1) * 1_000
    → now < end
    → Shows end c (some k)
    → Shows end (c + 1) (some (expiring window now (incremented now (some k))))
counts_some window now end c k none e p q h = ground arith
counts_some window now end c k (some at) e p q h = ground arith

-- A request in the bucket counts one more, and the new counter lives to the end of the bucket.
counts_on :
    (window now end c : ℕ) (k : Option Counter)
    → end ≤ now + (window + 1) * 1_000
    → now < end
    → Shows end c k
    → Shows end (c + 1) (some (expiring window now (incremented now k)))
counts_on window now end c none p q h = ground arith
counts_on window now end c (some k) p q h = counts_some window now end c k k.expires_at refl p q h

expiry_reaches :
    (window now : ℕ)
    → 0 < window
    → end_of window (bucket_of window now) ≤ now + (window + 1) * 1_000
expiry_reaches window now h =
    let b = bucket_of window now in
    let w = window * 1_000 in
    let up : (b + 1) * w ≡ b * w + w = omega arith in
    omega (arith, (bucket-IsAround window now h).0, up)

-- What one request does to a counter, in its bucket and out of it.
in_bucket :
    (limit window id now c : ℕ) (r : Redis)
    → 0 < window
    → Shows (end_of window (bucket_of window now)) c (r id (bucket_of window now))
    → Shows
        (end_of window (bucket_of window now))
        (c + 1)
        ((check_rate_limit limit window id now r).1 id (bucket_of window now))
unfolding check_rate_limit
in_bucket limit window id now c r p h =
    let b = bucket_of window now in
    let next =
      counts_on window now (end_of window b) c (r id b) (expiry_reaches window now p)
        (bucket-IsAround window now p).1 h in
    rw (==_self id, ==_self b) next

out_of_bucket :
    (limit window id bucket id' now c : ℕ) (r : Redis)
    → (id == id') && (bucket == bucket_of window now) ≡ false
    → (check_rate_limit limit window id' now r).1 id bucket ≡ r id bucket
unfolding check_rate_limit
out_of_bucket limit window id bucket id' now c r h = rw h refl

answer_of :
    (limit window id now c end : ℕ) (r : Redis)
    → Shows end (c + 1) (some (expiring window now (incremented now (r id (bucket_of window now)))))
    → is_ok (check_rate_limit limit window id now r).0 ≡ leb (c + 1) limit
unfolding check_rate_limit
answer_of limit window id now c end r h = ground arith

same_key : (id id' bucket b : ℕ) → (id == id') && (bucket == b) ≡ true → (id ≡ id') × (bucket ≡ b)
same_key id id' bucket b h = ground arith

counted_one :
    (limit c m y : ℕ) (b : Bool)
    → b ≡ leb (c + 1) limit
    → y + min (c + 1) limit ≡ min ((c + 1) + m) limit
    → (one_if (true && b) + y) + min c limit ≡ min (c + (1 + m)) limit
counted_one limit c m y b h k = ground arith

-- The requests of one enterprise in one bucket, from a counter of that bucket that shows `c`.
counted :
    (limit window id bucket c : ℕ) (qs : List Request) (r : Redis)
    → 0 < window
    → Shows (end_of window bucket) c (r id bucket)
    → accepted limit window id bucket qs r + min c limit ≡ min (c + made window id bucket qs) limit
unfolding accepted made
counted limit window id bucket c [] r p h = ground arith
counted limit window id bucket c ((id', now) ∷ qs) r p h =
    elim (Bool-cases ((id == id') && (bucket == bucket_of window now))) [
      | inl e ↦
          let k = same_key id id' bucket (bucket_of window now) e in
          let h' : Shows (end_of window (bucket_of window now)) c (r id' (bucket_of window now)) =
            rw (k.0, k.1) at h in
          let next : Shows (end_of window bucket) (c + 1)
              ((check_rate_limit limit window id' now r).1 id bucket) =
            rw (k.0, k.1) (in_bucket limit window id' now c r p h') in
          let answer = answer_of limit window id' now c (end_of window (bucket_of window now)) r (
            counts_on window now (end_of window (bucket_of window now)) c
              (r id' (bucket_of window now)) (expiry_reaches window now p)
              (bucket-IsAround window now p).1 h') in
          rw e (
            counted_one limit c (made window id bucket qs)
              (accepted limit window id bucket qs (check_rate_limit limit window id' now r).1)
              (is_ok (check_rate_limit limit window id' now r).0) answer
              (counted limit window id bucket (c + 1) qs (check_rate_limit limit window id' now r).1
                p next))
      | inr e ↦
          let ih =
            counted limit window id bucket c qs (check_rate_limit limit window id' now r).1 p
              (rw (out_of_bucket limit window id bucket id' now c r e) h) in
          rw e (omega (arith, ih))
    ]

-- Of the requests that an enterprise makes in one window of the clock, with no counter there before, the
-- limiter lets exactly `limit` through, or all where there are fewer, whatever requests of other
-- enterprises and in other windows come in between.
pub window_accepts :
    (limit window id bucket : ℕ) (qs : List Request) (r : Redis)
    → 0 < window
    → r id bucket ≡ none
    → accepted limit window id bucket qs r ≡ min (made window id bucket qs) limit
window_accepts limit window id bucket qs r p h =
    omega (arith, counted limit window id bucket 0 qs r p (rw h refl))

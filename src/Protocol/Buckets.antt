-- ===== src/Protocol/Buckets.antt =====
-- The padding buckets of src/protocol.rs: powers of two from 512 to 2 MiB.
use native.Mathlib.Nat.{pow-suc, pow-le-pow_right}
use article.Base.{
  ℕ, zero, suc, ◌+◌, ◌*◌, ◌/◌, ◌%◌, ◌^◌, ◌≤◌, ◌<◌, ◌≡◌, ◌↔◌, refl, true, none, some, inl, inr,
  arith, ltb, ◌==◌, ◌&&◌, Bool-cases,
}
use article.Protocol.{
  grow, power_of_two, valid_blob_len, padded_blob_len, max_body_len, max_blob_len, min_blob_len,
  internal_fixed_len, outer_overhead, checked_mul,
}

-- The sizes that the protocol allows for an outer blob.
pub record IsBucket (n : ℕ) : Type 0 where
  pub exponent : ℕ
  pub power : n ≡ 2 ^ exponent
  pub at_least : min_blob_len ≤ n
  pub at_most : n ≤ max_blob_len

pow_pos : (k : ℕ) → 0 < 2 ^ k
pow_pos zero = omega arith
pow_pos (suc k) = rw pow-suc (omega (arith, pow_pos k))

pow_mono_lt : (k j : ℕ) → 2 ^ k < 2 ^ j → 2 * 2 ^ k ≤ 2 ^ j
pow_mono_lt zero zero h = absurd (omega arith)
pow_mono_lt zero (suc j) h = rw pow-suc (omega (arith, pow_pos j))
pow_mono_lt (suc k) zero h = absurd (omega (arith, pow_pos k, pow-suc 2 k))
pow_mono_lt (suc k) (suc j) h =
    omega
      (arith, pow_mono_lt k j (omega (arith, pow-suc 2 k, pow-suc 2 j)), pow-suc 2 k, pow-suc 2 j)

power_of_two_sound : (fuel n : ℕ) → power_of_two fuel n ≡ true → (k : ℕ) × (n ≡ 2 ^ k)
unfolding power_of_two
power_of_two_sound zero n h = cc
power_of_two_sound (suc fuel) n h = elim (Bool-cases (n % 2 == 0 && ltb 0 n)) [
  | inl e ↦
      let (k, p) = power_of_two_sound fuel (n / 2) (rw (e, power_of_two) at h) in
      (suc k, rw pow-suc (ground (arith, p)))
  | inr e ↦ (zero, ground arith)
]

power_of_two_complete : (fuel k : ℕ) → k < fuel → power_of_two fuel (2 ^ k) ≡ true
unfolding power_of_two
power_of_two_complete zero k h = absurd (omega arith)
power_of_two_complete (suc fuel) zero h = refl
power_of_two_complete (suc fuel) (suc k) h =
    let pos = pow_pos k in
    let half : 2 ^ suc k / 2 ≡ 2 ^ k = rw pow-suc (omega arith) in
    let even : (2 ^ suc k % 2 == 0 && ltb 0 (2 ^ suc k)) ≡ true = rw pow-suc (ground arith) in
    rw (even, power_of_two) (rw half (power_of_two_complete fuel k (omega arith)))

exponent_bound : (k : ℕ) → 2 ^ k ≤ max_blob_len → k < 22
exponent_bound k h = elim (Bool-cases (ltb k 22)) [
  | inl e ↦ ground arith
  | inr e ↦
      absurd (omega (arith, pow-le-pow_right {n = 2} (omega arith) {i = 22} {j = k} (ground arith)))
]

-- `valid_blob_len` accepts exactly the powers of two from 512 to 2 MiB.
pub valid_blob_len_iff : (n : ℕ) → (valid_blob_len n ≡ true) ↔ IsBucket n
unfolding valid_blob_len
valid_blob_len_iff n = (
  λ h.
      let (k, p) = power_of_two_sound 64 n (ground arith) in
      record { exponent = k; power = p; at_least = ground arith; at_most = ground arith },
  λ b.
      let small = exponent_bound b.exponent (rw (← b.power) b.at_most) in
      let pow : power_of_two 64 n ≡ true =
        rw b.power (power_of_two_complete 64 b.exponent (omega arith)) in
      let h = b.at_least in let k = b.at_most in ground arith,
)

-- What the loop of `padded_blob_len` ends with.
record Grown (required bucket result : ℕ) : Type 0 where
  exponent : ℕ
  power : result ≡ 2 ^ exponent
  above : bucket ≤ result
  enough : required ≤ result
  within : result ≤ max_blob_len
  least : (m i : ℕ) → m ≡ 2 ^ i → bucket ≤ m → required ≤ m → result ≤ m

grow_lem :
    (fuel k bucket required : ℕ)
    → bucket ≡ 2 ^ k
    → bucket ≤ max_blob_len
    → required ≤ max_blob_len
    → 22 ≤ k + fuel
    → (b : ℕ) × (grow fuel bucket required ≡ some b) × Grown required bucket b
unfolding grow
grow_lem zero k bucket required e h r f = absurd (omega (arith, exponent_bound k (rw (← e) h)))
grow_lem (suc fuel) k bucket required e h r f = elim (Bool-cases (ltb bucket required)) [
  | inl t ↦
      let below : bucket < required = ground arith in
      let double : bucket * 2 ≤ max_blob_len =
        omega (arith, pow_mono_lt k 21 (rw (← e) (omega arith)), e) in
      let mul : checked_mul bucket 2 ≡ some (bucket * 2) = ground arith in
      let (b, p, g) =
        grow_lem fuel (suc k) (bucket * 2) required (rw (e, pow-suc)) double r (omega arith) in
      (
        b,
        rw (t, grow) (rw (mul, grow) p),
        record {
          exponent = g.exponent;
          power = g.power;
          above = omega (arith, g.above);
          enough = g.enough;
          within = g.within;
          least = λ m i q lo hi.
              g.least m i q (omega (arith, pow_mono_lt k i (rw (← e, ← q) (omega arith)), e, q)) hi;
        },
      )
  | inr t ↦ (
    bucket,
    rw (t, grow),
    record {
      exponent = k;
      power = e;
      above = omega arith;
      enough = ground arith;
      within = h;
      least = λ m i q lo hi. lo;
    },
  )
]

-- For every body within the limit `padded_blob_len` returns the least allowed size that holds the
-- outer overhead, the fixed fields and the body.
pub padded_blob_len-least :
    (body_len : ℕ)
    → body_len ≤ max_body_len
    → (bucket : ℕ) × (padded_blob_len body_len ≡ some bucket)
      × (valid_blob_len bucket ≡ true)
      × (outer_overhead + internal_fixed_len + body_len ≤ bucket)
      × ((m : ℕ)
          → valid_blob_len m ≡ true
          → outer_overhead + internal_fixed_len + body_len ≤ m
          → bucket ≤ m)
unfolding padded_blob_len
padded_blob_len-least body_len h =
    let required = internal_fixed_len + body_len + outer_overhead in
    let (b, p, g) = grow_lem 64 9 512 required refl (omega arith) (omega arith) (omega arith) in
    let enough = g.enough in
    let within = g.within in
    (
      b,
      ground arith,
      (valid_blob_len_iff b).1 (record {
        exponent = g.exponent;
        power = g.power;
        at_least = g.above;
        at_most = g.within;
      }),
      omega arith,
      λ m v q.
          let bucket = (valid_blob_len_iff m).0 v in
          g.least m bucket.exponent bucket.power bucket.at_least (omega arith),
    )

-- A body over the limit has no size.
pub padded_blob_len-none :
    (body_len : ℕ) → max_body_len < body_len → padded_blob_len body_len ≡ none
unfolding padded_blob_len
padded_blob_len-none body_len h = ground arith

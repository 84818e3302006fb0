-- ===== src/Common/Uuid7/Order.antt =====
-- The fixed bits of a UUIDv7 and its order in time.
use be_py_eco.Prelude.{
  ℕ, zero, suc, ◌*◌, ◌/◌, ◌%◌, ◌^◌, ◌<◌, ◌≡◌, refl, inl, inr, Bool, true, false, ◌&&◌, ◌||◌, some,
  List, [], ◌∷◌, ◌++◌, arith, ltb, ◌==◌, ==_iff, Bool-cases,
}
use be_py_eco.Common.Uuid7.{to_bytes, set_version, set_variant, RandomBytes, uuid7_bytes}

all_below : ℕ → (ℕ → Bool) → Bool
all_below zero p = true
all_below (suc n) p = p n && all_below n p

all_below-holds : (n : ℕ) (p : ℕ → Bool) (b : ℕ) → all_below n p ≡ true → b < n → p b ≡ true
unfolding all_below
all_below-holds zero p b h l = absurd (ground arith)
all_below-holds (suc n) p b h l = elim (Bool-cases (b == n)) [
  | inl e ↦ rw ((==_iff b n).0 e) (ground arith)
  | inr d ↦ all_below-holds n p b (ground arith) (ground arith)
]

set_version-checked : all_below 256 (λ b. set_version b / 16 == 7) ≡ true
unfolding all_below set_version
set_version-checked = refl

set_variant-checked : all_below 256 (λ b. set_variant b / 64 == 2) ≡ true
unfolding all_below set_variant
set_variant-checked = refl

-- Whatever the random bytes are, the high nibble of byte 6 is 7, and the two high bits of byte 8
-- are 10.
uuid7_version_and_variant : (b : ℕ) → b < 256 → (set_version b / 16 ≡ 7) × (set_variant b / 64 ≡ 2)
uuid7_version_and_variant b l = (
  (==_iff _ 7).0 (all_below-holds 256 (λ b. set_version b / 16 == 7) b set_version-checked l),
  (==_iff _ 2).0 (all_below-holds 256 (λ b. set_variant b / 64 == 2) b set_variant-checked l),
)

-- the order of byte strings
pub earlier_bytes : List ℕ → List ℕ → Bool
earlier_bytes [] ys = false
earlier_bytes (x ∷ xs) [] = false
earlier_bytes (x ∷ xs) (y ∷ ys) = ltb x y || (x == y && earlier_bytes xs ys)

earlier-append :
    (xs ys us vs : List ℕ) → earlier_bytes xs ys ≡ true → earlier_bytes (xs ++ us) (ys ++ vs) ≡ true
unfolding earlier_bytes
earlier-append [] ys us vs h = absurd (ground arith)
earlier-append (x ∷ xs) [] us vs h = absurd (ground arith)
earlier-append (x ∷ xs) (y ∷ ys) us vs h = ground (arith, earlier-append xs ys us vs)

earlier-prefix :
    (xs us vs : List ℕ) → earlier_bytes us vs ≡ true → earlier_bytes (xs ++ us) (xs ++ vs) ≡ true
unfolding earlier_bytes
earlier-prefix [] us vs h = h
earlier-prefix (x ∷ xs) us vs h = ground (arith, earlier-prefix xs us vs h)

-- 256 to the power of `k`
bound : ℕ → ℕ
bound zero = 1
bound (suc k) = 256 * bound k

to_bytes-earlier :
    (k m n : ℕ) → m < n → n < bound k → earlier_bytes (to_bytes k m) (to_bytes k n) ≡ true
unfolding bound
to_bytes-earlier zero m n l h = absurd (ground arith)
to_bytes-earlier (suc k) m n l h = elim (Bool-cases (ltb (m / 256) (n / 256))) [
  | inl less ↦
      earlier-append (to_bytes k (m / 256)) (to_bytes k (n / 256)) _ _
        (to_bytes-earlier k (m / 256) (n / 256) (ground arith) (omega arith))
  | inr same ↦
      let e : m / 256 ≡ n / 256 = ground arith in
      let l' : m % 256 < n % 256 = omega arith in
      rw e (earlier-prefix (to_bytes k (n / 256)) _ _ (unfold earlier_bytes in ground arith))
]

uuid7_bytes-some :
    (m : ℕ) (r : RandomBytes) (us : List ℕ)
    → uuid7_bytes m r ≡ some us
    → (m < 2 ^ 48) × (us ≡ to_bytes 6 m ++ (set_version r.r0 ∷ r.r1 ∷ set_variant r.r2 ∷ r.tail))
unfolding uuid7_bytes
uuid7_bytes-some m r us e = ground arith

-- A UUID of a later millisecond is a later byte string, whatever the random bytes are.
pub uuid7_time_order :
    (m n : ℕ) (r s : RandomBytes) (us vs : List ℕ)
    → m < n
    → uuid7_bytes m r ≡ some us
    → uuid7_bytes n s ≡ some vs
    → earlier_bytes us vs ≡ true
unfolding bound
uuid7_time_order m n r s us vs l e f =
    let a = uuid7_bytes-some m r us e in
    let b = uuid7_bytes-some n s vs f in
    rw (a.1, b.1) (earlier-append (to_bytes 6 m) (to_bytes 6 n) _ _ (to_bytes-earlier 6 m n l b.0))

-- ===== src/Base/Powers.antt =====
-- Powers of two and alignment to them.
use Prim.Native.Nat.{ℕ, zero, suc, ◌+◌, ◌-◌, ◌*◌, ◌/◌, ◌%◌, ◌^◌, ◌≤◌, ◌<◌}
use mathlib.Core.Path.{◌≡◌, ◌∙◌, sym, ap}
use mathlib.Core.Logic.{◌≢◌}
use native.Mathlib.Nat.{
  pow-suc, mod-add-div, mul-mod_right, mod-lt, mul-add-mod_self_left, add-mod_right, mod-eq_of_lt,
  mod-eq-sub-mod,
}
use native.Mathlib.Decide.{dec_lt}
use native.Mathlib.Omega.{arith}

pub pow2-suc : (k : ℕ) → 2 ^ suc k ≡ 2 * 2 ^ k
pow2-suc k = omega (arith, pow-suc 2 k)

pub pow2-pos : (k : ℕ) → 0 < 2 ^ k
pow2-pos zero = omega arith
pow2-pos (suc k) = omega (arith, pow2-suc k, pow2-pos k)

double_half : (a m : ℕ) → a ≡ 2 * m * (a / (2 * m)) + a % (2 * m)
double_half a m = omega (arith, mod-add-div a (2 * m))

-- What is aligned to a double block is aligned to its halves.
pub aligned_half : (a m : ℕ) → a % (2 * m) ≡ 0 → a % m ≡ 0
aligned_half a m h =
    let e : a ≡ m * (2 * (a / (2 * m))) = grind (arith, double_half a m) in
    let k : m * (2 * (a / (2 * m))) % m ≡ 0 = mul-mod_right m _ in ap (λ t. t % m) e ∙ k

pub aligned_right : (a m : ℕ) → a % m ≡ 0 → (a + m) % m ≡ 0
aligned_right a m h = add-mod_right a m ∙ h

mod_half : (r m : ℕ) → r < 2 * m → r % m ≡ 0 → r ≢ 0 → r ≡ m
mod_half r m lt h ne = elim (dec_lt r m) [
  | yes small ↦ absurd (ne (sym (mod-eq_of_lt small) ∙ h))
  | no big ↦
      let le : m ≤ r = omega arith in
      let below : r - m < m = omega arith in
      let rest : r - m ≡ 0 = sym (mod-eq_of_lt below) ∙ sym (mod-eq-sub-mod le) ∙ h in
      omega (arith, rest)
]

-- What is aligned, but not to the double block, is a right half.
pub aligned_left :
    (a m : ℕ) → 0 < m → a % m ≡ 0 → a % (2 * m) ≢ 0 → (m ≤ a) × ((a - m) % (2 * m) ≡ 0)
aligned_left a m pos h ne = (omega (arith, odd), rw start (mul-mod_right (2 * m) _))
  where
    q : ℕ
    q = a / (2 * m)

    rest_aligned : a % (2 * m) % m ≡ 0
    rest_aligned =
        sym (mul-add-mod_self_left m (2 * q) (a % (2 * m)))
        ∙ ap (λ t. t % m)
            (let e : m * (2 * q) + a % (2 * m) ≡ a = omega (arith, double_half a m) in e)
        ∙ h

    rest_half : a % (2 * m) ≡ m
    rest_half = mod_half _ m (mod-lt a (omega arith)) rest_aligned ne

    odd : a ≡ 2 * m * q + m
    odd = omega (arith, double_half a m, rest_half)

    start : a - m ≡ 2 * m * q
    start = omega (arith, odd)

pub aligned_double_left : (a m : ℕ) → 0 < m → a % (2 * m) ≡ 0 → (a + m) % (2 * m) ≡ m
aligned_double_left a m pos h =
    let q = a / (2 * m) in
    let e : a + m ≡ 2 * m * q + m = omega (arith, double_half a m) in
    let small : m < 2 * m = omega arith in
    ap (λ t. t % (2 * m)) e ∙ mul-add-mod_self_left (2 * m) q m ∙ mod-eq_of_lt small

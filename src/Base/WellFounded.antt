-- ===== src/Base/WellFounded.antt =====
-- `<` on the native numbers is well founded, and powers of two.
use Prim.Native.Nat.{ℕ, zero, suc, ◌+◌, ◌*◌, ◌^◌, ◌≤◌, ◌<◌}
use mathlib.Core.Path.{◌≡◌, ap}
use mathlib.Core.WellFounded.{Acc, WellFounded}
use native.Mathlib.Nat.{pow-suc}
use native.Mathlib.Omega.{arith}

Acc-below : (k n : ℕ) → n < k → Acc ◌<◌ n
Acc-below zero n h = elim h [ ]
Acc-below (suc k) n h = Acc.intro n (λ m hm. Acc-below k m (omega arith))

unfoldable pub lt_wf : WellFounded ◌<◌
unfolding Acc-below
lt_wf = record { apply = λ n. Acc-below (suc n) n (omega arith) }

pub pow_two_suc : (k : ℕ) → 2 ^ suc k ≡ 2 * 2 ^ k
pow_two_suc k = omega (arith, pow-suc 2 k)

pub pow_two_pos : (k : ℕ) → 1 ≤ 2 ^ k
pow_two_pos zero = omega arith
pow_two_pos (suc k) = omega (arith, pow_two_suc k, pow_two_pos k)

pub pow_two_add : (m n : ℕ) → 2 ^ (m + n) ≡ 2 ^ m * 2 ^ n
pow_two_add zero n = let e : zero + n ≡ n = omega arith in rw e (omega arith)
pow_two_add (suc m) n =
    let e : suc m + n ≡ suc (m + n) = omega arith in
    rw e (
      omega
        (arith, pow_two_suc (m + n), ap (λ (t : ℕ). t * 2 ^ n) (pow_two_suc m), pow_two_add m n))

pub pow_two_mono : (m n : ℕ) → m ≤ n → 2 ^ m ≤ 2 ^ n
pow_two_mono zero n h = pow_two_pos n
pow_two_mono (suc m) zero h = absurd (omega arith)
pow_two_mono (suc m) (suc n) h =
    omega (arith, pow_two_suc m, pow_two_suc n, pow_two_mono m n (omega arith))

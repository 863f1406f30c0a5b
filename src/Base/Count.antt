-- ===== src/Base/Count.antt =====
-- How often a number stands in a list, and what an assignment or a cut does to that.
use Prim.Native.Nat.{ℕ, zero, suc, ◌+◌, ◌<◌, ◌≤◌}
use mathlib.Core.Path.{◌≡◌, refl, ap}
use mathlib.Core.List.{List, [], ◌∷◌, ◌++◌}
use native.Mathlib.Omega.{arith}
use libartnet.Base.Tests.{◌==◌, if◌then◌else◌}
use libartnet.Base.Array.{length, set, get_or, take}

-- 1 for equal numbers
abbrev pub same : ℕ → ℕ → ℕ
same v x = if v == x then 1 else 0

abbrev pub count : ℕ → List ℕ → ℕ
count v [] = 0
count v (x ∷ xs) = same v x + count v xs

pub count-append : (v : ℕ) (xs ys : List ℕ) → count v (xs ++ ys) ≡ count v xs + count v ys
count-append v [] ys = omega arith
count-append v (x ∷ xs) ys = omega (arith, count-append v xs ys)

pub count-set :
    (v : ℕ) (xs : List ℕ) (i y : ℕ)
    → i < length xs
    → count v (set xs i y) + same v (get_or xs i 0) ≡ count v xs + same v y
count-set v [] i y h = absurd (omega arith)
count-set v (x ∷ xs) zero y h = omega arith
count-set v (x ∷ xs) (suc i) y h = omega (arith, count-set v xs i y (omega arith))

pub count-take-suc :
    (v : ℕ) (xs : List ℕ) (m : ℕ)
    → m < length xs
    → count v (take (suc m) xs) ≡ count v (take m xs) + same v (get_or xs m 0)
count-take-suc v [] m h = absurd (omega arith)
count-take-suc v (x ∷ xs) zero h = omega arith
count-take-suc v (x ∷ xs) (suc m) h = omega (arith, count-take-suc v xs m (omega arith))

-- An assignment behind the cut does not show.
pub count-take-set_behind :
    (v : ℕ) (xs : List ℕ) (m i y : ℕ) → m ≤ i → count v (take m (set xs i y)) ≡ count v (take m xs)
count-take-set_behind v [] m i y h = refl
count-take-set_behind v (x ∷ xs) zero zero y h = refl
count-take-set_behind v (x ∷ xs) (suc m) zero y h = absurd (omega arith)
count-take-set_behind v (x ∷ xs) zero (suc i) y h = refl
count-take-set_behind v (x ∷ xs) (suc m) (suc i) y h =
    ap (λ n. same v x + n) (count-take-set_behind v xs m i y (omega arith))

-- One before the cut exchanges one entry for another.
pub count-take-set :
    (v : ℕ) (xs : List ℕ) (m i y : ℕ)
    → i < m
    → m ≤ length xs
    → count v (take m (set xs i y)) + same v (get_or xs i 0) ≡ count v (take m xs) + same v y
count-take-set v [] m i y h k = absurd (omega arith)
count-take-set v (x ∷ xs) zero i y h k = absurd (omega arith)
count-take-set v (x ∷ xs) (suc m) zero y h k = omega arith
count-take-set v (x ∷ xs) (suc m) (suc i) y h k =
    omega (arith, count-take-set v xs m i y (omega arith) (omega arith))

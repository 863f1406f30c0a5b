-- ===== src/Base/Array.antt =====
-- C arrays as lists with native indices, and `memcpy` into one at an offset.
use Prim.Native.Nat.{ℕ, zero, suc, ◌+◌, ◌-◌, ◌≤◌, ◌<◌, min}
use mathlib.Core.Path.{◌≡◌, refl, ap, ◌∙◌}
use mathlib.Core.List.{List, [], ◌∷◌, ◌++◌}
use mathlib.Core.Option.{Option, none, some}
use native.Mathlib.Omega.{arith}

pub suc-add : (i n : ℕ) → suc i + n ≡ suc (i + n)
suc-add i n = omega arith

add-zero : {i : ℕ} → i + 0 ≡ i
add-zero = omega arith

module _ {ℓ} {A : Type ℓ} where
  abbrev pub length : List A → ℕ
  length [] = 0
  length (_ ∷ xs) = suc (length xs)

  abbrev pub get_elem? : List A → ℕ → Option A
  get_elem? [] _ = none
  get_elem? (x ∷ _) zero = some x
  get_elem? (_ ∷ xs) (suc i) = get_elem? xs i

  abbrev pub get_or : List A → ℕ → A → A
  get_or [] _ d = d
  get_or (x ∷ _) zero _ = x
  get_or (_ ∷ xs) (suc i) d = get_or xs i d

  -- A write out of bounds changes nothing.
  abbrev pub set : List A → ℕ → A → List A
  set [] _ _ = []
  set (_ ∷ xs) zero v = v ∷ xs
  set (x ∷ xs) (suc i) v = x ∷ set xs i v

  abbrev pub take : ℕ → List A → List A
  take zero _ = []
  take (suc n) [] = []
  take (suc n) (x ∷ xs) = x ∷ take n xs

  abbrev pub drop : ℕ → List A → List A
  drop zero xs = xs
  drop (suc n) [] = []
  drop (suc n) (_ ∷ xs) = drop n xs

  abbrev pub replicate : ℕ → A → List A
  replicate zero _ = []
  replicate (suc n) a = a ∷ replicate n a

  -- `memcpy(dst, src, n)`. The cells of `dst` behind the copied ones stay; what would be written
  -- behind the end of `dst`, or read behind the end of `src`, is left out.
  unfoldable pub memcpy : List A → List A → ℕ → List A
  memcpy dst _ zero = dst
  memcpy [] _ (suc n) = []
  memcpy (d ∷ dst) [] (suc n) = d ∷ dst
  memcpy (_ ∷ dst) (s ∷ src) (suc n) = s ∷ memcpy dst src n

  -- `memcpy(dst + at, src, n)`
  unfoldable pub memcpy_at : List A → ℕ → List A → ℕ → List A
  memcpy_at dst zero src n = memcpy dst src n
  memcpy_at [] (suc i) src n = []
  memcpy_at (d ∷ dst) (suc i) src n = d ∷ memcpy_at dst i src n

  pub length-append : (xs ys : List A) → length (xs ++ ys) ≡ length xs + length ys
  length-append [] ys = omega arith
  length-append (x ∷ xs) ys = omega (arith, length-append xs ys)

  pub length-set : (xs : List A) (i : ℕ) (v : A) → length (set xs i v) ≡ length xs
  length-set [] i v = refl
  length-set (x ∷ xs) zero v = refl
  length-set (x ∷ xs) (suc i) v = ap suc (length-set xs i v)

  pub length-take : (n : ℕ) (xs : List A) → length (take n xs) ≡ min n (length xs)
  length-take zero xs = omega arith
  length-take (suc n) [] = omega arith
  length-take (suc n) (x ∷ xs) = omega (arith, length-take n xs)

  pub length-drop : (n : ℕ) (xs : List A) → length (drop n xs) ≡ length xs - n
  length-drop zero xs = omega arith
  length-drop (suc n) [] = omega arith
  length-drop (suc n) (x ∷ xs) = omega (arith, length-drop n xs)

  pub length-replicate : (n : ℕ) (a : A) → length (replicate n a) ≡ n
  length-replicate zero a = refl
  length-replicate (suc n) a = ap suc (length-replicate n a)

  pub length-memcpy : (dst src : List A) (n : ℕ) → length (memcpy dst src n) ≡ length dst
  unfolding memcpy
  length-memcpy dst src zero = refl
  length-memcpy [] src (suc n) = refl
  length-memcpy (d ∷ dst) [] (suc n) = refl
  length-memcpy (d ∷ dst) (s ∷ src) (suc n) = ap suc (length-memcpy dst src n)

  pub length-memcpy_at :
      (dst : List A) (i : ℕ) (src : List A) (n : ℕ) → length (memcpy_at dst i src n) ≡ length dst
  unfolding memcpy_at
  length-memcpy_at dst zero src n = length-memcpy dst src n
  length-memcpy_at [] (suc i) src n = refl
  length-memcpy_at (d ∷ dst) (suc i) src n = ap suc (length-memcpy_at dst i src n)

  pub take-memcpy :
      (dst src : List A) (n : ℕ)
      → n ≤ length dst
      → n ≤ length src
      → take n (memcpy dst src n) ≡ take n src
  unfolding memcpy
  take-memcpy dst src zero h k = refl
  take-memcpy [] src (suc n) h k = absurd (omega arith)
  take-memcpy (d ∷ dst) [] (suc n) h k = absurd (omega arith)
  take-memcpy (d ∷ dst) (s ∷ src) (suc n) h k =
      ap (λ l. s ∷ l) (take-memcpy dst src n (omega arith) (omega arith))

  pub drop-memcpy :
      (dst src : List A) (n : ℕ) → n ≤ length src → drop n (memcpy dst src n) ≡ drop n dst
  unfolding memcpy
  drop-memcpy dst src zero k = refl
  drop-memcpy [] src (suc n) k = refl
  drop-memcpy (d ∷ dst) [] (suc n) k = absurd (omega arith)
  drop-memcpy (d ∷ dst) (s ∷ src) (suc n) k = drop-memcpy dst src n (omega arith)

  -- A block written right behind a prefix extends that prefix by the block.
  pub take-memcpy_at :
      (dst : List A) (i : ℕ) (src : List A) (n : ℕ)
      → i + n ≤ length dst
      → n ≤ length src
      → take (i + n) (memcpy_at dst i src n) ≡ take i dst ++ take n src
  unfolding memcpy_at
  take-memcpy_at dst zero src n h k =
      ap (λ m. take m (memcpy dst src n)) (omega arith) ∙ take-memcpy dst src n (omega arith) k
  take-memcpy_at [] (suc i) src n h k = absurd (omega arith)
  take-memcpy_at (d ∷ dst) (suc i) src n h k =
      ap (λ m. take m (d ∷ memcpy_at dst i src n)) step
      ∙ ap (λ l. d ∷ l) (take-memcpy_at dst i src n (omega arith) k)
    where
      step : suc i + n ≡ suc (i + n)
      step = omega arith

  pub take_all : (xs : List A) → take (length xs) xs ≡ xs
  take_all [] = refl
  take_all (x ∷ xs) = ap (λ l. x ∷ l) (take_all xs)

  -- Consecutive slices of a list join up.
  pub take-append-take-drop :
      (i n : ℕ) (xs : List A) → take i xs ++ take n (drop i xs) ≡ take (i + n) xs
  take-append-take-drop zero n xs = ap (λ m. take m xs) (omega arith)
  take-append-take-drop (suc i) zero [] = rw (add-zero)
  take-append-take-drop (suc i) (suc n) [] = rw (suc-add i (suc n))
  take-append-take-drop (suc i) n (x ∷ xs) =
      rw (suc-add i n) (ap (λ l. x ∷ l) (take-append-take-drop i n xs))

  pub take-memcpy_lt :
      (k : ℕ) (dst src : List A) (n : ℕ)
      → n ≤ length src
      → k ≤ n
      → n ≤ length dst
      → take k (memcpy dst src n) ≡ take k src
  unfolding memcpy
  take-memcpy_lt zero dst src n h le fits = refl
  take-memcpy_lt (suc k) dst src zero h le fits = absurd (omega arith)
  take-memcpy_lt (suc k) [] src (suc n) h le fits = absurd (omega arith)
  take-memcpy_lt (suc k) (d ∷ dst) [] (suc n) h le fits = absurd (omega arith)
  take-memcpy_lt (suc k) (d ∷ dst) (s ∷ src) (suc n) h le fits =
      ap (λ l. s ∷ l) (take-memcpy_lt k dst src n (omega arith) (omega arith) (omega arith))

  -- Writing the cell right behind a prefix extends the prefix.
  pub take-set_end :
      (xs : List A) (n : ℕ) (v : A)
      → suc n ≤ length xs
      → take (suc n) (set xs n v) ≡ take n xs ++ (v ∷ [])
  take-set_end [] n v h = absurd (omega arith)
  take-set_end (x ∷ xs) zero v h = refl
  take-set_end (x ∷ xs) (suc n) v h = ap (λ l. x ∷ l) (take-set_end xs n v (omega arith))

  pub take-append_left : (n : ℕ) (xs ys : List A) → n ≤ length xs → take n (xs ++ ys) ≡ take n xs
  take-append_left zero xs ys h = refl
  take-append_left (suc n) [] ys h = absurd (omega arith)
  take-append_left (suc n) (x ∷ xs) ys h = ap (λ l. x ∷ l) (take-append_left n xs ys (omega arith))

  pub get_or-memcpy :
      (dst src : List A) (n i : ℕ) (z : A)
      → i < n
      → n ≤ length dst
      → n ≤ length src
      → get_or (memcpy dst src n) i z ≡ get_or src i z
  unfolding memcpy
  get_or-memcpy dst src zero i z h k l = absurd (omega arith)
  get_or-memcpy [] src (suc n) i z h k l = absurd (omega arith)
  get_or-memcpy (d ∷ dst) [] (suc n) i z h k l = absurd (omega arith)
  get_or-memcpy (d ∷ dst) (s ∷ src) (suc n) zero z h k l = refl
  get_or-memcpy (d ∷ dst) (s ∷ src) (suc n) (suc i) z h k l =
      get_or-memcpy dst src n i z (omega arith) (omega arith) (omega arith)

-- ===== src/Base/Lists.antt =====
-- Buffers: lists measured and indexed by native numbers, and writes into them.
use Prim.Native.Nat.{ℕ, zero, suc, ◌+◌, ◌-◌, ◌≤◌, min, ◌<◌}
use mathlib.Core.Path.{◌≡◌, refl, ap, ◌∙◌, sym}
use mathlib.Core.List.{append-nil, List, [], ◌∷◌, ◌++◌, map}
use native.Mathlib.Omega.{arith}

module _ {ℓ} {A : Type ℓ} where
  abbrev pub length : List A → ℕ
  length [] = 0
  length (x ∷ xs) = suc (length xs)

  abbrev pub get_or : List A → ℕ → A → A
  get_or [] i d = d
  get_or (x ∷ xs) zero d = x
  get_or (x ∷ xs) (suc i) d = get_or xs i d

  abbrev pub take : ℕ → List A → List A
  take zero xs = []
  take (suc n) [] = []
  take (suc n) (x ∷ xs) = x ∷ take n xs

  abbrev pub drop : ℕ → List A → List A
  drop zero xs = xs
  drop (suc n) [] = []
  drop (suc n) (x ∷ xs) = drop n xs

  abbrev pub replicate : ℕ → A → List A
  replicate zero a = []
  replicate (suc n) a = a ∷ replicate n a

  -- `memcpy(buff, bytes, n)`: the bytes go over the front; what would fall past the end is dropped.
  abbrev pub overwrite : List A → List A → List A
  overwrite [] xs = xs
  overwrite (b ∷ bs) [] = []
  overwrite (b ∷ bs) (x ∷ xs) = b ∷ overwrite bs xs

  -- `memcpy(buff + off, bytes, n)`
  abbrev pub write_at : ℕ → List A → List A → List A
  write_at zero bs xs = overwrite bs xs
  write_at (suc n) bs [] = []
  write_at (suc n) bs (x ∷ xs) = x ∷ write_at n bs xs

  pub length-append : (xs ys : List A) → length (xs ++ ys) ≡ length xs + length ys
  length-append [] ys = omega arith
  length-append (x ∷ xs) ys = omega (arith, length-append xs ys)

  pub length-overwrite : (bs xs : List A) → length (overwrite bs xs) ≡ length xs
  length-overwrite [] xs = refl
  length-overwrite (b ∷ bs) [] = refl
  length-overwrite (b ∷ bs) (x ∷ xs) = ap suc (length-overwrite bs xs)

  pub length-write_at : (n : ℕ) (bs xs : List A) → length (write_at n bs xs) ≡ length xs
  length-write_at zero bs xs = length-overwrite bs xs
  length-write_at (suc n) bs [] = refl
  length-write_at (suc n) bs (x ∷ xs) = ap suc (length-write_at n bs xs)

  pub length-replicate : (n : ℕ) (a : A) → length (replicate n a) ≡ n
  length-replicate zero a = refl
  length-replicate (suc n) a = ap suc (length-replicate n a)

  pub length-take : (n : ℕ) (xs : List A) → length (take n xs) ≡ min n (length xs)
  length-take zero xs = omega arith
  length-take (suc n) [] = omega arith
  length-take (suc n) (x ∷ xs) = omega (arith, length-take n xs)

  pub length-drop : (n : ℕ) (xs : List A) → length (drop n xs) ≡ length xs - n
  length-drop zero xs = omega arith
  length-drop (suc n) [] = omega arith
  length-drop (suc n) (x ∷ xs) = omega (arith, length-drop n xs)

  -- A write that fits is read back, and leaves what stands before and after it.
  pub overwrite-eq :
      (bs xs : List A) → length bs ≤ length xs → overwrite bs xs ≡ bs ++ drop (length bs) xs
  overwrite-eq [] xs h = refl
  overwrite-eq (b ∷ bs) [] h = absurd (omega arith)
  overwrite-eq (b ∷ bs) (x ∷ xs) h = ap (◌∷◌ b) (overwrite-eq bs xs (omega arith))

  pub take-append : (xs ys : List A) → take (length xs) (xs ++ ys) ≡ xs
  take-append [] ys = refl
  take-append (x ∷ xs) ys = ap (◌∷◌ x) (take-append xs ys)

  pub drop-append : (xs ys : List A) → drop (length xs) (xs ++ ys) ≡ ys
  drop-append [] ys = refl
  drop-append (x ∷ xs) ys = drop-append xs ys

  pub take-overwrite :
      (bs xs : List A) → length bs ≤ length xs → take (length bs) (overwrite bs xs) ≡ bs
  take-overwrite [] xs h = refl
  take-overwrite (b ∷ bs) [] h = absurd (omega arith)
  take-overwrite (b ∷ bs) (x ∷ xs) h = ap (◌∷◌ b) (take-overwrite bs xs (omega arith))

  pub drop-overwrite : (bs xs : List A) → drop (length bs) (overwrite bs xs) ≡ drop (length bs) xs
  drop-overwrite [] xs = refl
  drop-overwrite (b ∷ bs) [] = refl
  drop-overwrite (b ∷ bs) (x ∷ xs) = drop-overwrite bs xs

  -- A write at an offset that fits, spelled out: before, the bytes, after.
  pub write_at-eq :
      (n : ℕ) (bs xs : List A)
      → n + length bs ≤ length xs
      → write_at n bs xs ≡ take n xs ++ (bs ++ drop (length bs) (drop n xs))
  write_at-eq zero bs xs h = overwrite-eq bs xs (omega arith)
  write_at-eq (suc n) [] [] h = refl
  write_at-eq (suc n) (b ∷ bs) [] h = absurd (omega arith)
  write_at-eq (suc n) bs (x ∷ xs) h = ap (◌∷◌ x) (write_at-eq n bs xs (omega arith))

  -- What the next write at the end of the last one leaves: the two, one behind the other.
  pub overwrite-append :
      (bs cs xs : List A) → write_at (length bs) cs (overwrite bs xs) ≡ overwrite (bs ++ cs) xs
  overwrite-append [] cs xs = refl
  overwrite-append (b ∷ bs) cs [] = refl
  overwrite-append (b ∷ bs) cs (x ∷ xs) = ap (◌∷◌ b) (overwrite-append bs cs xs)

-- A buffer in two parts, cut where the first one ends.
pub take-front {ℓ} : {A : Type ℓ} (n : ℕ) (xs ys : List A) → length xs ≡ n → take n (xs ++ ys) ≡ xs
take-front n xs ys e = ap (λ k. take k (xs ++ ys)) (sym e) ∙ take-append xs ys

pub take-whole {ℓ} : {A : Type ℓ} (n : ℕ) (xs : List A) → length xs ≡ n → take n xs ≡ xs
take-whole n xs e = ap (take n) (sym (append-nil xs)) ∙ take-front n xs [] e

pub drop-front {ℓ} : {A : Type ℓ} (n : ℕ) (xs ys : List A) → length xs ≡ n → drop n (xs ++ ys) ≡ ys
drop-front n xs ys e = ap (λ k. drop k (xs ++ ys)) (sym e) ∙ drop-append xs ys

pub take-suffix {ℓ} :
    {A : Type ℓ} (n : ℕ) (xs ys : List A) → take (length xs + n) (xs ++ ys) ≡ xs ++ take n ys
take-suffix n [] ys = ap (λ k. take k ys) (omega arith)
take-suffix n (x ∷ xs) ys =
    ap (λ k. take k (x ∷ (xs ++ ys))) {y = suc (length xs + n)} (omega arith)
    ∙ ap (◌∷◌ x) (take-suffix n xs ys)

pub overwrite-front {ℓ} :
    {A : Type ℓ} (hdr front xs : List A)
    → length front ≡ length hdr
    → overwrite hdr (front ++ xs) ≡ hdr ++ xs
overwrite-front [] [] xs e = refl
overwrite-front [] (x ∷ front) xs e = absurd (omega arith)
overwrite-front (h ∷ hdr) [] xs e = absurd (omega arith)
overwrite-front (h ∷ hdr) (x ∷ front) xs e = ap (◌∷◌ h) (overwrite-front hdr front xs (omega arith))

pub ++-assoc {ℓ} : {A : Type ℓ} (xs ys zs : List A) → (xs ++ ys) ++ zs ≡ xs ++ (ys ++ zs)
++-assoc [] ys zs = refl
++-assoc (x ∷ xs) ys zs = ap (◌∷◌ x) (++-assoc xs ys zs)

pub length-map {ℓ κ} :
    {A : Type ℓ} {B : Type κ} (f : A → B) (xs : List A) → length (map f xs) ≡ length xs
length-map f [] = refl
length-map f (x ∷ xs) = ap suc (length-map f xs)

-- A predicate at every element.
abbrev pub All {ℓ κ} : {A : Type ℓ} → (A → Type κ) → List A → Type κ
All P [] = Unit
All P (x ∷ xs) = P x × All P xs

abbrev pub AllBytes : List ℕ → Type 0
AllBytes = All (λ b. b < 256)

pub drop-nil {ℓ} : {A : Type ℓ} (n : ℕ) → drop {A = A} n [] ≡ []
drop-nil zero = refl
drop-nil (suc n) = refl

pub drop-drop {ℓ} : {A : Type ℓ} (n m : ℕ) (xs : List A) → drop m (drop n xs) ≡ drop (n + m) xs
drop-drop zero m xs = ap (λ k. drop k xs) (omega arith)
drop-drop (suc n) m [] = drop-nil m ∙ sym (drop-nil (suc n + m))
drop-drop (suc n) m (x ∷ xs) =
    drop-drop n m xs ∙ ap (λ k. drop k (x ∷ xs)) {x = suc (n + m)} (omega arith)

pub take-drop {ℓ} : {A : Type ℓ} (n : ℕ) (xs : List A) → take n xs ++ drop n xs ≡ xs
take-drop zero xs = refl
take-drop (suc n) [] = refl
take-drop (suc n) (x ∷ xs) = ap (◌∷◌ x) (take-drop n xs)

-- A buffer is its first `n` bytes, the next `m`, and the rest.
pub take-drop-drop {ℓ} :
    {A : Type ℓ} (n m : ℕ) (xs : List A) → (take n xs ++ take m (drop n xs)) ++ drop (n + m) xs ≡ xs
take-drop-drop n m xs =
    ++-assoc (take n xs) (take m (drop n xs)) (drop (n + m) xs)
    ∙ ap (λ k. take n xs ++ (take m (drop n xs) ++ k)) (sym (drop-drop n m xs))
    ∙ ap (λ k. take n xs ++ k) (take-drop m (drop n xs))
    ∙ take-drop n xs

-- ===== src/Prelude/Bytes.antt =====
-- Byte strings: slices, big-endian words, and what they give back.
use traffic_forwarding_panel.Prelude.{
  ℕ, zero, suc, ◌+◌, ◌*◌, ◌/◌, ◌%◌, ◌^◌, ◌≤◌, ◌<◌, ◌≡◌, refl, ap, ◌∙◌, Bool, true, false, ◌&&◌,
  List, [], ◌∷◌, ◌++◌, length, arith, ◌==◌,
}

abbrev pub Bytes : Type 0
Bytes = List ℕ

-- `a == b` of two slices, by content
unfoldable pub equal_bytes : Bytes → Bytes → Bool
equal_bytes [] [] = true
equal_bytes [] (y ∷ ys) = false
equal_bytes (x ∷ xs) [] = false
equal_bytes (x ∷ xs) (y ∷ ys) = x == y && equal_bytes xs ys

pub equal_bytes_refl : (xs : Bytes) → equal_bytes xs xs ≡ true
unfolding equal_bytes
equal_bytes_refl [] = refl
equal_bytes_refl (x ∷ xs) = ground (arith, equal_bytes_refl xs)

suc_add : (a b : ℕ) → suc a + b ≡ suc (a + b)
suc_add a b = omega arith

module _ {ℓ} {A : Type ℓ} where
  -- `b[:n]` and `b[n:]`, of the whole of `b` where it is shorter
  abbrev pub take : ℕ → List A → List A
  take zero xs = []
  take (suc n) [] = []
  take (suc n) (x ∷ xs) = x ∷ take n xs

  abbrev pub drop : ℕ → List A → List A
  drop zero xs = xs
  drop (suc n) [] = []
  drop (suc n) (x ∷ xs) = drop n xs

  pub take-append : (xs ys : List A) (n : ℕ) → take (length xs + n) (xs ++ ys) ≡ xs ++ take n ys
  take-append [] ys n = ap (λ k. take k ys) (omega arith)
  take-append (x ∷ xs) ys n =
      ap (λ k. take k (x ∷ (xs ++ ys))) (suc_add (length xs) n)
      ∙ ap (λ t. x ∷ t) (take-append xs ys n)

  pub drop-append : (xs ys : List A) → drop (length xs) (xs ++ ys) ≡ ys
  drop-append [] ys = refl
  drop-append (x ∷ xs) ys = drop-append xs ys

  pub take-whole : (xs ys : List A) → take (length xs) (xs ++ ys) ≡ xs
  take-whole [] ys = refl
  take-whole (x ∷ xs) ys = ap (λ t. x ∷ t) (take-whole xs ys)

  pub take_short : (xs ys : List A) (n : ℕ) → n ≤ length xs → take n (xs ++ ys) ≡ take n xs
  take_short xs ys zero h = refl
  take_short [] ys (suc n) h = absurd (omega arith)
  take_short (x ∷ xs) ys (suc n) h = ap (λ t. x ∷ t) (take_short xs ys n (omega arith))

  pub take-drop : (n : ℕ) (xs : List A) → take n xs ++ drop n xs ≡ xs
  take-drop zero xs = refl
  take-drop (suc n) [] = refl
  take-drop (suc n) (x ∷ xs) = ap (λ t. x ∷ t) (take-drop n xs)

  pub take_more :
      (n m : ℕ) (xs : List A) → n ≤ length xs → take (n + m) xs ≡ take n xs ++ take m (drop n xs)
  take_more zero m xs h = ap (λ k. take k xs) (omega arith)
  take_more (suc n) m [] h = absurd (omega arith)
  take_more (suc n) m (x ∷ xs) h =
      ap (λ k. take k (x ∷ xs)) (suc_add n m)
      ∙ ap (λ t. x ∷ t) (take_more n m xs (omega (arith, h)))

  pub length-take : (xs : List A) (n : ℕ) → n ≤ length xs → length (take n xs) ≡ n
  length-take xs zero h = refl
  length-take [] (suc n) h = omega arith
  length-take (x ∷ xs) (suc n) h = omega (arith, length-take xs n (omega arith))

  pub length-drop-le : (n : ℕ) (xs : List A) → length (drop n xs) ≤ length xs
  length-drop-le zero xs = omega arith
  length-drop-le (suc n) [] = omega arith
  length-drop-le (suc n) (x ∷ xs) = omega (arith, length-drop-le n xs)

-- `binary.BigEndian.PutUint32` and `PutUint64`
abbrev pub put_uint32 : ℕ → Bytes
put_uint32 v = (v / 2 ^ 24) % 256 ∷ (v / 2 ^ 16) % 256 ∷ (v / 2 ^ 8) % 256 ∷ v % 256 ∷ []

abbrev pub put_uint64 : ℕ → Bytes
put_uint64 v = put_uint32 (v / 2 ^ 32) ++ put_uint32 v

-- `binary.BigEndian.Uint32` and `Uint64`; the program gives them enough bytes.
abbrev pub uint32 : Bytes → ℕ
uint32 (a ∷ b ∷ c ∷ d ∷ _) = ((a * 256 + b) * 256 + c) * 256 + d
uint32 _ = 0

abbrev pub uint64 : Bytes → ℕ
uint64 b = uint32 b * 2 ^ 32 + uint32 (drop 4 b)

pub uint32-put_uint32 : (v : ℕ) (r : Bytes) → v < 2 ^ 32 → uint32 (put_uint32 v ++ r) ≡ v
uint32-put_uint32 v r h = omega arith

pub uint64-put_uint64 : (v : ℕ) (r : Bytes) → v < 2 ^ 64 → uint64 (put_uint64 v ++ r) ≡ v
uint64-put_uint64 v r h = omega (arith, uint32-put_uint32 (v / 2 ^ 32) [] (omega arith))

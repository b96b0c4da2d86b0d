-- ===== src/Tunnel/Datagram/Chunks.antt =====
-- The chunks that `sendPacket` of internal/tunnel/datagram.go cuts a packet into.
use traffic_forwarding_panel.Prelude.{
  ℕ, zero, suc, ◌+◌, ◌-◌, ◌*◌, ◌/◌, ◌≤◌, ◌<◌, min, max, ◌≡◌, refl, sym, ap, ◌∙◌, Bool-cases, inl,
  inr, ltb, Option, none, some, List, [], ◌∷◌, ◌++◌, length, arith,
}
use traffic_forwarding_panel.Prelude.Bytes.{Bytes, take, drop, take-drop}
use native.Mathlib.Nat.{mod-lt, div-add-mod'}
use traffic_forwarding_panel.Tunnel.Datagram.Sender.{slice, count_of}

-- `n` chunks of `k` bytes, the last of them shorter.
unfoldable pub chunks : ℕ → ℕ → Bytes → List Bytes
chunks k zero p = []
chunks k (suc n) p = take k p ∷ chunks k n (drop k p)

unfoldable pub concat : List Bytes → Bytes
concat [] = []
concat (b ∷ bs) = b ++ concat bs

unfoldable pub get : ℕ → List Bytes → Option Bytes
get i [] = none
get zero (b ∷ bs) = some b
get (suc i) (b ∷ bs) = get i bs

pub length-drop : (n : ℕ) (xs : Bytes) → length (drop n xs) ≡ length xs - n
length-drop zero xs = omega arith
length-drop (suc n) [] = omega arith
length-drop (suc n) (x ∷ xs) = omega (arith, length-drop n xs)

pub length-take-min : (n : ℕ) (xs : Bytes) → length (take n xs) ≡ min n (length xs)
length-take-min zero xs = omega arith
length-take-min (suc n) [] = omega arith
length-take-min (suc n) (x ∷ xs) = omega (arith, length-take-min n xs)

take_all : (n : ℕ) (xs : Bytes) → length xs ≤ n → take n xs ≡ xs
take_all zero [] h = refl
take_all zero (x ∷ xs) h = absurd (omega arith)
take_all (suc n) [] h = refl
take_all (suc n) (x ∷ xs) h = ap (λ t. x ∷ t) (take_all n xs (omega arith))

take_nil : (n : ℕ) → take {A = ℕ} n [] ≡ []
take_nil zero = refl
take_nil (suc n) = refl

drop_nil : (n : ℕ) → drop {A = ℕ} n [] ≡ []
drop_nil zero = refl
drop_nil (suc n) = refl

take_cut : (n m : ℕ) (xs : Bytes) → length xs ≤ m → take (min n m) xs ≡ take n xs
take_cut zero m xs h = let e : min zero m ≡ zero = omega arith in ap (λ k. take k xs) e
take_cut (suc n) m [] h = take_nil (min (suc n) m)
take_cut (suc n) m (x ∷ xs) h =
    let e : min (suc n) m ≡ suc (min n (m - 1)) = omega (arith, h) in
    ap (λ k. take k (x ∷ xs)) e ∙ ap (λ t. x ∷ t) (take_cut n (m - 1) xs (omega (arith, h)))

drop-drop : (n m : ℕ) (xs : Bytes) → drop n (drop m xs) ≡ drop (m + n) xs
drop-drop n zero xs = let e : n ≡ zero + n = omega arith in ap (λ k. drop k xs) e
drop-drop n (suc m) [] = drop_nil n ∙ sym (drop_nil (suc m + n))
drop-drop n (suc m) (x ∷ xs) =
    let e : suc (m + n) ≡ suc m + n = omega arith in drop-drop n m xs ∙ ap (λ k. drop k (x ∷ xs)) e

pub length-chunks : (k n : ℕ) (p : Bytes) → length (chunks k n p) ≡ n
unfolding chunks
length-chunks k zero p = refl
length-chunks k (suc n) p = omega (arith, length-chunks k n (drop k p))

-- Enough chunks are the packet.
pub concat-chunks : (k n : ℕ) (p : Bytes) → length p ≤ n * k → concat (chunks k n p) ≡ p
unfolding chunks concat
concat-chunks k zero [] h = refl
concat-chunks k zero (x ∷ p) h = absurd (omega arith)
concat-chunks k (suc n) p h =
    ap (λ q. take k p ++ q) (concat-chunks k n (drop k p) (omega (arith, length-drop k p, h)))
    ∙ take-drop k p

pub get-chunks :
    (k n i : ℕ) (p : Bytes) → i < n → get i (chunks k n p) ≡ some (take k (drop (i * k) p))
unfolding chunks get
get-chunks k zero i p h = absurd (omega arith)
get-chunks k (suc n) zero p h =
    let e : 0 ≡ 0 * k = omega arith in ap (λ j. some (take k (drop j p))) e
get-chunks k (suc n) (suc i) p h =
    let e : k + i * k ≡ suc i * k = omega arith in
    get-chunks k n i (drop k p) (omega arith)
    ∙ ap (λ q. some (take k q)) (drop-drop (i * k) k p)
    ∙ ap (λ j. some (take k (drop j p))) e

-- The slice of the code is the chunk.
pub slice_chunk :
    (k i : ℕ) (p : Bytes) → slice (i * k) (min (length p) ((i + 1) * k)) p ≡ take k (drop (i * k) p)
slice_chunk k i p =
    ap (λ n. take n (drop (i * k) p)) (omega arith)
    ∙ take_cut k (length p - i * k) (drop (i * k) p) (omega (arith, length-drop (i * k) p))

pub count_enough : (k : ℕ) (p : Bytes) → 0 < k → length p ≤ count_of k p * k
unfolding count_of
count_enough zero p h = absurd (omega arith)
count_enough (suc k) p h =
    let n = length p + k in
    let cut = div-add-mod' n (suc k) in
    elim (Bool-cases (ltb 0 (n / suc k))) [
      | inl some_chunk ↦
          let e : max 1 (n / suc k) ≡ n / suc k = ground (arith, some_chunk) in
          rw e (omega (arith, cut, mod-lt n {m = suc k} (omega arith)))
      | inr none_there ↦
          let e : n / suc k ≡ 0 = ground (arith, none_there) in
          let small : length p ≡ 0 =
            omega (arith, rw e at cut, mod-lt n {m = suc k} (omega arith)) in
          omega (arith, small)
    ]

pub spread : (i j d : ℕ) → (i + 1 + j) * d ≡ i * d + d + j * d
spread i j d = omega arith

pub count_tight :
    (k i : ℕ) (p : Bytes) → 0 < k → i < count_of k p → 1 < count_of k p → i * k < length p
unfolding count_of
count_tight zero i p h lt more = absurd (omega arith)
count_tight (suc k) i p h lt more =
    let q = (length p + k) / suc k in
    let j = q - 1 - i in
    let e : q ≡ i + 1 + j = omega (arith, lt, more) in
    let split : q * suc k ≡ i * suc k + suc k + j * suc k =
      ap (λ n. n * suc k) e ∙ spread i j (suc k) in
    omega (arith, split, div-add-mod' (length p + k) (suc k))

-- ===== src/Tunnel/Datagram/Parts.antt =====
-- Parts of a packet that have come, against the chunks it was cut into.
use traffic_forwarding_panel.Prelude.{
  ℕ, zero, suc, ◌+◌, ◌≤◌, ◌<◌, ◌≡◌, refl, sym, ap, ◌∙◌, ◌⊎◌, inl, inr, true, false, Option, none,
  some, some_inj, none_ne, List, [], ◌∷◌, ◌++◌, length, length-append, arith,
}
use traffic_forwarding_panel.Prelude.Bytes.{Bytes}
use traffic_forwarding_panel.Tunnel.Datagram.{get_part, set_part, no_parts, join_parts}
use traffic_forwarding_panel.Tunnel.Datagram.Chunks.{concat, get}

-- Each part is missing or is its chunk.
abbrev pub Agree : List (Option Bytes) → List Bytes → Type 0
Agree [] [] = Unit {0}
Agree (o ∷ os) (b ∷ bs) = ((o ≡ none) ⊎ (o ≡ some b)) × Agree os bs
Agree [] (b ∷ bs) = true ≡ false
Agree (o ∷ os) [] = true ≡ false

-- How many parts have come, and their bytes.
unfoldable pub arrived : List (Option Bytes) → ℕ
arrived [] = 0
arrived (none ∷ os) = arrived os
arrived (some b ∷ os) = suc (arrived os)

unfoldable pub arrived_bytes : List (Option Bytes) → ℕ
arrived_bytes [] = 0
arrived_bytes (none ∷ os) = arrived_bytes os
arrived_bytes (some b ∷ os) = length b + arrived_bytes os

pub length-no_parts : (n : ℕ) → length (no_parts n) ≡ n
unfolding no_parts
length-no_parts zero = refl
length-no_parts (suc n) = omega (arith, length-no_parts n)

pub arrived-no_parts : (n : ℕ) → arrived (no_parts n) ≡ 0
unfolding no_parts arrived
arrived-no_parts zero = refl
arrived-no_parts (suc n) = arrived-no_parts n

pub arrived_bytes-no_parts : (n : ℕ) → arrived_bytes (no_parts n) ≡ 0
unfolding no_parts arrived_bytes
arrived_bytes-no_parts zero = refl
arrived_bytes-no_parts (suc n) = arrived_bytes-no_parts n

pub no_parts-Agree : (bs : List Bytes) → Agree (no_parts (length bs)) bs
unfolding no_parts
no_parts-Agree [] = tt
no_parts-Agree (b ∷ bs) = (inl refl, no_parts-Agree bs)

pub length-set_part :
    (i : ℕ) (b : Bytes) (os : List (Option Bytes)) → length (set_part i b os) ≡ length os
unfolding set_part
length-set_part i b [] = refl
length-set_part zero b (o ∷ os) = refl
length-set_part (suc i) b (o ∷ os) = omega (arith, length-set_part i b os)

pub length-Agree :
    (os : List (Option Bytes)) (bs : List Bytes) → Agree os bs → length os ≡ length bs
length-Agree [] [] h = refl
length-Agree (o ∷ os) (b ∷ bs) h = omega (arith, length-Agree os bs h.1)
length-Agree [] (b ∷ bs) h = cc
length-Agree (o ∷ os) [] h = cc

-- What has come at a place is the chunk.
pub get_part-Agree :
    (i : ℕ) (b : Bytes) (os : List (Option Bytes)) (bs : List Bytes)
    → Agree os bs
    → get i bs ≡ some b
    → (get_part i os ≡ none) ⊎ (get_part i os ≡ some b)
unfolding get get_part
get_part-Agree i b [] bs h e = inl refl
get_part-Agree zero b (o ∷ os) (c ∷ bs) h e = elim h.0 [
  | inl missing ↦ inl missing
  | inr there ↦ inr (there ∙ e)
]
get_part-Agree (suc i) b (o ∷ os) (c ∷ bs) h e = get_part-Agree i b os bs h.1 e
get_part-Agree i b (o ∷ os) [] h e = cc

pub set_part-Agree :
    (i : ℕ) (b : Bytes) (os : List (Option Bytes)) (bs : List Bytes)
    → Agree os bs
    → get i bs ≡ some b
    → Agree (set_part i b os) bs
unfolding get set_part
set_part-Agree i b [] bs h e = h
set_part-Agree zero b (o ∷ os) (c ∷ bs) h e = (inr (sym e), h.1)
set_part-Agree (suc i) b (o ∷ os) (c ∷ bs) h e = (h.0, set_part-Agree i b os bs h.1 e)
set_part-Agree i b (o ∷ os) [] h e = cc

pub arrived-set_part :
    (i : ℕ) (b : Bytes) (os : List (Option Bytes))
    → i < length os
    → get_part i os ≡ none
    → (arrived (set_part i b os) ≡ arrived os + 1)
      × (arrived_bytes (set_part i b os) ≡ arrived_bytes os + length b)
unfolding get_part set_part arrived arrived_bytes
arrived-set_part i b [] h e = absurd (omega arith)
arrived-set_part zero b (none ∷ os) h e = (omega arith, omega arith)
arrived-set_part zero b (some x ∷ os) h e = absurd (none_ne (sym e))
arrived-set_part (suc i) b (none ∷ os) h e = arrived-set_part i b os (omega arith) e
arrived-set_part (suc i) b (some x ∷ os) h e =
    let ih = arrived-set_part i b os (omega arith) e in (omega (arith, ih.0), omega (arith, ih.1))

-- No more bytes have come than the packet has.
pub arrived_bytes-le :
    (os : List (Option Bytes)) (bs : List Bytes)
    → Agree os bs
    → arrived_bytes os ≤ length (concat bs)
unfolding arrived_bytes concat
arrived_bytes-le [] [] h = omega arith
arrived_bytes-le (none ∷ os) (b ∷ bs) h =
    omega (arith, length-append b (concat bs), arrived_bytes-le os bs h.1)
arrived_bytes-le (some x ∷ os) (b ∷ bs) h = elim h.0 [
  | inl missing ↦ absurd (none_ne (sym missing))
  | inr there ↦
      let same = ap length (some_inj there) in
      omega (arith, same, length-append b (concat bs), arrived_bytes-le os bs h.1)
]
arrived_bytes-le [] (b ∷ bs) h = cc
arrived_bytes-le (o ∷ os) [] h = cc

pub arrived-le : (os : List (Option Bytes)) → arrived os ≤ length os
unfolding arrived
arrived-le [] = omega arith
arrived-le (none ∷ os) = omega (arith, arrived-le os)
arrived-le (some b ∷ os) = omega (arith, arrived-le os)

-- Where all parts have come, they are the packet.
pub join_parts-Agree :
    (os : List (Option Bytes)) (bs : List Bytes)
    → Agree os bs
    → arrived os ≡ length os
    → (join_parts os ≡ concat bs) × (arrived_bytes os ≡ length (concat bs))
unfolding arrived arrived_bytes join_parts concat
join_parts-Agree [] [] h e = (refl, refl)
join_parts-Agree (none ∷ os) (b ∷ bs) h e = absurd (omega (arith, arrived-le os, e))
join_parts-Agree (some x ∷ os) (b ∷ bs) h e = elim h.0 [
  | inl missing ↦ absurd (none_ne (sym missing))
  | inr there ↦
      let same = some_inj there in
      let ih = join_parts-Agree os bs h.1 (omega (arith, e)) in
      (
        ap (λ y. y ++ join_parts os) same ∙ ap (λ r. b ++ r) ih.0,
        omega (arith, ap length same, ih.1, length-append b (concat bs)),
      )
]
join_parts-Agree [] (b ∷ bs) h e = cc
join_parts-Agree (o ∷ os) [] h e = cc

-- The part has come.
abbrev pub Has : ℕ → List (Option Bytes) → Type 0
Has i os = (b : Bytes) × (get_part i os ≡ some b)

pub set_part-Has :
    (i j : ℕ) (b : Bytes) (os : List (Option Bytes)) → Has j os → Has j (set_part i b os)
unfolding get_part set_part
set_part-Has i j b [] h = h
set_part-Has zero zero b (o ∷ os) h = (b, refl)
set_part-Has zero (suc j) b (o ∷ os) h = h
set_part-Has (suc i) zero b (o ∷ os) h = h
set_part-Has (suc i) (suc j) b (o ∷ os) h = set_part-Has i j b os h

pub set_part-new :
    (i : ℕ) (b : Bytes) (os : List (Option Bytes)) → i < length os → Has i (set_part i b os)
unfolding get_part set_part
set_part-new i b [] h = absurd (omega arith)
set_part-new zero b (o ∷ os) h = (b, refl)
set_part-new (suc i) b (o ∷ os) h = set_part-new i b os (omega arith)

-- Where each part has come, all have.
pub arrived_all :
    (os : List (Option Bytes)) → ((i : ℕ) → i < length os → Has i os) → arrived os ≡ length os
unfolding get_part arrived
arrived_all [] h = refl
arrived_all (none ∷ os) h = absurd (none_ne ((h 0 (omega arith)).1))
arrived_all (some b ∷ os) h = omega (arith, arrived_all os (λ i l. h (suc i) (omega arith)))

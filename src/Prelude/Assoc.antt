-- ===== src/Prelude/Assoc.antt =====
-- A Go map as an association list with one entry for each key. Keys are numbers: the program only
-- compares them.
use traffic_forwarding_panel.Prelude.{
  ℕ, ◌+◌, ◌≤◌, ◌≡◌, ◌≢◌, refl, Bool-cases, false, inl, inr, length, Option, none, some, List, [],
  ◌∷◌, arith, ◌==◌, if◌then◌else◌,
}

abbrev pub Assoc {ℓ} : Type ℓ → Type ℓ
Assoc V = List (ℕ × V)

module _ {ℓ} {V : Type ℓ} where
  abbrev pub lookup : ℕ → Assoc V → Option V
  lookup k [] = none
  lookup k ((j, v) ∷ m) = if k == j then some v else lookup k m

  -- `m[k] = v`
  abbrev pub insert : ℕ → V → Assoc V → Assoc V
  insert k v [] = (k, v) ∷ []
  insert k v (e ∷ m) = if k == e.0 then (k, v) ∷ m else e ∷ insert k v m

  -- `delete(m, k)`
  abbrev pub erase : ℕ → Assoc V → Assoc V
  erase k [] = []
  erase k (e ∷ m) = if k == e.0 then m else e ∷ erase k m

  pub lookup-insert :
      (k j : ℕ) (v : V) (m : Assoc V)
      → lookup j (insert k v m) ≡ (if k == j then some v else lookup j m)
  lookup-insert k j v [] = ground arith
  lookup-insert k j v (e ∷ m) = ground (arith, lookup-insert k j v m)

  pub lookup-erase_ne : (j k : ℕ) (m : Assoc V) → j ≢ k → lookup j (erase k m) ≡ lookup j m
  lookup-erase_ne j k [] h = refl
  lookup-erase_ne j k (e ∷ m) h = ground (arith, lookup-erase_ne j k m h)

-- The sum of a measure over the values of a map.
unfoldable pub total_by {ℓ} : {V : Type ℓ} → (V → ℕ) → Assoc V → ℕ
total_by f [] = 0
total_by f ((_, v) ∷ m) = f v + total_by f m

-- A write replaces the value's part of the sum.
pub total_by-insert {ℓ} :
    {V : Type ℓ} (f : V → ℕ) (k : ℕ) (old v : V) (m : Assoc V)
    → lookup k m ≡ some old
    → total_by f (insert k v m) + f old ≡ total_by f m + f v
unfolding total_by
total_by-insert f k old v [] h = cc
total_by-insert f k old v (e ∷ m) h = ground (arith, total_by-insert f k old v m)

pub total_by-insert_new {ℓ} :
    {V : Type ℓ} (f : V → ℕ) (k : ℕ) (v : V) (m : Assoc V)
    → lookup k m ≡ none
    → total_by f (insert k v m) ≡ total_by f m + f v
unfolding total_by
total_by-insert_new f k v [] h = omega arith
total_by-insert_new f k v (e ∷ m) h = ground (arith, total_by-insert_new f k v m)

pub total_by-erase {ℓ} :
    {V : Type ℓ} (f : V → ℕ) (k : ℕ) (old : V) (m : Assoc V)
    → lookup k m ≡ some old
    → total_by f (erase k m) + f old ≡ total_by f m
unfolding total_by
total_by-erase f k old [] h = cc
total_by-erase f k old (e ∷ m) h = ground (arith, total_by-erase f k old m)

abbrev pub keys {ℓ} : {V : Type ℓ} → Assoc V → List ℕ
keys [] = []
keys (e ∷ m) = e.0 ∷ keys m

-- `delete(m, k)` on a map of which it is not known that each key stands once
abbrev pub delete {ℓ} : {V : Type ℓ} → ℕ → Assoc V → Assoc V
delete k [] = []
delete k (e ∷ m) = if k == e.0 then delete k m else e ∷ delete k m

pub length-delete-le {ℓ} : {V : Type ℓ} (k : ℕ) (m : Assoc V) → length (delete k m) ≤ length m
length-delete-le k [] = omega arith
length-delete-le k (e ∷ m) = ground (arith, length-delete-le k m)

pub lookup-delete {ℓ} :
    {V : Type ℓ} (k j : ℕ) (m : Assoc V)
    → lookup j (delete k m) ≡ (if k == j then none else lookup j m)
lookup-delete k j [] = ground arith
lookup-delete k j (e ∷ m) = ground (arith, lookup-delete k j m)

-- Writing a key that is there keeps the size, and a new key adds one.
pub length-insert {ℓ} :
    {V : Type ℓ} (k : ℕ) (v old : V) (m : Assoc V)
    → lookup k m ≡ some old
    → length (insert k v m) ≡ length m
length-insert k v old [] h = cc
length-insert k v old (e ∷ m) h = ground (arith, length-insert k v old m)

pub length-insert_new {ℓ} :
    {V : Type ℓ} (k : ℕ) (v : V) (m : Assoc V)
    → lookup k m ≡ none
    → length (insert k v m) ≡ length m + 1
length-insert_new k v [] h = omega arith
length-insert_new k v (e ∷ m) h = ground (arith, length-insert_new k v m)

-- The number is none of the list, and no number stands twice in the list.
abbrev pub Absent : ℕ → List ℕ → Type 0
Absent k [] = Unit {0}
Absent k (j ∷ js) = ((k == j) ≡ false) × Absent k js

abbrev pub IsDistinct : List ℕ → Type 0
IsDistinct [] = Unit {0}
IsDistinct (k ∷ ks) = Absent k ks × IsDistinct ks

Absent-delete {ℓ} :
    {V : Type ℓ} (j k : ℕ) (m : Assoc V) → Absent j (keys m) → Absent j (keys (delete k m))
Absent-delete j k [] h = tt
Absent-delete j k (e ∷ m) h = elim (Bool-cases (k == e.0)) [
  | inl same ↦ rw same (Absent-delete j k m h.1)
  | inr ne ↦ rw ne (h.0, Absent-delete j k m h.1)
]

pub delete-IsDistinct {ℓ} :
    {V : Type ℓ} (k : ℕ) (m : Assoc V) → IsDistinct (keys m) → IsDistinct (keys (delete k m))
delete-IsDistinct k [] h = tt
delete-IsDistinct k (e ∷ m) h = elim (Bool-cases (k == e.0)) [
  | inl same ↦ rw same (delete-IsDistinct k m h.1)
  | inr ne ↦ rw ne (Absent-delete e.0 k m h.0, delete-IsDistinct k m h.1)
]

Absent-insert {ℓ} :
    {V : Type ℓ} (j k : ℕ) (v : V) (m : Assoc V)
    → (j == k) ≡ false
    → Absent j (keys m)
    → Absent j (keys (insert k v m))
Absent-insert j k v [] ne h = (ne, tt)
Absent-insert j k v (e ∷ m) ne h = elim (Bool-cases (k == e.0)) [
  | inl same ↦ rw same (ne, h.1)
  | inr other ↦ rw other (h.0, Absent-insert j k v m ne h.1)
]

pub insert-IsDistinct {ℓ} :
    {V : Type ℓ} (k : ℕ) (v : V) (m : Assoc V)
    → IsDistinct (keys m)
    → IsDistinct (keys (insert k v m))
insert-IsDistinct k v [] h = (tt, tt)
insert-IsDistinct k v (e ∷ m) h = elim (Bool-cases (k == e.0)) [
  | inl same ↦ let i : k ≡ e.0 = ground arith in rw same (rw i h.0, h.1)
  | inr ne ↦ rw ne (Absent-insert e.0 k v m (ground arith) h.0, insert-IsDistinct k v m h.1)
]

-- ===== src/Policy/Association/Index.antt =====
-- The lookup index of the registry: how many entries stand under a key, and what filters keep.
use traffic_forwarding_panel.Prelude.{
  ℕ, ◌+◌, ◌≤◌, ◌≡◌, refl, ◌∙◌, Bool, true, false, not, ◌&&◌, List, [], ◌∷◌, arith, ◌==◌,
  if◌then◌else◌, All, Bool-cases, inl, inr,
}
use traffic_forwarding_panel.Policy.Association.{
  Binding, LookupKey, Entry, max_peer_sessions, same_endpoint, same_binding, same_key, key_of, keep,
  count_key, put, has_room, put_all,
}

pub same_key_refl : (k : LookupKey) → same_key k k ≡ true
unfolding same_key
same_key_refl k = ground arith

pub same_key_eq : (k j : LookupKey) → same_key k j ≡ true → k ≡ j
unfolding same_key
same_key_eq k j h = ground arith

pub same_binding_eq : (a b : Binding) → same_binding a b ≡ true → a ≡ b
unfolding same_binding same_endpoint
same_binding_eq a b h = ground arith

pub same_binding_refl : (a : Binding) → same_binding a a ≡ true
unfolding same_binding same_endpoint
same_binding_refl a = ground arith

-- What passes a filter keeps its properties, and satisfies the test.
pub All-keep {ℓ κ} :
    {A : Type ℓ} (P : A → Type κ) (p : A → Bool) (xs : List A) → All P xs → All P (keep p xs)
unfolding keep
All-keep P p [] h = tt
All-keep P p (x ∷ xs) h = elim (Bool-cases (p x)) [
  | inl e ↦ rw e (h.0, All-keep P p xs h.1)
  | inr e ↦ rw e (All-keep P p xs h.1)
]

pub All-keep_both {ℓ κ ι} :
    {A : Type ℓ} (P : A → Type κ) (Q : A → Type ι) (p : A → Bool) (xs : List A)
    → ((x : A) → p x ≡ true → P x → Q x)
    → All P xs
    → All Q (keep p xs)
unfolding keep
All-keep_both P Q p [] f h = tt
All-keep_both P Q p (x ∷ xs) f h = elim (Bool-cases (p x)) [
  | inl e ↦ rw e (f x e h.0, All-keep_both P Q p xs f h.1)
  | inr e ↦ rw e (All-keep_both P Q p xs f h.1)
]

pub count_key-keep :
    (k : LookupKey) (p : Entry → Bool) (es : List Entry) → count_key k (keep p es) ≤ count_key k es
unfolding count_key keep
count_key-keep k p [] = omega arith
count_key-keep k p (e ∷ es) = ground (arith, count_key-keep k p es)

-- The entries under a key that are not of the session `id`.
unfoldable pub others : LookupKey → ℕ → List Entry → ℕ
others k id [] = 0
others k id (e ∷ es) = (if same_key k e.key && not (e.id == id) then 1 else 0) + others k id es

pub others-le-count_key :
    (k : LookupKey) (id : ℕ) (es : List Entry) → others k id es ≤ count_key k es
unfolding others count_key
others-le-count_key k id [] = omega arith
others-le-count_key k id (e ∷ es) = ground (arith, others-le-count_key k id es)

abbrev without : LookupKey → ℕ → List Entry → List Entry
without k id = keep (λ e. not (e.id == id && same_key k e.key))

others-without :
    (k j : LookupKey) (id : ℕ) (es : List Entry) → others k id (without j id es) ≡ others k id es
unfolding others keep
others-without k j id [] = refl
others-without k j id (e ∷ es) = ground (arith, others-without k j id es)

count_key-without :
    (k : LookupKey) (id : ℕ) (es : List Entry) → count_key k (without k id es) ≡ others k id es
unfolding others keep count_key
count_key-without k id [] = refl
count_key-without k id (e ∷ es) = ground (arith, count_key-without k id es)

pub others-put :
    (k j : LookupKey) (id : ℕ) (b : Binding) (es : List Entry)
    → others k id (put j id b es) ≡ others k id es
unfolding others put
others-put k j id b es = ground (arith, others-without k j id es)

pub count_key-put :
    (k : LookupKey) (id : ℕ) (b : Binding) (es : List Entry)
    → count_key k (put k id b es) ≡ others k id es + 1
unfolding count_key put
count_key-put k id b es = ground (arith, same_key_refl k, count_key-without k id es)

pub count_key-put_ne :
    (k j : LookupKey) (id : ℕ) (b : Binding) (es : List Entry)
    → same_key k j ≡ false
    → count_key k (put j id b es) ≤ count_key k es
unfolding count_key put
count_key-put_ne k j id b es h =
    ground (arith, count_key-keep k (λ (e : Entry). not (e.id == id && same_key j e.key)) es)

-- The bindings of a session that stand under the key `k` leave room for one entry more.
abbrev Roomy : LookupKey → ℕ → ℕ → List Binding → Type 0
Roomy k peer o = All (λ b. same_key k (key_of b peer) ≡ true → o + 1 ≤ max_peer_sessions)

has_room-Roomy :
    (k : LookupKey) (id : ℕ) (bs : List Binding) (peer : ℕ) (es : List Entry)
    → has_room bs peer es ≡ true
    → Roomy k peer (others k id es) bs
unfolding has_room
has_room-Roomy k id [] peer es h = tt
has_room-Roomy k id (b ∷ bs) peer es h = (
  λ e.
      let same : k ≡ key_of b peer = same_key_eq k (key_of b peer) e in
      let le = others-le-count_key k id es in
      let room : count_key (key_of b peer) es + 1 ≤ max_peer_sessions = ground arith in
      let here : count_key k es + 1 ≤ max_peer_sessions = rw same room in omega (arith, le, here),
  has_room-Roomy k id bs peer es (ground arith),
)

put_all-Roomy :
    (k : LookupKey) (id : ℕ) (bs : List Binding) (peer o : ℕ) (es : List Entry)
    → others k id es ≡ o
    → Roomy k peer o bs
    → count_key k es ≤ max_peer_sessions
    → count_key k (put_all id bs peer es) ≤ max_peer_sessions
unfolding put_all
put_all-Roomy k id [] peer o es e f h = h
put_all-Roomy k id (b ∷ bs) peer o es e f h =
    let j = key_of b peer in
    put_all-Roomy k id bs peer o (put j id b es) (others-put k j id b es ∙ e) f.1
      (elim (Bool-cases (same_key k j)) [
        | inl same ↦
            let k' : k ≡ j = same_key_eq k j same in
            let full = f.0 same in rw (← k') (rw (count_key-put k id b es) (rw e full))
        | inr ne ↦ omega (arith, count_key-put_ne k j id b es ne, h)
      ])

-- A session whose bindings all have room leaves every key within its bound.
pub put_all-bounded :
    (k : LookupKey) (id : ℕ) (bs : List Binding) (peer : ℕ) (es : List Entry)
    → has_room bs peer es ≡ true
    → count_key k es ≤ max_peer_sessions
    → count_key k (put_all id bs peer es) ≤ max_peer_sessions
put_all-bounded k id bs peer es room h =
    put_all-Roomy k id bs peer (others k id es) es refl (has_room-Roomy k id bs peer es room) h

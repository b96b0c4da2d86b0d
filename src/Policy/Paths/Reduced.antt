-- ===== src/Policy/Paths/Reduced.antt =====
-- The dot segments of a path, taken out one at a time and in any order, and what the loop of `Paths`
-- (internal/policy/match.go) makes of them.
use traffic_forwarding_panel.Prelude.{
  ◌≡◌, ◌≢◌, refl, sym, ap, ◌∙◌, ◌⊎◌, inl, inr, false, List, [], ◌∷◌, ◌++◌, All, arith, Bool-cases,
  true_ne_false,
}
use traffic_forwarding_panel.Policy.Path.{Bytes}
use traffic_forwarding_panel.Policy.Paths.{dot, dot_dot, same_bytes, drop_last, step, resolve}
use traffic_forwarding_panel.Policy.Hosts.Wildcard.{same_bytes_eq, same_bytes_refl}
use traffic_forwarding_panel.Policy.Paths.Canonical.{
  IsName, AllNames, resolve-AllNames, resolve-append, step-IsName, snoc_append, append_nil,
}

-- A segment that names an entry of a directory.
abbrev pub IsEntry : Bytes → Type 0
IsEntry w = (w ≢ []) × (w ≢ dot) × (w ≢ dot_dot)

-- Empty segments and "." may go, ".." goes with the entry before it, and alone at the root.
pub data Reduces : List Bytes → List Bytes → Type 0 where
  reduced : (ws : List Bytes) → All IsEntry ws → Reduces ws ws
  empty :
      (before after ws : List Bytes)
      → Reduces (before ++ after) ws
      → Reduces (before ++ [] ∷ after) ws
  current :
      (before after ws : List Bytes)
      → Reduces (before ++ after) ws
      → Reduces (before ++ dot ∷ after) ws
  up :
      (before after ws : List Bytes) (w : Bytes)
      → IsEntry w
      → Reduces (before ++ after) ws
      → Reduces (before ++ w ∷ dot_dot ∷ after) ws
  root : (after ws : List Bytes) → Reduces after ws → Reduces (dot_dot ∷ after) ws

differs : (s t : Bytes) → s ≢ t → same_bytes s t ≡ false
differs s t ne = elim (Bool-cases (same_bytes s t)) [
  | inl same ↦ absurd (ne (same_bytes_eq s t same))
  | inr other ↦ other
]

not_same : (s t : Bytes) → same_bytes s t ≡ false → s ≢ t
not_same s t other e =
    true_ne_false (sym (same_bytes_refl t) ∙ ap (λ x. same_bytes x t) (sym e) ∙ other)

IsEntry-IsName : (w : Bytes) → IsEntry w → IsName w
IsEntry-IsName w h =
    let e = differs w [] h.0 in let d = differs w dot h.1 in (rw (e, d) refl, differs w dot_dot h.2)

IsName-IsEntry : (w : Bytes) → IsName w → IsEntry w
IsName-IsEntry w h = (
  not_same w [] (ground (arith, h.0)),
  not_same w dot (ground (arith, h.0)),
  not_same w dot_dot h.1,
)

entries : (ws : List Bytes) → AllNames ws → All IsEntry ws
entries [] h = tt
entries (w ∷ ws) h = (IsName-IsEntry w h.0, entries ws h.1)

names : (ws : List Bytes) → All IsEntry ws → AllNames ws
names [] h = tt
names (w ∷ ws) h = (IsEntry-IsName w h.0, names ws h.1)

resolve_both : (ws ps qs : List Bytes) → resolve ws (ps ++ qs) ≡ resolve (resolve ws ps) qs
unfolding resolve
resolve_both ws [] qs = refl
resolve_both ws (p ∷ ps) qs = resolve_both (step ws p) ps qs

drop_last_snoc : (ws : List Bytes) (w : Bytes) → drop_last (ws ++ w ∷ []) ≡ ws
unfolding drop_last
drop_last_snoc [] w = refl
drop_last_snoc (v ∷ []) w = refl
drop_last_snoc (v ∷ u ∷ ws) w = ap (λ vs. v ∷ vs) (drop_last_snoc (u ∷ ws) w)

-- A segment that `step` passes over may as well not be there.
skipped :
    (before after : List Bytes) (p : Bytes)
    → ((ws : List Bytes) → step ws p ≡ ws)
    → resolve [] (before ++ p ∷ after) ≡ resolve [] (before ++ after)
unfolding resolve
skipped before after p idle =
    resolve_both [] before (p ∷ after)
    ∙ ap (λ ws. resolve ws after) (idle (resolve [] before))
    ∙ sym (resolve_both [] before after)

step_up : (ws : List Bytes) (w : Bytes) → IsEntry w → step (step ws w) dot_dot ≡ ws
unfolding step same_bytes
step_up ws w h =
    ap (λ vs. step vs dot_dot) (step-IsName ws w (IsEntry-IsName w h)) ∙ drop_last_snoc ws w

went_up :
    (before after : List Bytes) (w : Bytes)
    → IsEntry w
    → resolve [] (before ++ w ∷ dot_dot ∷ after) ≡ resolve [] (before ++ after)
unfolding resolve
went_up before after w h =
    resolve_both [] before (w ∷ dot_dot ∷ after)
    ∙ ap (λ ws. resolve ws after) (step_up (resolve [] before) w h)
    ∙ sym (resolve_both [] before after)

-- Whatever the order, what is left is what the loop leaves.
pub Reduces-resolve : (ps ws : List Bytes) → Reduces ps ws → resolve [] ps ≡ ws
unfolding resolve step same_bytes drop_last
Reduces-resolve ps _ (reduced ws h) = resolve-append [] ws (names ws h)
Reduces-resolve _ ws (empty before after _ h) =
    skipped before after [] (λ vs. refl) ∙ Reduces-resolve (before ++ after) ws h
Reduces-resolve _ ws (current before after _ h) =
    skipped before after dot (λ vs. refl) ∙ Reduces-resolve (before ++ after) ws h
Reduces-resolve _ ws (up before after _ w e h) =
    went_up before after w e ∙ Reduces-resolve (before ++ after) ws h
Reduces-resolve _ ws (root after _ h) = Reduces-resolve after ws h

segment-cases : (p : Bytes) → (p ≡ []) ⊎ (p ≡ dot) ⊎ (p ≡ dot_dot) ⊎ IsEntry p
segment-cases p = elim (Bool-cases (same_bytes p [])) [
  | inl e ↦ inl (same_bytes_eq p [] e)
  | inr e ↦ elim (Bool-cases (same_bytes p dot)) [
    | inl d ↦ inr (inl (same_bytes_eq p dot d))
    | inr d ↦ elim (Bool-cases (same_bytes p dot_dot)) [
      | inl u ↦ inr (inr (inl (same_bytes_eq p dot_dot u)))
      | inr u ↦ inr (inr (inr (not_same p [] e, not_same p dot d, not_same p dot_dot u)))
    ]
  ]
]

last-cases :
    (ws : List Bytes) → (ws ≡ []) ⊎ ((init : List Bytes) × (w : Bytes) × (ws ≡ init ++ w ∷ []))
last-cases [] = inl refl
last-cases (w ∷ ws) = elim (last-cases ws) [
  | inl e ↦ inr ([], w, ap (λ vs. w ∷ vs) e)
  | inr (init, v, e) ↦ inr (w ∷ init, v, ap (λ vs. w ∷ vs) e)
]

All-snoc : (ws : List Bytes) (w : Bytes) → All IsEntry (ws ++ w ∷ []) → All IsEntry ws × IsEntry w
All-snoc [] w h = (tt, h.0)
All-snoc (v ∷ ws) w h = let (all, last) = All-snoc ws w h.1 in ((h.0, all), last)

snoc-All : (ws : List Bytes) (w : Bytes) → All IsEntry ws → IsEntry w → All IsEntry (ws ++ w ∷ [])
snoc-All [] w h e = (e, tt)
snoc-All (v ∷ ws) w h e = (h.0, snoc-All ws w h.1 e)

-- What the loop leaves can be reached by taking segments out.
pub resolve-Reduces : (acc ps : List Bytes) → All IsEntry acc → Reduces (acc ++ ps) (resolve acc ps)
unfolding resolve step same_bytes drop_last
resolve-Reduces acc [] h = rw (append_nil acc) (reduced acc h)
resolve-Reduces acc (p ∷ ps) h = elim (segment-cases p) [
  | inl e ↦ rw e (empty acc ps _ (resolve-Reduces acc ps h))
  | inr (inl e) ↦ rw e (current acc ps _ (resolve-Reduces acc ps h))
  | inr (inr (inl e)) ↦ elim (last-cases acc) [
    | inl none_there ↦ rw (e, none_there) (root ps _ (resolve-Reduces [] ps tt))
    | inr (init, w, last) ↦
        let (all, entry) = All-snoc init w (rw last at h) in
        rw (e, last, drop_last_snoc init w, snoc_append init (dot_dot ∷ ps) w)
          (up init ps _ w entry (resolve-Reduces init ps all))
  ]
  | inr (inr (inr entry)) ↦
      rw (step-IsName acc p (IsEntry-IsName p entry), sym (snoc_append acc ps p))
        (resolve-Reduces (acc ++ p ∷ []) ps (snoc-All acc p h entry))
]

pub resolve-entries : (ps : List Bytes) → All IsEntry (resolve [] ps)
resolve-entries ps = entries (resolve [] ps) (resolve-AllNames ps)

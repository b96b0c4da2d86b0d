-- ===== src/Policy/Paths/Canonical.antt =====
-- The segments of a path after `Paths` of internal/policy/match.go has resolved them.
use traffic_forwarding_panel.Prelude.{
  ◌≡◌, refl, sym, ap, ◌∙◌, false, ◌||◌, List, [], ◌∷◌, ◌++◌, Bool-cases, inl, inr,
}
use traffic_forwarding_panel.Policy.Path.{Bytes}
use traffic_forwarding_panel.Policy.Paths.{dot, dot_dot, same_bytes, drop_last, step, resolve}

-- A segment that names an entry: it is not empty, not "." and not "..".
abbrev pub IsName : Bytes → Type 0
IsName p = ((same_bytes p [] || same_bytes p dot) ≡ false) × (same_bytes p dot_dot ≡ false)

abbrev pub AllNames : List Bytes → Type 0
AllNames [] = Unit {0}
AllNames (p ∷ ps) = IsName p × AllNames ps

drop_last-AllNames : (ws : List Bytes) → AllNames ws → AllNames (drop_last ws)
unfolding drop_last
drop_last-AllNames [] h = tt
drop_last-AllNames (w ∷ []) h = tt
drop_last-AllNames (w ∷ v ∷ ws) h = (h.0, drop_last-AllNames (v ∷ ws) h.1)

snoc-AllNames : (ws : List Bytes) (p : Bytes) → AllNames ws → IsName p → AllNames (ws ++ p ∷ [])
snoc-AllNames [] p h n = (n, tt)
snoc-AllNames (w ∷ ws) p h n = (h.0, snoc-AllNames ws p h.1 n)

step-AllNames : (ws : List Bytes) (p : Bytes) → AllNames ws → AllNames (step ws p)
unfolding step
step-AllNames ws p h = elim (Bool-cases (same_bytes p [] || same_bytes p dot)) [
  | inl e ↦ rw e h
  | inr e ↦ elim (Bool-cases (same_bytes p dot_dot)) [
    | inl d ↦ rw (e, d) (drop_last-AllNames ws h)
    | inr d ↦ rw (e, d) (snoc-AllNames ws p h (e, d))
  ]
]

resolve_from : (ws ps : List Bytes) → AllNames ws → AllNames (resolve ws ps)
unfolding resolve
resolve_from ws [] h = h
resolve_from ws (p ∷ ps) h = resolve_from (step ws p) ps (step-AllNames ws p h)

-- Whatever segments a path has, after resolution each is a name: none is empty, "." or "..".
pub resolve-AllNames : (ps : List Bytes) → AllNames (resolve [] ps)
resolve-AllNames ps = resolve_from [] ps tt

pub append_nil : (ws : List Bytes) → ws ++ [] ≡ ws
append_nil [] = refl
append_nil (w ∷ ws) = ap (λ vs. w ∷ vs) (append_nil ws)

pub snoc_append : (ws ps : List Bytes) (p : Bytes) → (ws ++ p ∷ []) ++ ps ≡ ws ++ p ∷ ps
snoc_append [] ps p = refl
snoc_append (w ∷ ws) ps p = ap (λ vs. w ∷ vs) (snoc_append ws ps p)

pub step-IsName : (ws : List Bytes) (p : Bytes) → IsName p → step ws p ≡ ws ++ p ∷ []
unfolding step
step-IsName ws p h = rw (h.0, h.1) refl

pub resolve-append : (ws ps : List Bytes) → AllNames ps → resolve ws ps ≡ ws ++ ps
unfolding resolve
resolve-append ws [] h = sym (append_nil ws)
resolve-append ws (p ∷ ps) h =
    ap (λ vs. resolve vs ps) (step-IsName ws p h.0)
    ∙ resolve-append (ws ++ p ∷ []) ps h.1
    ∙ snoc_append ws ps p

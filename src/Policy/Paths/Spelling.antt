-- ===== src/Policy/Paths/Spelling.antt =====
-- What the canonical spelling of internal/policy/match.go is, for every decoded path.
use traffic_forwarding_panel.Prelude.{
  ℕ, Bool, ◌≢◌, ◌↔◌, sym, if◌then◌else◌, ◌≡◌, refl, ap, ◌∙◌, false, ◌||◌, List, [], ◌∷◌, ◌++◌,
  arith, ◌==◌, Bool-cases, inl, inr, All,
}
use traffic_forwarding_panel.Policy.Path.{Bytes}
use traffic_forwarding_panel.Policy.Paths.{
  slash, dot, dot_dot, same_bytes, contains, extend, split, join, drop_last, step, resolve,
  canonical, ends,
}
use traffic_forwarding_panel.Policy.Paths.Reduced.{
  IsEntry, Reduces, Reduces-resolve, resolve-Reduces, resolve-entries,
}

abbrev pub NoSlash : Bytes → Type 0
NoSlash w = contains slash w ≡ false

drop_last-NoSlash : (ws : List Bytes) → All NoSlash ws → All NoSlash (drop_last ws)
unfolding drop_last
drop_last-NoSlash [] h = tt
drop_last-NoSlash (w ∷ []) h = tt
drop_last-NoSlash (w ∷ v ∷ ws) h = (h.0, drop_last-NoSlash (v ∷ ws) h.1)

append-NoSlash :
    (ws : List Bytes) (p : Bytes) → All NoSlash ws → NoSlash p → All NoSlash (ws ++ p ∷ [])
append-NoSlash [] p h n = (n, tt)
append-NoSlash (w ∷ ws) p h n = (h.0, append-NoSlash ws p h.1 n)

step-NoSlash : (ws : List Bytes) (p : Bytes) → All NoSlash ws → NoSlash p → All NoSlash (step ws p)
unfolding step
step-NoSlash ws p h n = elim (Bool-cases (same_bytes p [] || same_bytes p dot)) [
  | inl e ↦ rw e h
  | inr e ↦ elim (Bool-cases (same_bytes p dot_dot)) [
    | inl d ↦ rw (e, d) (drop_last-NoSlash ws h)
    | inr d ↦ rw (e, d) (append-NoSlash ws p h n)
  ]
]

resolve-NoSlash :
    (ws ps : List Bytes) → All NoSlash ws → All NoSlash ps → All NoSlash (resolve ws ps)
unfolding resolve
resolve-NoSlash ws [] h n = h
resolve-NoSlash ws (p ∷ ps) h n = resolve-NoSlash (step ws p) ps (step-NoSlash ws p h n.0) n.1

extend-NoSlash :
    (c : ℕ) (ws : List Bytes) → (c == slash) ≡ false → All NoSlash ws → All NoSlash (extend c ws)
unfolding contains
extend-NoSlash c [] e h = (ground arith, tt)
extend-NoSlash c (w ∷ ws) e h = (ground (arith, h.0), h.1)

split-NoSlash : (s : Bytes) → All NoSlash (split s)
unfolding split contains
split-NoSlash [] = (refl, tt)
split-NoSlash (c ∷ s) = elim (Bool-cases (c == slash)) [
  | inl e ↦ rw e (refl, split-NoSlash s)
  | inr e ↦ rw e (extend-NoSlash c (split s) e (split-NoSlash s))
]

-- Splitting what begins with a word and a slash.
split_word : (w s : Bytes) → NoSlash w → split (w ++ slash ∷ s) ≡ w ∷ split s
unfolding split contains
split_word [] s h = refl
split_word (c ∷ w) s h =
    let e : (c == slash) ≡ false = ground arith in
    let n : NoSlash w = ground arith in rw (e, split_word w s n) refl

split_last : (w : Bytes) → NoSlash w → split w ≡ w ∷ []
unfolding split contains
split_last [] h = refl
split_last (c ∷ w) h =
    let e : (c == slash) ≡ false = ground arith in
    let n : NoSlash w = ground arith in rw (e, split_last w n) refl

split-join : (w : Bytes) (ws : List Bytes) → All NoSlash (w ∷ ws) → split (join (w ∷ ws)) ≡ w ∷ ws
unfolding join
split-join w [] h = split_last w h.0
split-join w (v ∷ ws) h = split_word w (join (v ∷ ws)) h.0 ∙ ap (λ vs. w ∷ vs) (split-join v ws h.1)

split-cons : (s : Bytes) → (w : Bytes) × (ws : List Bytes) × (split s ≡ w ∷ ws)
unfolding split
split-cons [] = ([], [], refl)
split-cons (c ∷ s) =
    let (w, ws, e) = split-cons s in
    elim (Bool-cases (c == slash)) [
      | inl cut ↦ ([], split s, rw cut refl)
      | inr more ↦ (c ∷ w, ws, rw (more, e) refl)
    ]

join-extend : (c : ℕ) (w : Bytes) (ws : List Bytes) → join (extend c (w ∷ ws)) ≡ c ∷ join (w ∷ ws)
unfolding join
join-extend c w [] = refl
join-extend c w (v ∷ ws) = refl

join-split : (s : Bytes) → join (split s) ≡ s
unfolding split join
join-split [] = refl
join-split (c ∷ s) =
    let (w, ws, e) = split-cons s in
    let again : join (w ∷ ws) ≡ s = ap join (sym e) ∙ join-split s in
    elim (Bool-cases (c == slash)) [
      | inl cut ↦
          let same : c ≡ slash = ground (arith, cut) in
          rw (cut, e, same) (ap (λ t. slash ∷ t) again)
      | inr more ↦ rw (more, e) (join-extend c w ws ∙ ap (λ t. c ∷ t) again)
    ]

-- "/", or each entry after a slash, with one more slash at the end of a path that ended in one.
unfoldable pub spelling : List Bytes → Bool → Bytes
spelling [] closed = slash ∷ []
spelling (w ∷ ws) closed = slash ∷ join (w ∷ ws) ++ (if closed then slash ∷ [] else [])

bytes_nil : (s : Bytes) → s ++ [] ≡ s
bytes_nil [] = refl
bytes_nil (c ∷ s) = ap (λ t. c ∷ t) (bytes_nil s)

longer :
    (w : Bytes) (ws : List Bytes) → w ≢ [] → same_bytes (slash ∷ join (w ∷ ws)) (slash ∷ []) ≡ false
unfolding same_bytes join
longer [] ws ne = absurd (ne refl)
longer (c ∷ w) [] ne = refl
longer (c ∷ w) (v ∷ ws) ne = refl

canonical-spelling :
    (decoded : Bytes) (ws : List Bytes)
    → resolve [] (split decoded) ≡ ws
    → All IsEntry ws
    → canonical decoded ≡ spelling ws (ends decoded)
unfolding canonical spelling same_bytes join
canonical-spelling decoded [] e h = elim (Bool-cases (ends decoded)) [
  | inl closed ↦ rw (e, closed) refl
  | inr no_end ↦ rw (e, no_end) refl
]
canonical-spelling decoded (w ∷ ws) e h = elim (Bool-cases (ends decoded)) [
  | inl closed ↦ rw (e, closed, longer w ws h.0.0) refl
  | inr no_end ↦ rw (e, no_end) (sym (bytes_nil (slash ∷ join (w ∷ ws))))
]

-- `s` spells what is left of the segments between the slashes of a path when the dot segments are
-- taken out.
pub record IsCanonical (decoded s : Bytes) : Type 0 where
  pub first : Bytes
  pub rest : List Bytes
  pub kept : List Bytes
  pub parts : join (first ∷ rest) ≡ decoded
  pub between : All NoSlash (first ∷ rest)
  pub reduces : Reduces (first ∷ rest) kept
  pub entries : All IsEntry kept
  pub apart : All NoSlash kept
  pub spelled : s ≡ spelling kept (ends decoded)

-- The canonical spelling of a decoded path is the one text that spells what is left of its segments
-- when empty segments, "." and ".." with the entry before it, or at the root alone, are taken out in
-- any order: "/" where nothing is left, and else each entry after one slash, with a slash at the end
-- exactly where the path has one. What is left are entries: none is empty, "." or "..", and none
-- has a slash.
pub canonical_iff : (decoded s : Bytes) → (canonical decoded ≡ s) ↔ IsCanonical decoded s
canonical_iff decoded s =
    let ws = resolve [] (split decoded) in
    let h = resolve-entries (split decoded) in
    let (first, rest, cut) = split-cons decoded in
    (
      λ e. record {
        first = first;
        rest = rest;
        kept = ws;
        parts = ap join (sym cut) ∙ join-split decoded;
        between = rw cut at (split-NoSlash decoded);
        reduces = rw cut (resolve-Reduces [] (first ∷ rest) tt);
        entries = h;
        apart = resolve-NoSlash [] (split decoded) tt (split-NoSlash decoded);
        spelled = sym e ∙ canonical-spelling decoded ws refl h;
      },
      λ c.
          let parted = ap split (sym c.parts) ∙ split-join c.first c.rest c.between in
          let left = ap (resolve []) parted ∙ Reduces-resolve (c.first ∷ c.rest) c.kept c.reduces in
          canonical-spelling decoded c.kept left c.entries ∙ sym c.spelled,
    )

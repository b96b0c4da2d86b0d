-- ===== src/Policy/Hosts/Wildcard.antt =====
-- Which hosts a pattern stands for, and `MatchHost` of internal/policy/match.go.
use traffic_forwarding_panel.Prelude.{
  ◌-◌, ◌<◌, ◌≡◌, ◌≢◌, ◌↔◌, inl, inr, refl, ap, true, ◌&&◌, none, some, [], ◌∷◌, ◌++◌, length,
  length-append, arith, ltb, Bool-cases, Option-cases,
}
use traffic_forwarding_panel.Policy.Path.{Bytes}
use traffic_forwarding_panel.Policy.Paths.{same_bytes}
use traffic_forwarding_panel.Policy.Hosts.{full_stop, asterisk, wildcard, has_suffix, match_host}

-- "*.d" stands for every host that ends in ".d" after at least one byte, and a pattern without that
-- prefix for itself.
pub data StandsFor : Bytes → Bytes → Type 0 where
  below :
      (pattern d w h : Bytes)
      → pattern ≡ asterisk ∷ full_stop ∷ d
      → w ≢ []
      → h ≡ w ++ full_stop ∷ d
      → StandsFor pattern h
  itself : (pattern h : Bytes) → wildcard pattern ≡ none → pattern ≡ h → StandsFor pattern h

pub same_bytes_eq : (s t : Bytes) → same_bytes s t ≡ true → s ≡ t
unfolding same_bytes
same_bytes_eq [] [] h = refl
same_bytes_eq [] (y ∷ t) h = cc
same_bytes_eq (x ∷ s) [] h = cc
same_bytes_eq (x ∷ s) (y ∷ t) h = ground (arith, same_bytes_eq s t)

pub same_bytes_refl : (s : Bytes) → same_bytes s s ≡ true
unfolding same_bytes
same_bytes_refl [] = refl
same_bytes_refl (x ∷ s) = ground (arith, same_bytes_refl s)

has_suffix_split : (h t : Bytes) → has_suffix h t ≡ true → (w : Bytes) × (h ≡ w ++ t)
unfolding has_suffix
has_suffix_split [] t e = ([], same_bytes_eq [] t e)
has_suffix_split (c ∷ s) t e = elim (Bool-cases (same_bytes (c ∷ s) t)) [
  | inl same ↦ ([], same_bytes_eq (c ∷ s) t same)
  | inr ne ↦ let (w, f) = has_suffix_split s t (rw ne at e) in (c ∷ w, ap (λ v. c ∷ v) f)
]

has_suffix-append : (w t : Bytes) → has_suffix (w ++ t) t ≡ true
unfolding has_suffix same_bytes
has_suffix-append [] [] = refl
has_suffix-append [] (c ∷ t) = rw (same_bytes_refl (c ∷ t))
has_suffix-append (c ∷ w) t = ground (arith, has_suffix-append w t)

wildcard-some : (p d : Bytes) → wildcard p ≡ some d → p ≡ asterisk ∷ full_stop ∷ d
unfolding wildcard
wildcard-some [] d h = cc
wildcard-some (a ∷ []) d h = cc
wildcard-some (a ∷ b ∷ s) d h = ground arith

not_empty :
    (pattern d w h : Bytes)
    → pattern ≡ asterisk ∷ full_stop ∷ d
    → h ≡ w ++ full_stop ∷ d
    → length pattern - 1 < length h
    → w ≢ []
not_empty pattern d w h p f lt e =
    let short : h ≡ full_stop ∷ d = rw e at f in
    absurd (omega (arith, ap length p, ap length short))

StandsFor-match_host : {pattern h : Bytes} → StandsFor pattern h → match_host pattern h ≡ true
unfolding match_host wildcard
StandsFor-match_host (below pattern d [] h p ne f) = absurd (ne refl)
StandsFor-match_host (below pattern d (c ∷ w) h p ne f) =
    rw (p, f, has_suffix-append (c ∷ w) (full_stop ∷ d))
      (ground (arith, length-append w (full_stop ∷ d)))
StandsFor-match_host (itself pattern h plain e) = rw (plain, match_host) (rw e (same_bytes_refl h))

-- `MatchHost` accepts exactly the hosts that the pattern stands for.
pub match_host_iff : (pattern h : Bytes) → (match_host pattern h ≡ true) ↔ StandsFor pattern h
unfolding match_host
match_host_iff pattern h = (
  λ e. elim (Option-cases (wildcard pattern)) [
    | inl plain ↦ itself pattern h plain (same_bytes_eq pattern h (rw (plain, match_host) at e))
    | inr (d, wild) ↦
        let found : (has_suffix h (full_stop ∷ d) && ltb (length pattern - 1) (length h)) ≡ true =
          rw (wild, match_host) at e in
        let (w, f) = has_suffix_split h (full_stop ∷ d) (ground arith) in
        let p = wildcard-some pattern d wild in
        below pattern d w h p (not_empty pattern d w h p f (ground arith)) f
  ],
  λ s. StandsFor-match_host s,
)

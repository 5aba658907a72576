-- ===== src/Text/Split.antt =====
-- `strings.Split(s, ".")` and `strings.Join(segs, ".")`.
use ginject.Prelude.{
  ℕ, ◌≡◌, refl, sym, ◌∙◌, ◌≢◌, inl, inr, List, [], ◌∷◌, ◌++◌, arith, ◌==◌, if◌then◌else◌, ap,
  Bool-cases, append_assoc,
}
use ginject.Text.{Bytes}
use ginject.Text.{Bytes}

-- One more byte in front of the first segment.
abbrev pub onto_first : ℕ → List Bytes → List Bytes
onto_first c [] = (c ∷ []) ∷ []
onto_first c (seg ∷ segs) = (c ∷ seg) ∷ segs

-- Never empty: the empty string has one, empty, segment.
unfoldable pub split : ℕ → Bytes → List Bytes
split sep [] = [] ∷ []
split sep (c ∷ s) = let rest = split sep s in if c == sep then [] ∷ rest else onto_first c rest

unfoldable pub join : ℕ → List Bytes → Bytes
join sep [] = []
join sep (seg ∷ []) = seg
join sep (seg ∷ next ∷ segs) = seg ++ (sep ∷ join sep (next ∷ segs))

pub split-ne-nil : (sep : ℕ) (s : Bytes) → split sep s ≢ []
unfolding split
split-ne-nil sep [] = λ e. cc
split-ne-nil sep (c ∷ s) = ground (arith, split-ne-nil sep s)

join-onto_first : (sep c : ℕ) (segs : List Bytes) → join sep (onto_first c segs) ≡ c ∷ join sep segs
unfolding join
join-onto_first sep c [] = refl
join-onto_first sep c (seg ∷ []) = refl
join-onto_first sep c (seg ∷ next ∷ segs) = refl

join-nil_cons :
    (sep : ℕ) (segs : List Bytes) → segs ≢ [] → join sep ([] ∷ segs) ≡ sep ∷ join sep segs
unfolding join
join-nil_cons sep [] h = absurd (h refl)
join-nil_cons sep (seg ∷ segs) h = refl

-- Splitting loses nothing.
pub join-split : (sep : ℕ) (s : Bytes) → join sep (split sep s) ≡ s
unfolding split
join-split sep [] = unfold join in refl
join-split sep (c ∷ s) = elim (Bool-cases (c == sep)) [
  | inl e ↦
      rw e (
        rw (join-nil_cons sep (split sep s) (split-ne-nil sep s))
          (ground (arith, join-split sep s)))
  | inr e ↦ rw e (rw (join-onto_first) (rw (join-split sep s)))
]

onto_first-append :
    (c : ℕ) (xs ys : List Bytes) → xs ≢ [] → onto_first c (xs ++ ys) ≡ onto_first c xs ++ ys
onto_first-append c [] ys h = absurd (h refl)
onto_first-append c (x ∷ xs) ys h = refl

-- A separator ends the segments before it.
pub split-append : (sep : ℕ) (s t : Bytes) → split sep (s ++ (sep ∷ t)) ≡ split sep s ++ split sep t
unfolding split
split-append sep [] t = ground arith
split-append sep (c ∷ s) t = elim (Bool-cases (c == sep)) [
  | inl e ↦ rw (e, split-append sep s t) refl
  | inr e ↦
      rw (e, split-append sep s t)
        (onto_first-append c (split sep s) (split sep t) (split-ne-nil sep s))
]

pub join-append :
    (sep : ℕ) (xs ys : List Bytes)
    → xs ≢ []
    → ys ≢ []
    → join sep (xs ++ ys) ≡ join sep xs ++ (sep ∷ join sep ys)
unfolding join
join-append sep [] ys h k = absurd (h refl)
join-append sep (x ∷ xs) [] h k = absurd (k refl)
join-append sep (x ∷ []) (y ∷ ys) h k = refl
join-append sep (x ∷ x' ∷ xs) (y ∷ ys) h k =
    rw (join-append sep (x' ∷ xs) (y ∷ ys) (λ e. cc) k)
      (sym (append_assoc x (sep ∷ join sep (x' ∷ xs)) _))

pub split-injective : (sep : ℕ) (s t : Bytes) → split sep s ≡ split sep t → s ≡ t
split-injective sep s t e = sym (join-split sep s) ∙ ap (join sep) e ∙ join-split sep t

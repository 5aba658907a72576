-- ===== src/Trie/Wildcard.antt =====
-- `matchWildcard` of internal/ds/fn.go against the meaning of a route with stars.
use ginject.Prelude.{
  ℕ, ◌≡◌, refl, sym, ◌≢◌, ap, subst, inl, inr, List, [], ◌∷◌, ◌++◌, arith, ◌==◌, if◌then◌else◌,
  Bool-cases,
}
use ginject.Text.{Bytes}
use ginject.Text.Split.{split, onto_first, split-ne-nil}

-- A route means a string byte by byte, where a `*` stands for any bytes.
pub data Glob : Bytes → Bytes → Type 0 where
  done : Glob [] []
  same : {c : ℕ} {route s : Bytes} → c ≢ b'*' → Glob route s → Glob (c ∷ route) (c ∷ s)
  any : {route s : Bytes} (w : Bytes) → Glob route s → Glob (b'*' ∷ route) (w ++ s)

-- The same for the pieces between the stars.
abbrev pub Pieces : List Bytes → Bytes → Type 0
Pieces [] s = ⊥
Pieces (p ∷ []) s = s ≡ p
Pieces (p ∷ q ∷ ps) s = (w : Bytes) × (r : Bytes) × (s ≡ p ++ (w ++ r)) × Pieces (q ∷ ps) r

-- A string that a star and then the pieces mean.
abbrev pub AfterStar : List Bytes → Bytes → Type 0
AfterStar ps s = (w : Bytes) × (r : Bytes) × (s ≡ w ++ r) × Pieces ps r

Pieces-onto_first :
    (c : ℕ) (ps : List Bytes) (s : Bytes) → Pieces ps s → Pieces (onto_first c ps) (c ∷ s)
Pieces-onto_first c [] s h = absurd h
Pieces-onto_first c (p ∷ []) s h = ap (◌∷◌ c) h
Pieces-onto_first c (p ∷ q ∷ ps) s (w, r, e, h) = (w, r, ap (◌∷◌ c) e, h)

onto_first-Pieces :
    (c : ℕ) (ps : List Bytes) (s : Bytes)
    → ps ≢ []
    → Pieces (onto_first c ps) s
    → (r : Bytes) × (s ≡ c ∷ r) × Pieces ps r
onto_first-Pieces c [] s n h = absurd (n refl)
onto_first-Pieces c (p ∷ []) s n h = (p, h, refl)
onto_first-Pieces c (p ∷ q ∷ ps) s n (w, r, e, h) = (p ++ (w ++ r), e, (w, r, refl, h))

Pieces-star : (ps : List Bytes) (s : Bytes) → ps ≢ [] → AfterStar ps s → Pieces ([] ∷ ps) s
Pieces-star [] s n h = absurd (n refl)
Pieces-star (p ∷ ps) s n h = h

star-Pieces : (ps : List Bytes) (s : Bytes) → ps ≢ [] → Pieces ([] ∷ ps) s → AfterStar ps s
star-Pieces [] s n h = absurd (n refl)
star-Pieces (p ∷ ps) s n h = h

pub Glob-Pieces : {route s : Bytes} → Glob route s → Pieces (split b'*' route) s
unfolding split
Glob-Pieces done = refl
Glob-Pieces (same {c = c} {route = route} {s = s} n g) = elim (Bool-cases (c == b'*')) [
  | inl e ↦ absurd (ground arith)
  | inr e ↦ rw e (Pieces-onto_first c (split b'*' route) s (Glob-Pieces g))
]
Glob-Pieces (any {route = route} {s = s} w g) =
    Pieces-star (split b'*' route) (w ++ s) (split-ne-nil b'*' route) (w, s, refl, Glob-Pieces g)

pub Pieces-Glob : (route s : Bytes) → Pieces (split b'*' route) s → Glob route s
unfolding split
Pieces-Glob [] s h = subst (Glob []) (sym h) done
Pieces-Glob (c ∷ route) s h = elim (Bool-cases (c == b'*')) [
  | inl e ↦
      let (w, r, e', h') = star-Pieces (split b'*' route) s (split-ne-nil b'*' route) (
        subst (λ b. Pieces (if b then [] ∷ split b'*' route else onto_first c (split b'*' route)) s)
          e h) in
      let star : c ≡ b'*' = ground arith in rw (star, e') (any w (Pieces-Glob route r h'))
  | inr e ↦
      let (r, e', h') = onto_first-Pieces c (split b'*' route) s (split-ne-nil b'*' route) (
        subst (λ b. Pieces (if b then [] ∷ split b'*' route else onto_first c (split b'*' route)) s)
          e h) in
      rw e' (same (ground arith) (Pieces-Glob route r h'))
]

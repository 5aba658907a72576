-- ===== src/Pattern/Segments.antt =====
-- What a pattern means, segment by segment, next to `matchSegments` of pattern/pattern.go.
use ginject.Prelude.{
  ◌≡◌, refl, sym, ◌≢◌, ◌↔◌, inl, inr, true, false, List, [], ◌∷◌, ◌++◌, arith, Bool-cases, ap₂,
}
use ginject.Text.{Bytes, str_eq, str_eq_iff}
use ginject.Pattern.{star, has_star, is_nil, match_segments}

-- A segment `*` stands for one segment, and at the end for one or more; any other for itself.
pub data Matches : List Bytes → List Bytes → Type 0 where
  done : Matches [] []
  same :
      {seg t : Bytes} {segs topic : List Bytes}
      → seg ≡ t
      → Matches segs topic
      → Matches (seg ∷ segs) (t ∷ topic)
  one :
      {seg t : Bytes} {segs topic : List Bytes}
      → seg ≡ star
      → Matches segs topic
      → Matches (seg ∷ segs) (t ∷ topic)
  rest :
      {seg t : Bytes} {segs topic : List Bytes}
      → seg ≡ star
      → segs ≡ []
      → Matches (seg ∷ segs) (t ∷ topic)

match_segments_sound :
    (segs topic : List Bytes) → match_segments segs topic ≡ true → Matches segs topic
unfolding match_segments is_nil
match_segments_sound [] [] h = done
match_segments_sound [] (t ∷ topic) h = absurd (ground arith)
match_segments_sound (seg ∷ segs) [] h = absurd (ground arith)
match_segments_sound (seg ∷ []) (t ∷ topic) h = elim (Bool-cases (str_eq seg star)) [
  | inl e ↦ rest ((str_eq_iff seg star).0 e) refl
  | inr e ↦ elim (Bool-cases (str_eq seg t)) [
    | inl e' ↦ same ((str_eq_iff seg t).0 e') (match_segments_sound [] topic (ground arith))
    | inr e' ↦ absurd (ground arith)
  ]
]
match_segments_sound (seg ∷ next ∷ segs) (t ∷ topic) h = elim (Bool-cases (str_eq seg star)) [
  | inl e ↦
      one ((str_eq_iff seg star).0 e) (match_segments_sound (next ∷ segs) topic (ground arith))
  | inr e ↦ elim (Bool-cases (str_eq seg t)) [
    | inl e' ↦
        same ((str_eq_iff seg t).0 e') (match_segments_sound (next ∷ segs) topic (ground arith))
    | inr e' ↦ absurd (ground arith)
  ]
]

-- The loop accepts an empty topic list only where the pattern has no segment left.
match_segments_complete :
    {segs topic : List Bytes} → Matches segs topic → match_segments segs topic ≡ true
unfolding match_segments is_nil
match_segments_complete done = refl
match_segments_complete (same {seg = seg} {t = t} {segs = segs} {topic = topic} e m) =
    ground (arith, str_eq_iff seg t, match_segments_complete m)
match_segments_complete (one {seg = seg} {segs = segs} {topic = topic} e m) =
    ground (arith, str_eq_iff seg star, match_segments_complete m)
match_segments_complete (rest {seg = seg} {segs = segs} e last) =
    ground (arith, str_eq_iff seg star)

-- The loop of `matchSegments` answers true exactly on the topics that the pattern means.
pub match_segments_iff :
    (segs topic : List Bytes) → (match_segments segs topic ≡ true) ↔ Matches segs topic
match_segments_iff segs topic = (match_segments_sound segs topic, match_segments_complete)

-- Without a `*` a pattern means its own segments alone.
pub Matches-self : (segs : List Bytes) → Matches segs segs
Matches-self [] = done
Matches-self (seg ∷ segs) = same refl (Matches-self segs)

has_star-tail :
    (seg : Bytes) (segs : List Bytes)
    → has_star (seg ∷ segs) ≡ false
    → (seg ≢ star) × (has_star segs ≡ false)
unfolding has_star
has_star-tail seg segs h = (ground (arith, str_eq_iff seg star), ground arith)

pub Matches-literal :
    {segs topic : List Bytes} → has_star segs ≡ false → Matches segs topic → segs ≡ topic
Matches-literal h done = refl
Matches-literal h (same {seg = seg} {segs = segs} e m) =
    ap₂ ◌∷◌ e (Matches-literal (has_star-tail seg segs h).1 m)
Matches-literal h (one {seg = seg} {segs = segs} e m) = absurd ((has_star-tail seg segs h).0 e)
Matches-literal h (rest {seg = seg} {segs = segs} e last) = absurd ((has_star-tail seg segs h).0 e)

-- A final `*` takes what is left of the topic, one segment at least.
pub Matches-append_star :
    (segs : List Bytes) (t : Bytes) (topic : List Bytes)
    → Matches (segs ++ star ∷ []) (segs ++ t ∷ topic)
Matches-append_star [] t topic = rest refl refl
Matches-append_star (seg ∷ segs) t topic = same refl (Matches-append_star segs t topic)

pub append_star-Matches :
    (segs topic : List Bytes)
    → has_star segs ≡ false
    → Matches (segs ++ star ∷ []) topic
    → (t : Bytes) × (left : List Bytes) × (topic ≡ segs ++ t ∷ left)
append_star-Matches [] topic h m = after_star m
  where
    after_star :
        {topic' : List Bytes}
        → Matches (star ∷ []) topic'
        → (t : Bytes) × (left : List Bytes) × (topic' ≡ t ∷ left)
    after_star (same {t = t} {topic = left} e m') = (t, left, refl)
    after_star (one {t = t} {topic = left} e m') = (t, left, refl)
    after_star (rest {t = t} {topic = left} e last) = (t, left, refl)
append_star-Matches (seg ∷ segs) [] h m = elim m [ ]
append_star-Matches (seg ∷ segs) (t ∷ topic) h (same e m) =
    let (t', left, e') = append_star-Matches segs topic (has_star-tail seg segs h).1 m in
    (t', left, ap₂ ◌∷◌ (sym e) e')
append_star-Matches (seg ∷ segs) (t ∷ topic) h (one e m) = absurd ((has_star-tail seg segs h).0 e)
append_star-Matches (seg ∷ segs) (t ∷ topic) h (rest e last) =
    absurd ((has_star-tail seg segs h).0 e)

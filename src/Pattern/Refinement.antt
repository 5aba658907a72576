-- ===== src/Pattern/Refinement.antt =====
-- `NewPattern` and `Match` of pattern/pattern.go, next to the meaning of the segments.
use ginject.Prelude.{
  ◌≡◌, refl, sym, ◌∙◌, ◌≢◌, ◌↔◌, inl, inr, true, false, List, [], ◌∷◌, ◌++◌, arith, ltb, length,
  length-append, Bool-cases, ap, append_assoc,
}
use ginject.Text.{Bytes, str_eq, str_eq_iff, has_prefix_iff}
use ginject.Text.Split.{
  split, join, join-split, split-append, join-append, split-injective, split-ne-nil,
}
use ginject.Pattern.{
  Kind, exact, global, suffix_wildcard, Pattern, dot, star, has_star, init, ends_in_star, is_suffix,
  new_pattern, match_kind, match,
}
use ginject.Pattern.Segments.{
  Matches, match_segments_iff, Matches-self, Matches-literal, Matches-append_star,
  append_star-Matches,
}

-- Segments of which the last is `*` are those before it and `*`.
init-append_star : (segs : List Bytes) → ends_in_star segs ≡ true → segs ≡ init segs ++ star ∷ []
unfolding init ends_in_star
init-append_star [] h = absurd (ground arith)
init-append_star (seg ∷ []) h = ap (λ s. s ∷ []) ((str_eq_iff seg star).0 h)
init-append_star (seg ∷ next ∷ segs) h = ap (◌∷◌ seg) (init-append_star (next ∷ segs) h)

init-ne-nil : (segs : List Bytes) → ltb 1 (length segs) ≡ true → init segs ≢ []
unfolding init
init-ne-nil [] h = absurd (ground arith)
init-ne-nil (seg ∷ []) h = absurd (ground arith)
init-ne-nil (seg ∷ next ∷ segs) h = λ e. cc

-- A pattern of the suffix kind is `prefix.*`, and its segments are those of the prefix and `*`.
record IsSuffix (raw prefix : Bytes) : Type 0 where
  whole : split dot raw ≡ split dot prefix ++ star ∷ []
  plain : has_star (split dot prefix) ≡ false

split-star : split dot star ≡ star ∷ []
unfolding split
split-star = refl

init-append_last : (segs : List Bytes) (last : Bytes) → init (segs ++ last ∷ []) ≡ segs
unfolding init
init-append_last [] last = refl
init-append_last (seg ∷ []) last = refl
init-append_last (seg ∷ next ∷ segs) last = ap (◌∷◌ seg) (init-append_last (next ∷ segs) last)

raw-prefix :
    (raw : Bytes)
    → init (split dot raw) ≢ []
    → ends_in_star (split dot raw) ≡ true
    → raw ≡ join dot (init (split dot raw)) ++ (dot ∷ star)
unfolding join
raw-prefix raw h k =
    sym (join-split dot raw)
    ∙ ap (join dot) (init-append_star (split dot raw) k)
    ∙ (join-append dot (init (split dot raw)) (star ∷ []) h (λ e. cc))

split-prefix :
    (raw prefix : Bytes)
    → raw ≡ prefix ++ (dot ∷ star)
    → split dot raw ≡ split dot prefix ++ star ∷ []
split-prefix raw prefix e =
    ap (split dot) e ∙ split-append dot prefix star ∙ ap (λ s. split dot prefix ++ s) split-star

is_suffix-parts :
    (segs : List Bytes)
    → is_suffix segs ≡ true
    → (ltb 1 (length segs) ≡ true) × (ends_in_star segs ≡ true) × (has_star (init segs) ≡ false)
unfolding is_suffix
is_suffix-parts segs h = ground arith

is_suffix-IsSuffix :
    (raw : Bytes)
    → is_suffix (split dot raw) ≡ true
    → IsSuffix raw (join dot (init (split dot raw)))
is_suffix-IsSuffix raw h =
    let segs = split dot raw in
    let prefix = join dot (init segs) in
    let (long, ends, plain) = is_suffix-parts segs h in
    let whole = split-prefix raw prefix (raw-prefix raw (init-ne-nil segs long) ends) in
    let same_init : split dot prefix ≡ init segs =
      sym (init-append_last (split dot prefix) star) ∙ ap init (sym whole) in
    record { whole = whole; plain = rw same_init plain }

-- The suffix kind means: the prefix, a dot, and anything.
suffix_meaning :
    (raw prefix topic : Bytes)
    → IsSuffix raw prefix
    → Matches (split dot raw) (split dot topic) ↔ ((r : Bytes) × (topic ≡ prefix ++ (dot ∷ r)))
suffix_meaning raw prefix topic s = (to, from)
  where
    segs : List Bytes
    segs = split dot prefix

    to : Matches (split dot raw) (split dot topic) → (r : Bytes) × (topic ≡ prefix ++ (dot ∷ r))
    to m =
        let (t, left, e) = append_star-Matches segs (split dot topic) s.plain (rw s.whole at m) in
        (
          join dot (t ∷ left),
          sym (join-split dot topic)
              ∙ ap (join dot) e
              ∙ (join-append dot segs (t ∷ left) (split-ne-nil dot prefix) (λ e'. cc))
              ∙ ap (λ p. p ++ (dot ∷ join dot (t ∷ left))) (join-split dot prefix),
        )

    starts : (ts : List Bytes) → ts ≢ [] → Matches (segs ++ star ∷ []) (segs ++ ts)
    starts [] h = absurd (h refl)
    starts (t ∷ ts) h = Matches-append_star segs t ts

    from : ((r : Bytes) × (topic ≡ prefix ++ (dot ∷ r))) → Matches (split dot raw) (split dot topic)
    from (r, e) =
        rw (e, s.whole, split-append dot prefix r) (starts (split dot r) (split-ne-nil dot r))

-- The fast path of the suffix kind asks for at least one byte after the dot.
suffix_match_iff :
    (p : Pattern) (topic : Bytes)
    → (match_kind suffix_wildcard p topic ≡ true)
      ↔ ((r : Bytes) × (topic ≡ p.simple_prefix ++ (dot ∷ r)) × (r ≢ []))
unfolding match_kind
suffix_match_iff p topic = (to, from)
  where
    pre : Bytes
    pre = p.simple_prefix ++ dot ∷ []

    to :
        match_kind suffix_wildcard p topic ≡ true
        → (r : Bytes) × (topic ≡ p.simple_prefix ++ (dot ∷ r)) × (r ≢ [])
    to h =
        let (r, e) = (has_prefix_iff topic pre).0 (ground arith) in
        (
          r,
          e ∙ append_assoc p.simple_prefix (dot ∷ []) r,
          λ z. ground (
            arith,
            ap (length {A = _}) (e ∙ append_assoc p.simple_prefix (dot ∷ []) r),
            z,
            length-append p.simple_prefix (dot ∷ r),
          ),
        )

    from :
        ((r : Bytes) × (topic ≡ p.simple_prefix ++ (dot ∷ r)) × (r ≢ []))
        → match_kind suffix_wildcard p topic ≡ true
    from ([], e, h) = absurd (h refl)
    from (c ∷ r, e, h) =
        rw
          ((has_prefix_iff topic pre).1
            (c ∷ r, e ∙ sym (append_assoc p.simple_prefix (dot ∷ []) (c ∷ r))))
          (ground (arith, ap (length {A = _}) e, length-append p.simple_prefix (dot ∷ c ∷ r)))

-- The topic `prefix.`, with nothing after the dot, under a pattern `prefix.*`.
abbrev pub IsBareSuffix : Bytes → Bytes → Type 0
IsBareSuffix raw topic =
    ((new_pattern raw).kind ≡ suffix_wildcard)
    × (topic ≡ (new_pattern raw).simple_prefix ++ dot ∷ [])

abbrev Meaning : Bytes → Bytes → Type 0
Meaning raw topic = Matches (split dot raw) (split dot topic) × (¬ IsBareSuffix raw topic)

append-ne-bare : (p r : Bytes) → r ≢ [] → p ++ (dot ∷ r) ≢ p ++ dot ∷ []
append-ne-bare p [] h = absurd (h refl)
append-ne-bare p (c ∷ r) h = λ e.
    omega (arith, ap (length {A = _}) e, length-append p (dot ∷ c ∷ r), length-append p (dot ∷ []))

Meaning-global :
    (raw topic : Bytes)
    → str_eq raw star ≡ true
    → (match (new_pattern raw) topic ≡ true) ↔ Meaning raw topic
unfolding new_pattern match
Meaning-global raw topic g =
    rw g (λ _. (everything (split dot topic) (split-ne-nil dot topic), λ b. cc b.0), λ _. refl)
  where
    everything : (ts : List Bytes) → ts ≢ [] → Matches (split dot raw) ts
    everything [] h = absurd (h refl)
    everything (t ∷ ts) h = rw ((str_eq_iff raw star).0 g, split-star) (Matches-append_star [] t ts)

Meaning-exact :
    (raw topic : Bytes)
    → str_eq raw star ≡ false
    → has_star (split dot raw) ≡ false
    → (match (new_pattern raw) topic ≡ true) ↔ Meaning raw topic
unfolding new_pattern match
Meaning-exact raw topic g h =
    rw (g, h)
      (
        λ e. (rw ((str_eq_iff raw topic).0 e) (Matches-self (split dot topic)), λ b. cc b.0),
        λ m. (str_eq_iff raw topic).1 (split-injective dot raw topic (Matches-literal h m.0)),
      )

Meaning-suffix :
    (raw topic : Bytes)
    → str_eq raw star ≡ false
    → has_star (split dot raw) ≡ true
    → is_suffix (split dot raw) ≡ true
    → (match (new_pattern raw) topic ≡ true) ↔ Meaning raw topic
unfolding new_pattern match
Meaning-suffix raw topic g h k =
    rw (g, h, k)
      (
        λ e.
            let (r, e', some_left) = by_bytes.0 e in
            (by_segments.1 (r, e'), λ b. append-ne-bare prefix r some_left (sym e' ∙ b.1)),
        λ m.
            let (r, e') = by_segments.0 m.0 in
            by_bytes.1 (r, e', λ z. m.1 (refl, e' ∙ ap (λ s. prefix ++ (dot ∷ s)) z)),
      )
  where
    prefix : Bytes
    prefix = join dot (init (split dot raw))

    p : Pattern
    p = record {
      raw = raw;
      segments = split dot raw;
      kind = suffix_wildcard;
      simple_prefix = prefix;
    }

    by_bytes :
        (match_kind suffix_wildcard p topic ≡ true)
        ↔ ((r : Bytes) × (topic ≡ prefix ++ (dot ∷ r)) × (r ≢ []))
    by_bytes = suffix_match_iff p topic

    by_segments :
        Matches (split dot raw) (split dot topic) ↔ ((r : Bytes) × (topic ≡ prefix ++ (dot ∷ r)))
    by_segments = suffix_meaning raw prefix topic (is_suffix-IsSuffix raw k)

Meaning-complex :
    (raw topic : Bytes)
    → str_eq raw star ≡ false
    → has_star (split dot raw) ≡ true
    → is_suffix (split dot raw) ≡ false
    → (match (new_pattern raw) topic ≡ true) ↔ Meaning raw topic
unfolding new_pattern match
Meaning-complex raw topic g h k =
    rw (g, h, k)
      (
        λ e. ((match_segments_iff (split dot raw) (split dot topic)).0 e, λ b. cc b.0),
        λ m. (match_segments_iff (split dot raw) (split dot topic)).1 m.0,
      )

-- A pattern matches a topic exactly when its segments mean the topic's segments, but that a
-- pattern `prefix.*` does not match the topic `prefix.`, whose last segment is empty.
pub match-new_pattern_iff :
    (raw topic : Bytes)
    → (match (new_pattern raw) topic ≡ true)
      ↔ (Matches (split dot raw) (split dot topic) × (¬ IsBareSuffix raw topic))
match-new_pattern_iff raw topic = elim (Bool-cases (str_eq raw star)) [
  | inl g ↦ Meaning-global raw topic g
  | inr g ↦ elim (Bool-cases (has_star (split dot raw))) [
    | inr h ↦ Meaning-exact raw topic g h
    | inl h ↦ elim (Bool-cases (is_suffix (split dot raw))) [
      | inl k ↦ Meaning-suffix raw topic g h k
      | inr k ↦ Meaning-complex raw topic g h k
    ]
  ]
]

raw-new_pattern : (raw : Bytes) → (new_pattern raw).raw ≡ raw
unfolding new_pattern
raw-new_pattern raw = ground arith

-- Each fast path alone, as an index by kind uses it. Off the suffix kind, `Match` is the meaning.
pub match_iff_of_ne_suffix :
    (raw topic : Bytes)
    → (new_pattern raw).kind ≢ suffix_wildcard
    → (match (new_pattern raw) topic ≡ true) ↔ Matches (split dot raw) (split dot topic)
match_iff_of_ne_suffix raw topic h =
    let (to, from) = match-new_pattern_iff raw topic in (λ e. (to e).0, λ m. from (m, λ b. h b.0))

match_of_kind :
    (k : Kind) (p : Pattern) (topic : Bytes) → p.kind ≡ k → match p topic ≡ match_kind k p topic
unfolding match
match_of_kind k p topic e = rw e refl

pub exact_iff :
    (raw topic : Bytes)
    → (new_pattern raw).kind ≡ exact
    → Matches (split dot raw) (split dot topic) ↔ (raw ≡ topic)
unfolding match_kind
exact_iff raw topic k =
    let (to, from) = match_iff_of_ne_suffix raw topic (λ e. cc) in
    let same = match_of_kind exact (new_pattern raw) topic k in
    (
      λ m.
          sym (raw-new_pattern raw)
          ∙ (str_eq_iff (new_pattern raw).raw topic).0 (sym same ∙ from m),
      λ e. to (same ∙ (str_eq_iff (new_pattern raw).raw topic).1 (raw-new_pattern raw ∙ e)),
    )

pub global-Matches :
    (raw topic : Bytes)
    → (new_pattern raw).kind ≡ global
    → Matches (split dot raw) (split dot topic)
unfolding match_kind
global-Matches raw topic k =
    (match_iff_of_ne_suffix raw topic (λ e. cc)).0 (match_of_kind global (new_pattern raw) topic k)

suffix_of_kind :
    (raw : Bytes)
    → (new_pattern raw).kind ≡ suffix_wildcard
    → (is_suffix (split dot raw) ≡ true)
      × ((new_pattern raw).simple_prefix ≡ join dot (init (split dot raw)))
unfolding new_pattern
suffix_of_kind raw k = ground arith

pub suffix_iff :
    (raw topic : Bytes)
    → (new_pattern raw).kind ≡ suffix_wildcard
    → Matches (split dot raw) (split dot topic)
      ↔ ((r : Bytes) × (topic ≡ (new_pattern raw).simple_prefix ++ (dot ∷ r)))
suffix_iff raw topic k =
    let (is, prefix) = suffix_of_kind raw k in
    suffix_meaning raw (new_pattern raw).simple_prefix topic (rw prefix (is_suffix-IsSuffix raw is))

-- ===== src/Pattern.antt =====
-- pattern/pattern.go: topic patterns and their fast paths.
pub mod Segments
pub mod Refinement
mod Tests
use ginject.Prelude.{
  ℕ, zero, suc, ◌+◌, ◌<◌, ◌≡◌, refl, Bool, true, false, not, ◌&&◌, ◌||◌, List, [], ◌∷◌, ◌++◌, arith,
  ltb, length, if◌then◌else◌,
}
use ginject.Text.{Bytes, codes, str_eq, has_prefix}
use ginject.Text.Split.{split, join}

abbrev pub dot : ℕ
dot = b'.'

abbrev pub star : Bytes
star = b'*' ∷ []

pub data Kind : Type 0 where
  exact global suffix_wildcard complex : Kind

pub record Pattern : Type 0 where
  pub raw : Bytes
  pub segments : List Bytes
  pub kind : Kind
  pub simple_prefix : Bytes

unfoldable pub is_nil {ℓ} : {A : Type ℓ} → List A → Bool
is_nil [] = true
is_nil (x ∷ xs) = false

-- The loop that looks for a segment `*`.
unfoldable pub has_star : List Bytes → Bool
has_star [] = false
has_star (seg ∷ segs) = if str_eq seg star then true else has_star segs

-- `segs[:len(segs)-1]`
unfoldable pub init : List Bytes → List Bytes
init [] = []
init (seg ∷ []) = []
init (seg ∷ next ∷ segs) = seg ∷ init (next ∷ segs)

-- `segs[len(segs)-1] == "*"`
unfoldable pub ends_in_star : List Bytes → Bool
ends_in_star [] = false
ends_in_star (seg ∷ []) = str_eq seg star
ends_in_star (seg ∷ next ∷ segs) = ends_in_star (next ∷ segs)

-- `len(segs) >= 2 && segs[len(segs)-1] == "*"` and no other segment is `*`.
unfoldable pub is_suffix : List Bytes → Bool
unfolding has_star init ends_in_star
is_suffix segs = ltb 1 (length segs) && ends_in_star segs && not (has_star (init segs))

unfoldable pub new_pattern : Bytes → Pattern
unfolding is_suffix split join str_eq
new_pattern raw =
    let segs = split dot raw in
    if str_eq raw star
    then record { raw = raw; segments = []; kind = global; simple_prefix = [] }
    else if not (has_star segs)
    then record { raw = raw; segments = segs; kind = exact; simple_prefix = [] }
    else if is_suffix segs
    then record {
      raw = raw;
      segments = segs;
      kind = suffix_wildcard;
      simple_prefix = join dot (init segs);
    }
    else record { raw = raw; segments = segs; kind = complex; simple_prefix = [] }

-- The loop of `matchSegments`: `pi` and `ti` advance together, so the loop walks both lists.
unfoldable pub match_segments : List Bytes → List Bytes → Bool
match_segments [] [] = true
match_segments [] (t ∷ topic) = false
match_segments (seg ∷ segs) [] = false
match_segments (seg ∷ segs) (t ∷ topic) =
    let rest = match_segments segs topic in
    if str_eq seg star
    then (if is_nil segs then true else rest)
    else if str_eq seg t
    then rest
    else false

-- `Match`, case by case of the kind.
unfoldable pub match_kind : Kind → Pattern → Bytes → Bool
match_kind global p topic = true
match_kind exact p topic = str_eq p.raw topic
match_kind suffix_wildcard p topic =
    if not (has_prefix topic (p.simple_prefix ++ dot ∷ []))
    then false
    else ltb (length p.simple_prefix + 1) (length topic)
match_kind complex p topic = match_segments p.segments (split dot topic)

unfoldable pub match : Pattern → Bytes → Bool
unfolding match_kind match_segments has_prefix split str_eq
match p topic = match_kind p.kind p topic

-- ===== src/Str/Segmenting.antt =====
-- `Segment` of internal/str/str.go in the loops of internal/ds/trie.go, next to the split of a path.
use ginject.Prelude.{
  ℕ, zero, suc, ◌+◌, ◌<◌, ◌≤◌, ◌≡◌, refl, ◌≢◌, Bool, true, false, inl, inr, Option, none, some,
  List, [], ◌∷◌, arith, ◌==◌, length, take, drop, length-drop, Option-cases,
}
use ginject.Text.{Bytes}
use ginject.Text.Split.{split, split-ne-nil, onto_first}
use ginject.Text.Cut.{drop-drop}
use ginject.Str.{index_byte, segment, segment_loop, segments_of}

-- The pieces but the last, each with the test whether only an empty piece is left after it.
abbrev only_empty_left : List Bytes → Bool
only_empty_left ([] ∷ []) = true
only_empty_left _ = false

abbrev pub flagged : List Bytes → List (Bytes × Bool)
flagged [] = []
flagged (piece ∷ []) = []
flagged (piece ∷ next ∷ pieces) = (piece, only_empty_left (next ∷ pieces)) ∷ flagged (next ∷ pieces)

split-none : (s : Bytes) (sep : ℕ) → index_byte s sep ≡ none → split sep s ≡ s ∷ []
unfolding index_byte split
split-none [] sep h = refl
split-none (c ∷ s) sep h = ground (arith, split-none s sep)

split-some :
    (s : Bytes) (sep i : ℕ)
    → index_byte s sep ≡ some i
    → split sep s ≡ take i s ∷ split sep (drop (1 + i) s)
unfolding index_byte split
split-some [] sep i h = absurd (ground arith)
split-some (c ∷ s) sep zero h = ground arith
split-some (c ∷ s) sep (suc i) h = ground (arith, split-some s sep i)

index_byte_bound : (s : Bytes) (sep i : ℕ) → index_byte s sep ≡ some i → i < length s
unfolding index_byte
index_byte_bound [] sep i h = absurd (ground arith)
index_byte_bound (c ∷ s) sep zero h = omega arith
index_byte_bound (c ∷ s) sep (suc i) h = ground (arith, index_byte_bound s sep i)

only_empty_left-cons : (pieces : List Bytes) → pieces ≢ [] → only_empty_left ([] ∷ pieces) ≡ false
only_empty_left-cons [] h = absurd (h refl)
only_empty_left-cons (piece ∷ pieces) h = refl

only_empty_left-onto_first :
    (c : ℕ) (pieces : List Bytes) → only_empty_left (onto_first c pieces) ≡ false
only_empty_left-onto_first c [] = refl
only_empty_left-onto_first c (piece ∷ pieces) = refl

only_empty_left-split : (sep : ℕ) (t : Bytes) → only_empty_left (split sep t) ≡ (length t == 0)
unfolding split
only_empty_left-split sep [] = refl
only_empty_left-split sep (c ∷ t) = ground (
  arith,
  only_empty_left-cons (split sep t) (split-ne-nil sep t),
  only_empty_left-onto_first c (split sep t),
)

flagged-cons :
    (piece : Bytes) (pieces : List Bytes)
    → pieces ≢ []
    → flagged (piece ∷ pieces) ≡ (piece, only_empty_left pieces) ∷ flagged pieces
flagged-cons piece [] h = absurd (h refl)
flagged-cons piece (next ∷ pieces) h = refl

last_iff : (s : Bytes) (n : ℕ) → n < length s → (n + 1 == length s) ≡ (length (drop (n + 1) s) == 0)
last_iff s n h = ground (arith, length-drop (n + 1) s)

empty_of_length : (s : Bytes) → length s ≤ 0 → s ≡ []
empty_of_length [] h = refl
empty_of_length (c ∷ s) h = absurd (omega arith)

segment_last :
    (s : Bytes) (sep start : ℕ)
    → start < length s
    → index_byte (drop (start + 1) s) sep ≡ none
    → segment s sep (some start) ≡ (drop start s, none)
unfolding segment
segment_last s sep start h e = ground arith

segment_next :
    (s : Bytes) (sep start i : ℕ)
    → start < length s
    → index_byte (drop (start + 1) s) sep ≡ some i
    → segment s sep (some start) ≡ (take i (drop (start + 1) s), some (i + start + 1))
unfolding segment
segment_next s sep start i h e = ground arith

segment_loop_last :
    (fuel : ℕ) (s : Bytes) (sep : ℕ) (start : Option ℕ) (seg : Bytes)
    → segment s sep start ≡ (seg, none)
    → segment_loop (suc fuel) s sep start ≡ []
unfolding segment_loop
segment_loop_last fuel s sep start seg e = ground arith

segment_loop_next :
    (fuel : ℕ) (s : Bytes) (sep : ℕ) (start : Option ℕ) (seg : Bytes) (n : ℕ)
    → segment s sep start ≡ (seg, some n)
    → segment_loop (suc fuel) s sep start
      ≡ (seg, n + 1 == length s) ∷ segment_loop fuel s sep (some n)
unfolding segment_loop
segment_loop_next fuel s sep start seg n e = ground arith

segment_loop_lem :
    (fuel : ℕ) (s : Bytes) (sep start : ℕ)
    → start < length s
    → length (drop (start + 1) s) ≤ fuel
    → segment_loop fuel s sep (some start) ≡ flagged (split sep (drop (start + 1) s))
segment_loop_lem zero s sep start h k =
    rw (empty_of_length (drop (start + 1) s) k) (unfold split segment_loop in refl)
segment_loop_lem (suc fuel) s sep start h k =
    let rest = drop (start + 1) s in
    elim (Option-cases (index_byte rest sep)) [
      | inl e ↦
          rw
            (
              segment_loop_last fuel s sep (some start) (drop start s)
                  (segment_last s sep start h e),
              split-none rest sep e,
            )
            refl
      | inr (i, e) ↦
          let n = i + start + 1 in
          let bound : n < length s =
            omega (arith, index_byte_bound rest sep i e, length-drop (start + 1) s) in
          let after = drop-drop (1 + i) (start + 1) (n + 1) s (omega arith) in
          rw
            (
              segment_loop_next fuel s sep (some start) (take i rest) n
                  (segment_next s sep start i h e),
              split-some rest sep i e,
              after,
              flagged-cons (take i rest) (split sep (drop (n + 1) s))
                  (split-ne-nil sep (drop (n + 1) s)),
              only_empty_left-split sep (drop (n + 1) s),
              last_iff s n bound,
              segment_loop_lem fuel s sep n bound
                  (omega (arith, length-drop (n + 1) s, length-drop (start + 1) s)),
            )
            refl
    ]

index_byte_self : (body : Bytes) (sep : ℕ) → index_byte (sep ∷ body) sep ≡ some 0
unfolding index_byte
index_byte_self body sep = ground arith

-- The loops over a path that begins with the separator visit the pieces behind it that another
-- separator follows, in order, and mark the one whose separator ends the path. What stands behind the
-- last separator is not visited.
pub segments_of-cons :
    (body : Bytes) (sep : ℕ) → segments_of (sep ∷ body) sep ≡ flagged (split sep body)
unfolding segments_of
segments_of-cons body sep =
    rw (index_byte_self body sep)
      (segment_loop_lem (length (sep ∷ body)) (sep ∷ body) sep 0 (omega arith) (omega arith))

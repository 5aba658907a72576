-- ===== src/Str.antt =====
-- internal/str/str.go: the cutting and enclosing of route strings.
pub mod Enclosing
pub mod Segmenting
mod Tests
use ginject.Prelude.{
  ℕ, zero, suc, ◌+◌, ◌-◌, Bool, true, false, ◌&&◌, ◌||◌, Option, none, some, List, [], ◌∷◌, ◌==◌,
  ltb, length, take, drop, if◌then◌else◌,
}
use ginject.Text.{Bytes}

-- `isASCIISpace`
unfoldable pub is_ascii_space : ℕ → Bool
is_ascii_space c = c == b' ' || c == 9 || c == 10 || c == 11 || c == 12 || c == 13

-- The loop of `Enclose` with its last write: what is written for the bytes left, after `prev`.
unfoldable pub enclose_loop : ℕ → ℕ → Bytes → Bytes
unfolding is_ascii_space
enclose_loop sep prev [] = if prev == sep then [] else sep ∷ []
enclose_loop sep prev (c ∷ s) =
    let skipped = enclose_loop sep prev s in
    let written = enclose_loop sep c s in
    if is_ascii_space c
    then skipped
    else if (c == sep && prev == sep) || (c == b'*' && prev == b'*')
    then skipped
    else c ∷ written

-- `hadContent` at the end of the loop.
unfoldable pub had_content : Bytes → Bool
unfolding is_ascii_space
had_content [] = false
had_content (c ∷ s) = if is_ascii_space c then had_content s else true

unfoldable pub enclose : Bytes → ℕ → Bytes
unfolding enclose_loop had_content
enclose s sep = if had_content s then sep ∷ enclose_loop sep sep s else []

-- `strings.IndexByte`, with `none` for -1.
unfoldable pub index_byte : Bytes → ℕ → Option ℕ
index_byte [] sep = none
index_byte (c ∷ s) sep =
    if c == sep then some 0 else elim (index_byte s sep) [ none ↦ none | some i ↦ some (suc i) ]

-- `Segment`, with `none` for a `next` of -1 and for a negative `start`.
unfoldable pub segment : Bytes → ℕ → Option ℕ → Bytes × Option ℕ
unfolding index_byte
segment s sep none = ([], none)
segment s sep (some start) =
    if ltb start (length s)
    then elim (index_byte (drop (start + 1) s) sep) [
      | none ↦ (drop start s, none)
      | some i ↦ (take i (drop (start + 1) s), some (i + start + 1))
    ]
    else ([], none)

-- The loops over a path: `for seg, next := Segment(s, sep, start); next > -1; …`, each segment with
-- the test `next == len(s) - 1`.
unfoldable pub segment_loop : ℕ → Bytes → ℕ → Option ℕ → List (Bytes × Bool)
segment_loop zero s sep start = []
segment_loop (suc fuel) s sep start =
    let (seg, next) = segment s sep start in
    elim next [ none ↦ [] | some n ↦ (seg, n + 1 == length s) ∷ segment_loop fuel s sep (some n) ]

unfoldable pub segments_of : Bytes → ℕ → List (Bytes × Bool)
unfolding segment_loop segment
segments_of s sep = segment_loop (length s) s sep (index_byte s sep)

-- ===== src/Trie/Paths.antt =====
-- `Insert` and `Remove` of internal/ds/trie.go on whole paths.
use ginject.Prelude.{
  ℕ, ◌≡◌, refl, ◌∙◌, ap, ap₂, subst, inl, inr, Bool, true, false, Option, none, some, List, [], ◌∷◌,
  ◌++◌, arith, if◌then◌else◌, Bool-cases, Option-cases, ◌==◌,
}
use ginject.Prelude.Members.{All}
use ginject.Text.{Bytes, str_eq_iff}
use ginject.Text.Split.{split, split-append}
use ginject.Str.{segments_of}
use ginject.Str.Segmenting.{flagged, segments_of-cons}
use ginject.Trie.{Trie, insert, insert_loop, remove, remove_segments, remove_loop}
use ginject.Trie.Entries.{entry, marked, same_path, entry-insert_loop}
use ginject.Trie.Removing.{entry-remove_loop, remove_loop-none, remove_loop-some}

-- A segment without the separator.
unfoldable pub is_plain : ℕ → Bytes → Bool
is_plain sep [] = true
is_plain sep (c ∷ s) = if c == sep then false else is_plain sep s

abbrev pub IsPlain : ℕ → Bytes → Type 0
unfolding is_plain
IsPlain sep seg = is_plain sep seg ≡ true

-- `/a/b/` for the segments `a` and `b`: the form that `Enclose` gives a route.
abbrev closed_by : ℕ → List Bytes → Bytes
closed_by sep [] = []
closed_by sep (seg ∷ segs) = seg ++ sep ∷ closed_by sep segs

abbrev pub path_of : ℕ → List Bytes → Bytes
path_of sep segs = sep ∷ closed_by sep segs

split_plain : (sep : ℕ) (seg : Bytes) → IsPlain sep seg → split sep seg ≡ seg ∷ []
unfolding split is_plain
split_plain sep [] h = refl
split_plain sep (c ∷ s) h = ground (arith, split_plain sep s)

split-closed_by :
    (sep : ℕ) (segs : List Bytes)
    → All (IsPlain sep) segs
    → split sep (closed_by sep segs) ≡ segs ++ [] ∷ []
split-closed_by sep [] h = unfold split in refl
split-closed_by sep (seg ∷ segs) (h, hs) =
    split-append sep seg (closed_by sep segs)
    ∙ rw (split_plain sep seg h, split-closed_by sep segs hs) refl

flagged-closed : (segs : List Bytes) → flagged (segs ++ [] ∷ []) ≡ marked segs
flagged-closed [] = refl
flagged-closed (seg ∷ []) = refl
flagged-closed (seg ∷ [] ∷ []) = refl
flagged-closed (seg ∷ [] ∷ b ∷ segs) = ap (◌∷◌ (seg, false)) (flagged-closed ([] ∷ b ∷ segs))
flagged-closed (seg ∷ (c ∷ a) ∷ segs) = ap (◌∷◌ (seg, false)) (flagged-closed ((c ∷ a) ∷ segs))

pub segments_of-path_of :
    (sep : ℕ) (segs : List Bytes)
    → All (IsPlain sep) segs
    → segments_of (path_of sep segs) sep ≡ marked segs
segments_of-path_of sep segs h =
    segments_of-cons (closed_by sep segs) sep
    ∙ rw (split-closed_by sep segs h) (flagged-closed segs)

insert-root : (raw : Bytes) (sep : ℕ) (t : Trie) → insert raw (path_of sep []) sep t ≡ t
unfolding insert insert_loop
insert-root raw sep t = rw (segments_of-path_of sep [] tt) refl

-- The root path, which has no segment, has no entry.
abbrev pub names : List Bytes → List Bytes → Bool
names [] q = false
names (seg ∷ segs) q = same_path (seg ∷ segs) q

-- `Insert` at a path of segments that each a separator closes sets the entry of the path to the given
-- string and changes no other. At the root path it changes nothing.
pub entry-insert :
    (raw : Bytes) (segs q : List Bytes) (sep : ℕ) (t : Trie)
    → All (IsPlain sep) segs
    → entry q (insert raw (path_of sep segs) sep t) ≡ (if names segs q then some raw else entry q t)
unfolding insert
entry-insert raw [] q sep t h = ap (entry q) (insert-root raw sep t)
entry-insert raw (seg ∷ segs) q sep t h =
    rw (segments_of-path_of sep (seg ∷ segs) h) (entry-insert_loop raw seg segs q t)

abbrev pub is_some : Option Bytes → Bool
is_some none = false
is_some (some raw) = true

remove_segments_hit :
    (seg : Bytes) (segs : List Bytes) (t u : Trie)
    → remove_loop (marked (seg ∷ segs)) t ≡ some u
    → remove_segments (marked (seg ∷ segs)) t ≡ (true, u)
unfolding remove_segments
remove_segments_hit seg segs t u h = ground arith

remove_segments_miss :
    (seg : Bytes) (segs : List Bytes) (t : Trie)
    → remove_loop (marked (seg ∷ segs)) t ≡ none
    → remove_segments (marked (seg ∷ segs)) t ≡ (false, t)
unfolding remove_segments
remove_segments_miss seg segs t h = ground arith

same_path_eq : (p q : List Bytes) → same_path p q ≡ true → p ≡ q
unfolding same_path
same_path_eq [] [] h = refl
same_path_eq [] (b ∷ q) h = absurd (ground arith)
same_path_eq (a ∷ p) [] h = absurd (ground arith)
same_path_eq (a ∷ p) (b ∷ q) h =
    ap₂ ◌∷◌ ((str_eq_iff a b).0 (ground arith)) (same_path_eq p q (ground arith))

-- Nothing to take away where there is no entry.
no_entry :
    (p q : List Bytes) (t : Trie)
    → entry p t ≡ none
    → entry q t ≡ (if same_path p q then none else entry q t)
no_entry p q t h = elim (Bool-cases (same_path p q)) [
  | inl e ↦ rw e (subst (λ r. entry r t ≡ none) (same_path_eq p q e) h)
  | inr e ↦ rw e refl
]

remove_marked :
    (seg : Bytes) (segs q : List Bytes) (t : Trie)
    → let removed = remove_segments (marked (seg ∷ segs)) t in
      (removed.0 ≡ is_some (entry (seg ∷ segs) t))
      × (entry q removed.1 ≡ (if same_path (seg ∷ segs) q then none else entry q t))
remove_marked seg segs q t = elim (Option-cases (entry (seg ∷ segs) t)) [
  | inl n ↦
      rw (n, remove_segments_miss seg segs t (remove_loop-none (seg ∷ segs) t n))
        (refl, no_entry (seg ∷ segs) q t n)
  | inr (raw, n) ↦
      let (u, e) = remove_loop-some (seg ∷ segs) t raw n in
      rw (n, remove_segments_hit seg segs t u e) (refl, entry-remove_loop (seg ∷ segs) q t u e)
]

-- `Remove` answers whether the path had an entry, and takes that entry away and no other.
pub entry-remove :
    (seg : Bytes) (segs q : List Bytes) (sep : ℕ) (t : Trie)
    → All (IsPlain sep) (seg ∷ segs)
    → ((remove (path_of sep (seg ∷ segs)) sep t).0 ≡ is_some (entry (seg ∷ segs) t))
      × (entry q (remove (path_of sep (seg ∷ segs)) sep t).1
          ≡ (if same_path (seg ∷ segs) q then none else entry q t))
unfolding remove
entry-remove seg segs q sep t h =
    rw (segments_of-path_of sep (seg ∷ segs) h) (remove_marked seg segs q t)

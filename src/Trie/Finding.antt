-- ===== src/Trie/Finding.antt =====
-- `Find` of internal/ds/trie.go on the path of an entry.
use ginject.Prelude.{
  ℕ, ◌≡◌, refl, ◌∙◌, inl, inr, Bool, true, false, Option, none, some, List, [], ◌∷◌, arith,
  if◌then◌else◌, Option-cases,
}
use ginject.Prelude.Members.{All}
use ginject.Text.{Bytes}
use ginject.Trie.{Trie, get_child, children, raw_of}
use ginject.Trie.Search.{moved, move, star_end, walked, find_loop, find, found, raw_or_empty}
use ginject.Trie.Entries.{entry, marked, entry-cons}
use ginject.Trie.Paths.{IsPlain, path_of, segments_of-path_of}

move_exact :
    (sp : Bool) (seg : Bytes) (t c : Trie) (wild : Option Trie) (vals : List Bytes)
    → get_child seg (children t) ≡ some c
    → move sp seg t wild vals ≡ moved c (star_end t wild) vals
unfolding move
move_exact sp seg t c wild vals h = ground arith

pub find_loop_moved :
    (sp : Bool) (seg : Bytes) (last : Bool) (segs : List (Bytes × Bool)) (t c : Trie)
    (wild w : Option Trie) (vals vs : List Bytes)
    → move sp seg t wild vals ≡ moved c w vs
    → find_loop sp ((seg, last) ∷ segs) t wild vals
      ≡ (if last then walked (some c) (star_end c w) vs else find_loop sp segs c w vs)
unfolding find_loop
find_loop_moved sp seg last segs t c wild w vals vs h = ground arith

entry-child_some :
    (seg : Bytes) (segs : List Bytes) (t : Trie) (raw : Bytes)
    → entry (seg ∷ segs) t ≡ some raw
    → (c : Trie) × (get_child seg (children t) ≡ some c) × (entry segs c ≡ some raw)
entry-child_some seg segs t raw h = elim (Option-cases (get_child seg (children t))) [
  | inl n ↦ absurd (ground (arith, entry-cons seg segs t))
  | inr (c, n) ↦ (c, n, ground (arith, entry-cons seg segs t))
]

raw-entry : (t : Trie) (raw : Bytes) → entry [] t ≡ some raw → raw_of t ≡ raw
unfolding entry
raw-entry t raw h = ground arith

find_loop_exact :
    (sp : Bool) (seg : Bytes) (segs : List Bytes) (t : Trie) (wild : Option Trie) (vals raw : _)
    → entry (seg ∷ segs) t ≡ some raw
    → (c : Trie) × (w : Option Trie) × (find_loop sp (marked (seg ∷ segs)) t wild vals
        ≡ walked (some c) w vals)
      × (raw_of c ≡ raw)
find_loop_exact sp seg [] t wild vals raw h =
    let (c, n, e) = entry-child_some seg [] t raw h in
    (
      c,
      star_end c (star_end t wild),
      find_loop_moved sp seg true [] t c wild (star_end t wild) vals vals
          (move_exact sp seg t c wild vals n),
      raw-entry c raw e,
    )
find_loop_exact sp seg (next ∷ segs) t wild vals raw h =
    let (c, n, e) = entry-child_some seg (next ∷ segs) t raw h in
    let (d, w, e', r) = find_loop_exact sp next segs c (star_end t wild) vals raw e in
    (
      d,
      w,
      find_loop_moved sp seg false (marked (next ∷ segs)) t c wild (star_end t wild) vals vals
            (move_exact sp seg t c wild vals n)
          ∙ e',
      r,
    )

-- Whatever else the trie holds, `Find` on a path that has an entry returns the raw string of that
-- entry and takes no parameter.
pub find-entry :
    (seg : Bytes) (segs : List Bytes) (sep : ℕ) (supports_params : Bool) (t : Trie) (raw : Bytes)
    → All (IsPlain sep) (seg ∷ segs)
    → entry (seg ∷ segs) t ≡ some raw
    → (wild : Bytes) × (find (path_of sep (seg ∷ segs)) sep supports_params t ≡ found raw wild [])
unfolding find raw_or_empty
find-entry seg segs sep sp t raw h n =
    let (c, w, e, r) = find_loop_exact sp seg segs t none [] raw n in
    (raw_or_empty w, rw (segments_of-path_of sep (seg ∷ segs) h, e, r) refl)

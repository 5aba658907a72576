-- ===== src/Trie/Greedy.antt =====
-- The loop of `matchWildcard` of internal/ds/fn.go, which takes each piece at its first place.
use ginject.Prelude.{
  ℕ, ◌+◌, ◌-◌, ◌≡◌, refl, sym, ◌∙◌, ◌↔◌, ap, inl, inr, true, false, some, List, [], ◌∷◌, ◌++◌,
  append_assoc, append-nil, arith, length, length-append, take, drop, take-append-drop, Bool-cases,
  Option-cases,
}
use ginject.Text.{Bytes, str_eq, str_eq_iff, has_prefix, has_prefix-append}
use ginject.Text.Split.{split, join, join-split}
use ginject.Trie.Search.{index, ends_with, match_rest, match_pieces, match_wildcard}
use ginject.Trie.Wildcard.{Glob, Pieces, AfterStar, Glob-Pieces, Pieces-Glob}
use ginject.Text.Cut.{drop-append}
use ginject.Trie.Occurrences.{drop-prefix, index_sound, index_complete}

ends_with_sound : (s mid : Bytes) → ends_with s mid ≡ true → (w : Bytes) × (s ≡ w ++ mid)
unfolding ends_with
ends_with_sound s mid h =
    let n = length s - length mid in
    let tail : drop n s ≡ mid = (str_eq_iff (drop n s) mid).0 (ground arith) in
    (take n s, sym (take-append-drop n s) ∙ ap (λ x. take n s ++ x) tail)

ends_with-append : (w mid : Bytes) → ends_with (w ++ mid) mid ≡ true
unfolding ends_with
ends_with-append w mid =
    let n : length (w ++ mid) - length mid ≡ length w = omega (arith, length-append w mid) in
    let tail : drop (length (w ++ mid) - length mid) (w ++ mid) ≡ mid = rw n (drop-append w mid) in
    ground (
      arith,
      length-append w mid,
      str_eq_iff (drop (length (w ++ mid) - length mid) (w ++ mid)) mid,
    )

match_rest_sound :
    (s q : Bytes) (ps : List Bytes) → match_rest s (q ∷ ps) ≡ true → AfterStar (q ∷ ps) s
unfolding match_rest
match_rest_sound s q [] h = elim (Bool-cases (str_eq q [])) [
  | inl e ↦ (s, [], sym (append-nil s), sym ((str_eq_iff q []).0 e))
  | inr e ↦ let (w, e') = ends_with_sound s q (ground arith) in (w, q, e', refl)
]
match_rest_sound s q (p ∷ ps) h = elim (Bool-cases (str_eq q [])) [
  | inl e ↦
      let (w, r, e', h') = match_rest_sound s p ps (ground arith) in
      ([], s, refl, (w, r, rw ((str_eq_iff q []).0 e) e', h'))
  | inr e ↦ elim (Option-cases (index s q)) [
    | inl n ↦ absurd (ground arith)
    | inr (i, n) ↦
        let after = drop (i + length q) s in
        let (w', r', e', h') = match_rest_sound after p ps (ground arith) in
        let (w, e'') = index_sound s q i n in
        (w, q ++ after, e'', (w', r', ap (λ x. q ++ x) e', h'))
  ]
]

match_rest_step :
    (s q p : Bytes) (ps : List Bytes) (i : ℕ)
    → str_eq q [] ≡ false
    → index s q ≡ some i
    → match_rest s (q ∷ p ∷ ps) ≡ match_rest (drop (i + length q) s) (p ∷ ps)
unfolding match_rest
match_rest_step s q p ps i n e = rw (n, e) refl

match_rest_complete :
    (s q : Bytes) (ps : List Bytes) → AfterStar (q ∷ ps) s → match_rest s (q ∷ ps) ≡ true
unfolding match_rest
match_rest_complete s q [] (w, r, e, h) =
    let same : s ≡ w ++ q = e ∙ ap (λ x. w ++ x) h in ground (arith, ends_with-append w q)
match_rest_complete s q (p ∷ ps) (w, r, e, (w', r', e', h)) = elim (Bool-cases (str_eq q [])) [
  | inl n ↦
      let empty = (str_eq_iff q []).0 n in
      let whole : s ≡ (w ++ w') ++ r' =
        e ∙ ap (λ x. w ++ x) (e' ∙ ap (λ x. x ++ (w' ++ r')) empty) ∙ sym (append_assoc w w' r') in
      rw n (match_rest_complete s p ps (w ++ w', r', whole, h))
  | inr n ↦
      let (i, x, e1, e2) = index_complete w q (w' ++ r') in
      let whole : s ≡ w ++ (q ++ (w' ++ r')) = e ∙ ap (λ x. w ++ x) e' in
      ap (λ x. match_rest x (q ∷ p ∷ ps)) whole
      ∙ (match_rest_step (w ++ (q ++ (w' ++ r'))) q p ps i n e1
          ∙ match_rest_complete (drop (i + length q) (w ++ (q ++ (w' ++ r')))) p ps
              (x ++ w', r', e2 ∙ sym (append_assoc x w' r'), h))
]

single_piece : (p route : Bytes) → p ∷ [] ≡ split b'*' route → p ≡ route
unfolding join
single_piece p route n = ap (join b'*') n ∙ join-split b'*' route

match_pieces_sound :
    (s route : Bytes) (ps : List Bytes)
    → ps ≡ split b'*' route
    → match_pieces s route ps ≡ true
    → Pieces ps s
unfolding match_pieces
match_pieces_sound s route [] n h = absurd (ground arith)
match_pieces_sound s route (p ∷ []) n h = (str_eq_iff s route).0 h ∙ sym (single_piece p route n)
match_pieces_sound s route (p ∷ q ∷ ps) n h = elim (Bool-cases (has_prefix s p)) [
  | inl e ↦
      let (w, r, e', h') = match_rest_sound (drop (length p) s) q ps (ground arith) in
      (w, r, drop-prefix s p e ∙ ap (λ x. p ++ x) e', h')
  | inr e ↦ absurd (ground arith)
]

match_pieces_complete :
    (s route : Bytes) (ps : List Bytes)
    → ps ≡ split b'*' route
    → Pieces ps s
    → match_pieces s route ps ≡ true
unfolding match_pieces
match_pieces_complete s route [] n h = absurd h
match_pieces_complete s route (p ∷ []) n h = (str_eq_iff s route).1 (h ∙ single_piece p route n)
match_pieces_complete s route (p ∷ q ∷ ps) n (w, r, e, h) =
    rw (e, has_prefix-append p (w ++ r), drop-append p (w ++ r))
      (match_rest_complete (w ++ r) q ps (w, r, refl, h))

-- `matchWildcard` answers true exactly on the strings that the route means.
pub match_wildcard_iff : (s route : Bytes) → (match_wildcard s route ≡ true) ↔ Glob route s
unfolding match_wildcard
match_wildcard_iff s route = (
  λ h. Pieces-Glob route s (match_pieces_sound s route (split b'*' route) refl h),
  λ g. match_pieces_complete s route (split b'*' route) refl (Glob-Pieces g),
)

-- ===== src/Trie/Occurrences.antt =====
-- `strings.Index`, as internal/ds/fn.go uses it: the first place of a piece.
use ginject.Prelude.{
  ℕ, suc, ◌+◌, ◌≡◌, refl, sym, ◌∙◌, ap, inl, inr, true, false, some, [], ◌∷◌, ◌++◌, append_assoc,
  arith, length, length-append, drop, Bool-cases, Option-cases,
}
use ginject.Text.{Bytes, has_prefix, has_prefix_iff, has_prefix-append}
use ginject.Text.Cut.{drop-append, drop-append_within}
use ginject.Trie.Search.{index}

drop-next : (n m c : ℕ) (s : Bytes) → m ≡ suc n → drop m (c ∷ s) ≡ drop n s
drop-next n m c s e = rw e refl

pub drop-prefix : (s sub : Bytes) → has_prefix s sub ≡ true → s ≡ sub ++ drop (length sub) s
drop-prefix s sub h =
    let (r, e) = (has_prefix_iff s sub).0 h in rw e (ap (λ x. sub ++ x) (sym (drop-append sub r)))

index_here : (s sub : Bytes) → has_prefix s sub ≡ true → index s sub ≡ some 0
unfolding index
index_here [] sub h = rw h refl
index_here (c ∷ s) sub h = rw h refl

index_later :
    (c : ℕ) (s sub : Bytes) (i : ℕ)
    → has_prefix (c ∷ s) sub ≡ false
    → index s sub ≡ some i
    → index (c ∷ s) sub ≡ some (suc i)
unfolding index
index_later c s sub i h k = ground arith

index_start :
    (s sub : Bytes) (i : ℕ)
    → has_prefix s sub ≡ true
    → index s sub ≡ some i
    → (w : Bytes) × (s ≡ w ++ (sub ++ drop (i + length sub) s))
index_start s sub i e h =
    let start : i + length sub ≡ length sub = ground (arith, index_here s sub e) in
    ([], drop-prefix s sub e ∙ ap (λ n. sub ++ drop n s) (sym start))

-- Where the piece is found it stands.
pub index_sound :
    (s sub : Bytes) (i : ℕ)
    → index s sub ≡ some i
    → (w : Bytes) × (s ≡ w ++ (sub ++ drop (i + length sub) s))
unfolding index
index_sound [] sub i h = elim (Bool-cases (has_prefix [] sub)) [
  | inl e ↦ index_start [] sub i e h
  | inr e ↦ absurd (ground arith)
]
index_sound (c ∷ s) sub i h = elim (Bool-cases (has_prefix (c ∷ s) sub)) [
  | inl e ↦ index_start (c ∷ s) sub i e h
  | inr e ↦ elim (Option-cases (index s sub)) [
    | inl n ↦ absurd (ground arith)
    | inr (j, n) ↦
        let next : i + length sub ≡ suc (j + length sub) = ground arith in
        let (w, e') = index_sound s sub j n in
        (
          c ∷ w,
          ap (◌∷◌ c) (
              e'
              ∙ ap (λ x. w ++ (sub ++ x))
                  (sym (drop-next (j + length sub) (i + length sub) c s next))),
        )
  ]
]

-- A piece that stands somewhere is found, there or before.
pub index_complete :
    (w sub t : Bytes)
    → (i : ℕ) × (x : Bytes) × (index (w ++ (sub ++ t)) sub ≡ some i)
      × (drop (i + length sub) (w ++ (sub ++ t)) ≡ x ++ t)
index_complete [] sub t =
    let start : 0 + length sub ≡ length sub = omega arith in
    (0, [], index_here (sub ++ t) sub (has_prefix-append sub t), rw start (drop-append sub t))
index_complete (c ∷ w) sub t =
    let s = w ++ (sub ++ t) in
    let start : 0 + length sub ≡ length sub = omega arith in
    elim (Bool-cases (has_prefix (c ∷ s) sub)) [
      | inl e ↦ (
        0,
        drop (length sub) (c ∷ (w ++ sub)),
        index_here (c ∷ s) sub e,
        rw (start, sym (append_assoc w sub t))
            (drop-append_within (length sub) (c ∷ (w ++ sub)) t
              (omega (arith, length-append w sub))),
      )
      | inr e ↦
          let (i, x, e', e'') = index_complete w sub t in
          (
            suc i,
            x,
            index_later c s sub i e e',
            drop-next (i + length sub) (suc i + length sub) c s (omega arith) ∙ e'',
          )
    ]

-- ===== src/Str/Enclosing.antt =====
-- `Enclose` of internal/str/str.go, and the form of its results.
use ginject.Prelude.{
  ℕ, ◌≡◌, refl, ◌≢◌, false, ◌&&◌, ◌||◌, ◌⊎◌, inl, inr, [], ◌∷◌, arith, ◌==◌, Bool-cases,
}
use ginject.Text.{Bytes}
use ginject.Str.{is_ascii_space, enclose_loop, had_content, enclose}

module _ (sep : ℕ) (plain : is_ascii_space sep ≡ false) (not_star : sep ≢ b'*') where
  enclose_loop-enclose_loop :
      (prev : ℕ) (s : Bytes)
      → enclose_loop sep prev (enclose_loop sep prev s) ≡ enclose_loop sep prev s
  unfolding enclose_loop
  enclose_loop-enclose_loop prev [] = ground arith
  enclose_loop-enclose_loop prev (c ∷ s) =
      ground (arith, enclose_loop-enclose_loop prev s, enclose_loop-enclose_loop c s)

  -- Enclosing an enclosed string changes nothing.
  pub enclose-enclose : (s : Bytes) → enclose (enclose s sep) sep ≡ enclose s sep
  unfolding enclose had_content
  enclose-enclose s = ground (arith, enclose_loop-enclose_loop sep s)

  -- What may follow `prev` in an enclosed string: no white space, no doubled separator or star, and
  -- the separator last.
  abbrev pub Follows : ℕ → Bytes → Type 0
  Follows prev [] = prev ≡ sep
  Follows prev (c ∷ s) =
      (is_ascii_space c ≡ false)
      × (¬ ((c ≡ sep) × (prev ≡ sep)))
      × (¬ ((c ≡ b'*') × (prev ≡ b'*')))
      × Follows c s

  enclose_loop-Follows : (prev : ℕ) (s : Bytes) → Follows prev (enclose_loop sep prev s)
  unfolding enclose_loop
  enclose_loop-Follows prev [] = elim (Bool-cases (prev == sep)) [
    | inl e ↦ rw e (ground arith)
    | inr e ↦ rw e (plain, ground arith, ground arith, refl)
  ]
  enclose_loop-Follows prev (c ∷ s) = elim (Bool-cases (is_ascii_space c)) [
    | inl space ↦ rw space (enclose_loop-Follows prev s)
    | inr visible ↦ elim (Bool-cases ((c == sep && prev == sep) || (c == b'*' && prev == b'*'))) [
      | inl doubled ↦ rw (visible, doubled) (enclose_loop-Follows prev s)
      | inr single ↦
          rw (visible, single) (visible, ground arith, ground arith, enclose_loop-Follows c s)
    ]
  ]

  -- A result of `Enclose` is empty, or it is the separator and then a normal form; it is empty only
  -- for a string of white space.
  pub enclose_normal :
      (s : Bytes)
      → ((enclose s sep ≡ []) × (had_content s ≡ false))
        ⊎ ((r : Bytes) × (enclose s sep ≡ sep ∷ r) × Follows sep r)
  unfolding enclose
  enclose_normal s = elim (Bool-cases (had_content s)) [
    | inr none_left ↦ inl (rw none_left refl, none_left)
    | inl some_left ↦ inr (enclose_loop sep sep s, rw some_left refl, enclose_loop-Follows sep s)
  ]

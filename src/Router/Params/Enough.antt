-- ===== src/Router/Params/Enough.antt =====
-- routing/fn.go: the fuel of the loop over the parameters of a route.
use ginject.Prelude.{
  ℕ, zero, suc, ◌+◌, ◌<◌, ◌≤◌, ◌≡◌, refl, ap, inl, inr, some, List, [], ◌∷◌, arith, ◌==◌, length,
  Bool-cases, Option-cases,
}
use ginject.Text.{Bytes}
use ginject.GoMap.{GoMap}
use ginject.Router.Params.{closing, add_key, parse_loop, parse_to_param_key}

closing_shorter : (s name rest : Bytes) → closing s ≡ some (name, rest) → length rest < length s
unfolding closing
closing_shorter [] name rest h = absurd (ground arith)
closing_shorter (c ∷ s) name rest h = elim (Bool-cases (c == b'}')) [
  | inl e ↦ let same : s ≡ rest = ground arith in omega (arith, ap length same)
  | inr e ↦ elim (Bool-cases (c == 10)) [
    | inl e' ↦ absurd (ground arith)
    | inr e' ↦ elim (Option-cases (closing s)) [
      | inl n ↦ absurd (ground arith)
      | inr ((name', rest'), n) ↦
          let same : rest' ≡ rest = ground arith in
          omega (arith, ap length same, closing_shorter s name' rest' n)
    ]
  ]
]

pub parse_loop_enough :
    (n m : ℕ) (s : Bytes) (i : ℕ) (keys : GoMap (List ℕ))
    → length s ≤ n
    → length s ≤ m
    → parse_loop n s i keys ≡ parse_loop m s i keys
unfolding parse_loop
parse_loop_enough zero zero s i keys h k = refl
parse_loop_enough zero (suc m) [] i keys h k = refl
parse_loop_enough (suc n) zero [] i keys h k = refl
parse_loop_enough (suc n) (suc m) [] i keys h k = refl
parse_loop_enough zero (suc m) (c ∷ s) i keys h k = absurd (omega arith)
parse_loop_enough (suc n) zero (c ∷ s) i keys h k = absurd (omega arith)
parse_loop_enough (suc n) (suc m) (c ∷ s) i keys h k =
    let plain = parse_loop_enough n m s i keys (omega arith) (omega arith) in
    elim (Option-cases (closing s)) [
      | inl e ↦ rw (e, plain) refl
      | inr ((name, rest), e) ↦
          let short = closing_shorter s name rest e in
          rw
            (
              e,
              plain,
              parse_loop_enough n m rest (i + 1) (add_key name i keys) (omega (arith, short))
                  (omega (arith, short)),
            )
            refl
    ]

-- `ParseToParamKey` scans the whole string: more fuel would change nothing.
pub parse_to_param_key_enough :
    (fuel : ℕ) (s : Bytes) → length s ≤ fuel → parse_loop fuel s 0 [] ≡ parse_to_param_key s
unfolding parse_to_param_key
parse_to_param_key_enough fuel s h = parse_loop_enough fuel (length s) s 0 [] h (omega arith)

-- ===== src/Router/Params.antt =====
-- `ParseToParamKey` of routing/fn.go. The expression `\{(.*?)\}` matches from a brace to the next
-- closing one on the same line.
pub mod Enough
use ginject.Prelude.{
  ℕ, zero, suc, ◌+◌, Bool, true, false, Option, none, some, List, [], ◌∷◌, ◌++◌, ◌==◌, length,
  if◌then◌else◌,
}
use ginject.Text.{Bytes, str_eq}
use ginject.GoMap.{GoMap, lookup, insert}

abbrev pub onto_name : ℕ → Bytes × Bytes → Bytes × Bytes
onto_name c (name, rest) = (c ∷ name, rest)

-- The name up to the closing brace and what follows it.
unfoldable pub closing : Bytes → Option (Bytes × Bytes)
closing [] = none
closing (c ∷ s) =
    if c == b'}'
    then some ([], s)
    else if c == 10
    then none
    else elim (closing s) [ none ↦ none | some found ↦ some (onto_name c found) ]

abbrev pub add_key : Bytes → ℕ → GoMap (List ℕ) → GoMap (List ℕ)
add_key name i keys = elim (lookup name keys) [
  | none ↦ insert name (i ∷ []) keys
  | some is ↦ insert name (is ++ i ∷ []) keys
]

-- The matches from left to right: the string with a `$` for each, and the keys with the indexes.
unfoldable pub parse_loop : ℕ → Bytes → ℕ → GoMap (List ℕ) → Bytes × GoMap (List ℕ)
unfolding closing lookup insert
parse_loop zero s i keys = (s, keys)
parse_loop (suc fuel) [] i keys = ([], keys)
parse_loop (suc fuel) (c ∷ s) i keys =
    let plain = parse_loop fuel s i keys in
    if c == b'{'
    then elim (closing s) [
      | none ↦ (c ∷ plain.0, plain.1)
      | some (name, rest) ↦
          let after = parse_loop fuel rest (i + 1) (add_key name i keys) in
          (b'$' ∷ after.0, after.1)
    ]
    else (c ∷ plain.0, plain.1)

unfoldable pub parse_to_param_key : Bytes → Bytes × GoMap (List ℕ)
unfolding parse_loop
parse_to_param_key s = parse_loop (length s) s 0 []

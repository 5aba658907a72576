-- ===== src/Storage/Query.antt =====
-- modules/storage/query.go and `execQuery` of model.go.
pub mod Paging
pub mod Complete
use ginject.Prelude.{
  ℕ, ◌+◌, Bool, true, false, not, ◌&&◌, ◌||◌, Option, none, some, List, [], ◌∷◌, ltb, leb,
  if◌then◌else◌,
}
use ginject.Text.{Bytes, str_eq}
use ginject.GoMap.{GoMap, lookup}
use ginject.Trie.Search.{index}
use ginject.Storage.Index.{
  GoSet, TableIndex, Any, any_to_string, field_string, get_primary, all_primary_ids,
  lookup_secondary,
}
use ginject.Storage.Index.Search.{Unicode}
use ginject.Storage.Model.{Json, Document, Result, ok, error, panicked, Table, is_blank, find_at}

-- The operators `eq`, `ne`, `gt`, `lt` and `contains`, and any other string.
pub data Op : Type 0 where
  op_eq op_ne op_gt op_lt op_contains unknown_op : Op

pub record Condition (V : Type 0) : Type 0 where
  pub of_field : Bytes
  pub op : Op
  pub value : Any V

-- A limit of 0, and a skip of 0, is none. Numbers below 0 act as 0 in the code.
pub record Query (V : Type 0) : Type 0 where
  pub conditions : List (Condition V)
  pub limit : ℕ
  pub skip : ℕ

abbrev pub new_query : {V : Type 0} → Query V
new_query = record { conditions = []; limit = 0; skip = 0 }

abbrev pub add_condition : {V : Type 0} → List (Condition V) → Condition V → List (Condition V)
add_condition [] c = c ∷ []
add_condition (x ∷ xs) c = x ∷ add_condition xs c

abbrev pub where_field : {V : Type 0} → Bytes → Op → Any V → Query V → Query V
where_field f o v q = record q {
  conditions = add_condition q.conditions (record { of_field = f; op = o; value = v });
}

abbrev pub limit_to : {V : Type 0} → ℕ → Query V → Query V
limit_to n q = record q { limit = n }

abbrev pub skip_first : {V : Type 0} → ℕ → Query V → Query V
skip_first n q = record q { skip = n }

-- `s < t` on strings, byte by byte.
unfoldable pub str_lt : Bytes → Bytes → Bool
str_lt s [] = false
str_lt [] (c ∷ t) = true
str_lt (b ∷ s) (c ∷ t) =
    let rest = str_lt s t in if ltb b c then true else if ltb c b then false else rest

abbrev pub is_there : Option ℕ → Bool
is_there none = false
is_there (some i) = true

-- The switch, on the strings of the document's value and of the condition's.
abbrev pub holds : Op → Bytes → Bytes → Bool
holds op_eq doc cond = str_eq doc cond
holds op_ne doc cond = not (str_eq doc cond)
holds op_gt doc cond = str_lt cond doc
holds op_lt doc cond = str_lt doc cond
holds op_contains doc cond = is_blank cond || is_there (index doc cond)
holds unknown_op doc cond = false

-- A missing field passes `ne` alone.
abbrev pub holds_missing : Op → Bool
holds_missing op_eq = false
holds_missing op_ne = true
holds_missing op_gt = false
holds_missing op_lt = false
holds_missing op_contains = false
holds_missing unknown_op = false

abbrev pub holds_in : Op → Option Bytes → Bytes → Bool
holds_in o none cond = holds_missing o
holds_in o (some doc) cond = holds o doc cond

-- `cond.Op == OpEq`
abbrev pub is_eq : Op → Bool
is_eq op_eq = true
is_eq op_ne = false
is_eq op_gt = false
is_eq op_lt = false
is_eq op_contains = false
is_eq unknown_op = false

abbrev pub has_unit : Option (Unit {0}) → Bool
has_unit none = false
has_unit (some v) = true

unfoldable pub has_secondary_field : Bytes → TableIndex → Bool
unfolding lookup
has_secondary_field f idx = has_unit (lookup f idx.indexed_fields)

module _ {V : Type 0} (crc : Bytes → ℕ) (u : Unicode) (sprint : V → Bytes) (json : Json V) where
  unfoldable pub matches_conditions : GoMap (Any V) → List (Condition V) → Bool
  unfolding field_string str_lt index
  matches_conditions doc [] = true
  matches_conditions doc (c ∷ cs) =
      holds_in c.op (field_string sprint c.of_field doc) (any_to_string sprint c.value)
      && matches_conditions doc cs

  -- The ids of the first condition that the secondary index can answer, or else all.
  unfoldable pub candidate_ids : List (Condition V) → TableIndex → List Bytes
  unfolding has_secondary_field lookup_secondary all_primary_ids
  candidate_ids [] idx = all_primary_ids idx
  candidate_ids (c ∷ cs) idx =
      let rest = candidate_ids cs idx in
      if is_eq c.op && has_secondary_field c.of_field idx
      then lookup_secondary c.of_field (any_to_string sprint c.value) idx
      else rest

  abbrev pub onto_result : Document V → Result (List (Document V)) → Result (List (Document V))
  onto_result d (ok ds) = ok (d ∷ ds)
  onto_result d (error e) = error e
  onto_result d panicked = panicked

  -- The loop over the candidates, after `skipped` documents and `count` results.
  unfoldable pub query_loop : Query V → Table → List Bytes → ℕ → ℕ → Result (List (Document V))
  unfolding get_primary matches_conditions
  query_loop q t [] skipped count = ok []
  query_loop q t (id ∷ ids) skipped count = elim (ltb 0 q.limit && leb q.limit count) [
    | true ↦ ok []
    | false ↦ elim (find_at crc u sprint json id (get_primary id t.idx) t) [
      | error e ↦ query_loop q t ids skipped count
      | panicked ↦ panicked
      | ok d ↦ elim (matches_conditions d.doc q.conditions) [
        | false ↦ query_loop q t ids skipped count
        | true ↦ elim (ltb skipped q.skip) [
          | true ↦ query_loop q t ids (skipped + 1) count
          | false ↦ onto_result d (query_loop q t ids skipped (count + 1))
        ]
      ]
    ]
  ]

  unfoldable pub exec_query : Query V → Table → Result (List (Document V))
  unfolding candidate_ids query_loop
  exec_query q t = query_loop q t (candidate_ids q.conditions t.idx) 0 0

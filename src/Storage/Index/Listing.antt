-- ===== src/Storage/Index/Listing.antt =====
-- modules/storage/index.go: the secondary index after any updates.
use ginject.Prelude.{
  ◌≡◌, refl, sym, ◌∙◌, ap, inl, inr, true, Option, none, some, List, [], ◌∷◌, arith, ◌↔◌,
  if◌then◌else◌, Bool-cases, Option-cases,
}
use ginject.Prelude.Members.{In}
use ginject.Text.{Bytes, str_eq, str_eq_iff}
use ginject.GoMap.{GoMap, lookup, is_empty, lookup-insert, lookup_empty}
use ginject.GoMap.Nested.{inner}
use ginject.Storage.Index.{
  GoSet, keys_of, TableIndex, new_table_index, set_of, set_schema, Any, field_string,
  update_secondary, lookup_secondary, updates,
}
use ginject.Storage.Index.Entries.{is_in, listed, has, IsConsistent}
use ginject.Storage.Index.Secondary.{
  wanted, update_secondary-IsConsistent, listed-update_secondary, update_secondary-indexed_fields,
  update_secondary_unindexed,
}

pub In-keys_of_iff : (id : Bytes) (m : GoSet) → In id (keys_of m) ↔ (is_in (lookup id m) ≡ true)
unfolding keys_of lookup
In-keys_of_iff id [] = (λ h. absurd h, λ h. absurd (ground arith))
In-keys_of_iff id ((k, u) ∷ m) = elim (Bool-cases (str_eq k id)) [
  | inl e ↦ rw e (λ h. refl, λ h. inl (sym ((str_eq_iff k id).0 e)))
  | inr e ↦ rw e (
    λ h. elim h [
      | inl q ↦ absurd (ground (arith, str_eq_iff k id))
      | inr r ↦ (In-keys_of_iff id m).0 r
    ],
    λ h. inr ((In-keys_of_iff id m).1 h),
  )
]

keys_of_nil : keys_of {V = Unit {0}} [] ≡ []
unfolding keys_of
keys_of_nil = refl

lookup_secondary_keys :
    (f v : Bytes) (idx : TableIndex)
    → lookup_secondary f v idx ≡ keys_of (inner v (inner f idx.secondary_by_field))
unfolding lookup_secondary
lookup_secondary_keys f v idx = elim (Option-cases (lookup f idx.secondary_by_field)) [
  | inl e ↦ ground (arith, keys_of_nil, lookup_empty v (inner f idx.secondary_by_field))
  | inr (vals, e) ↦ elim (Option-cases (lookup v vals)) [
    | inl k ↦ ground (arith, keys_of_nil)
    | inr (set, k) ↦ ground arith
  ]
]

pub In-lookup_secondary :
    (f v id : Bytes) (idx : TableIndex)
    → In id (lookup_secondary f v idx) ↔ (listed f v id idx.secondary_by_field ≡ true)
In-lookup_secondary f v id idx =
    rw (lookup_secondary_keys f v idx)
      (In-keys_of_iff id (inner v (inner f idx.secondary_by_field)))

pub lookup-set_of : (f : Bytes) (fs : List Bytes) → (is_in (lookup f (set_of fs)) ≡ true) ↔ In f fs
unfolding set_of lookup
lookup-set_of f [] = (λ h. absurd (ground (arith, h)), λ h. absurd h)
lookup-set_of f (g ∷ fs) = rw (lookup-insert g f tt (set_of fs)) (elim (Bool-cases (str_eq g f)) [
  | inl e ↦ rw e (λ h. inl (sym ((str_eq_iff g f).0 e)), λ h. refl)
  | inr e ↦ rw e (
    λ h. inr ((lookup-set_of f fs).0 h),
    λ h. elim h [
      | inl q ↦ absurd (ground (arith, str_eq_iff g f))
      | inr r ↦ (lookup-set_of f fs).1 r
    ],
  )
])

has_iff : (x : Option Bytes) (v : Bytes) → (has x v ≡ true) ↔ (x ≡ some v)
has_iff none v = (λ h. absurd (ground arith), λ h. absurd (ground arith))
has_iff (some w) v = (λ h. ap some ((str_eq_iff w v).0 h), λ h. ground (arith, str_eq_iff w v))

new-IsConsistent :
    (indexed search : List Bytes) → IsConsistent (set_schema indexed search new_table_index)
unfolding lookup
new-IsConsistent indexed search f v id = refl

-- The data of the last update of an id.
abbrev pub last_of :
    {V : Type 0} → Bytes → List (Bytes × GoMap (Any V)) → GoMap (Any V) → GoMap (Any V)
last_of id [] start = start
last_of id ((j, doc) ∷ ops) start = last_of id ops (if str_eq j id then doc else start)

module _ {V : Type 0} (sprint : V → Bytes) where
  listed-updates :
      (f v id : Bytes) (ops : List (Bytes × GoMap (Any V))) (start : GoMap (Any V))
      (idx : TableIndex)
      → IsConsistent idx
      → listed f v id idx.secondary_by_field ≡ wanted sprint f v idx.indexed_fields start
      → listed f v id (updates sprint ops idx).secondary_by_field
        ≡ wanted sprint f v idx.indexed_fields (last_of id ops start)
  unfolding updates
  listed-updates f v id [] start idx c h = h
  listed-updates f v id ((j, doc) ∷ ops) start idx c h =
      let next = update_secondary sprint j [] doc idx in
      let same = update_secondary-indexed_fields sprint j [] doc idx in
      let now : listed f v id next.secondary_by_field
          ≡ wanted sprint f v next.indexed_fields (if str_eq j id then doc else start) =
        elim (Bool-cases (is_empty idx.indexed_fields)) [
          | inl e ↦ ground (
            arith,
            update_secondary_unindexed sprint j [] doc idx e,
            lookup_empty f idx.indexed_fields e,
          )
          | inr e ↦ ground (arith, listed-update_secondary sprint f v id j [] doc idx c e)
        ] in
      listed-updates f v id ops (if str_eq j id then doc else start) next
        (update_secondary-IsConsistent sprint j [] doc idx c) now
      ∙ ap (λ fields. wanted sprint f v fields (last_of id ((j, doc) ∷ ops) start)) same

  nothing_listed :
      (f v id : Bytes) (fields : GoSet) → listed f v id [] ≡ wanted sprint f v fields []
  unfolding lookup field_string
  nothing_listed f v id fields = ground arith

  -- After a schema was set on a new index and any updates, the index lists an id for a field and a
  -- value exactly where the field is indexed and the last data of the id has that value in it.
  pub In-lookup_secondary_iff :
      (indexed search : List Bytes) (ops : List (Bytes × GoMap (Any V))) (f v id : Bytes)
      → In id
          (lookup_secondary f v (updates sprint ops (set_schema indexed search new_table_index)))
        ↔ (In f indexed × (field_string sprint f (last_of id ops []) ≡ some v))
  In-lookup_secondary_iff indexed search ops f v id =
      let idx = set_schema indexed search new_table_index in
      let fields = set_of indexed in
      let last = last_of id ops [] in
      let listing : listed f v id (updates sprint ops idx).secondary_by_field
          ≡ wanted sprint f v fields last =
        listed-updates f v id ops [] idx (new-IsConsistent indexed search)
          (nothing_listed f v id fields) in
      let (there, back) = In-lookup_secondary f v id (updates sprint ops idx) in
      (
        λ h. (
          (lookup-set_of f indexed).0 (ground (arith, there h)),
          (has_iff (field_string sprint f last) v).0 (ground (arith, there h)),
        ),
        λ (h, k). back (
            ground
              (arith, (lookup-set_of f indexed).1 h, (has_iff (field_string sprint f last) v).1 k)),
      )

-- ===== src/Storage/Index/Secondary.antt =====
-- modules/storage/index.go: what the secondary index lists.
use ginject.Prelude.{
  ◌≡◌, refl, inl, inr, Bool, true, false, ◌&&◌, ◌||◌, none, List, [], ◌∷◌, arith, if◌then◌else◌,
  Bool-cases, Option-cases,
}
use ginject.Text.{Bytes, str_eq, str_eq_iff, str_eq_refl}
use ginject.GoMap.{GoMap, lookup, insert, is_empty, lookup-insert, lookup_empty}
use ginject.GoMap.Nested.{inner}
use ginject.Storage.Index.{
  GoSet, keys_of, TableIndex, Any, forget_values, add_entry, field_string, index_fields,
  index_values, update_secondary,
}
use ginject.Storage.Index.Entries.{
  is_in, listed, is_some, has, listed-add_entry, IsConsistent, listed-forget_values,
  inner-forget_values, lookup_nil, held_stored,
}

module _ {V : Type 0} (sprint : V → Bytes) where
  abbrev among : Bytes → List Bytes → Bool
  among f [] = false
  among f (g ∷ gs) = str_eq g f || among f gs

  listed-index_fields :
      (f v id j : Bytes) (doc : GoMap (Any V)) (fields : List Bytes)
      (secondary : GoMap (GoMap GoSet)) (rev : GoMap Bytes)
      → listed f v id (index_fields sprint j doc fields secondary rev).0 ≡ (
          listed f v id secondary
          || (str_eq j id && among f fields && has (field_string sprint f doc) v))
  unfolding index_fields
  listed-index_fields f v id j doc [] secondary rev = ground arith
  listed-index_fields f v id j doc (g ∷ gs) secondary rev =
      elim (Option-cases (field_string sprint g doc)) [
        | inl e ↦ ground (arith, listed-index_fields f v id j doc gs secondary rev, str_eq_iff g f)
        | inr (w, e) ↦ ground (
          arith,
          listed-index_fields f v id j doc gs (add_entry g w j secondary) (insert g w rev),
          listed-add_entry f v id g w j secondary,
          str_eq_iff g f,
        )
      ]

  lookup-index_fields :
      (f j : Bytes) (doc : GoMap (Any V)) (fields : List Bytes) (secondary : GoMap (GoMap GoSet))
      (rev : GoMap Bytes) (v : Bytes)
      → has (lookup f (index_fields sprint j doc fields secondary rev).1) v ≡ (
          if among f fields && is_some (field_string sprint f doc)
          then has (field_string sprint f doc) v
          else has (lookup f rev) v)
  unfolding index_fields
  lookup-index_fields f j doc [] secondary rev v = refl
  lookup-index_fields f j doc (g ∷ gs) secondary rev v =
      elim (Option-cases (field_string sprint g doc)) [
        | inl e ↦ ground (arith, lookup-index_fields f j doc gs secondary rev v, str_eq_iff g f)
        | inr (w, e) ↦ ground (
          arith,
          lookup-index_fields f j doc gs (add_entry g w j secondary) (insert g w rev) v,
          lookup-insert g f w rev,
          str_eq_iff g f,
        )
      ]

  -- The value that the data gives a field that is indexed.
  abbrev pub wanted : Bytes → Bytes → GoSet → GoMap (Any V) → Bool
  wanted f v fields doc = is_in (lookup f fields) && has (field_string sprint f doc) v

  among-keys_of : (f : Bytes) (fields : GoSet) → among f (keys_of fields) ≡ is_in (lookup f fields)
  unfolding keys_of lookup
  among-keys_of f [] = refl
  among-keys_of f ((g, u) ∷ fields) = ground (arith, among-keys_of f fields)

  field_string_nothing :
      (f : Bytes) (doc : GoMap (Any V)) → is_empty doc ≡ true → field_string sprint f doc ≡ none
  unfolding field_string
  field_string_nothing f doc h = ground (arith, lookup_empty f doc h)

  forget_values-indexed_fields :
      (j : Bytes) (idx : TableIndex) → (forget_values j idx).indexed_fields ≡ idx.indexed_fields
  unfolding forget_values
  forget_values-indexed_fields j idx = elim (Option-cases (lookup j idx.field_values_by_id)) [
    | inl e ↦ ground arith
    | inr (prev, e) ↦ ground arith
  ]

  listed-index_values :
      (f v id j : Bytes) (doc : GoMap (Any V)) (idx : TableIndex)
      → listed f v id (index_values sprint j doc idx).secondary_by_field ≡ (
          listed f v id idx.secondary_by_field
          || (str_eq j id && wanted f v idx.indexed_fields doc))
  unfolding index_values
  listed-index_values f v id j doc idx = ground (
    arith,
    listed-index_fields f v id j doc (keys_of idx.indexed_fields) idx.secondary_by_field [],
    among-keys_of f idx.indexed_fields,
  )

  held-index_values :
      (f v id j : Bytes) (doc : GoMap (Any V)) (idx : TableIndex)
      → inner j idx.field_values_by_id ≡ []
      → has (lookup f (inner id (index_values sprint j doc idx).field_values_by_id)) v ≡ (
          if str_eq j id
          then wanted f v idx.indexed_fields doc
          else has (lookup f (inner id idx.field_values_by_id)) v)
  unfolding index_values
  held-index_values f v id j doc idx h =
      let fields = keys_of idx.indexed_fields in
      let rev = (index_fields sprint j doc fields idx.secondary_by_field []).1 in
      ground (
        arith,
        held_stored f v id j rev idx.field_values_by_id h,
        among-keys_of f idx.indexed_fields,
        lookup-index_fields f j doc fields idx.secondary_by_field [] v,
      )

  held-update_secondary :
      (f v id j : Bytes) (old doc : GoMap (Any V)) (idx : TableIndex)
      → is_empty idx.indexed_fields ≡ false
      → has (lookup f (inner id (update_secondary sprint j old doc idx).field_values_by_id)) v ≡ (
          if str_eq j id
          then wanted f v idx.indexed_fields doc
          else has (lookup f (inner id idx.field_values_by_id)) v)
  unfolding update_secondary
  held-update_secondary f v id j old doc idx h = elim (Bool-cases (is_empty doc)) [
    | inl e ↦
        ground (arith, inner-forget_values id j idx, field_string_nothing f doc e, lookup_nil f)
    | inr e ↦ ground (
      arith,
      held-index_values f v id j doc (forget_values j idx),
      inner-forget_values id j idx,
      inner-forget_values j j idx,
      str_eq_refl j,
      forget_values-indexed_fields j idx,
    )
  ]

  pub listed-update_secondary :
      (f v id j : Bytes) (old doc : GoMap (Any V)) (idx : TableIndex)
      → IsConsistent idx
      → is_empty idx.indexed_fields ≡ false
      → listed f v id (update_secondary sprint j old doc idx).secondary_by_field ≡ (
          if str_eq j id
          then wanted f v idx.indexed_fields doc
          else listed f v id idx.secondary_by_field)
  unfolding update_secondary
  listed-update_secondary f v id j old doc idx c h = elim (Bool-cases (is_empty doc)) [
    | inl e ↦ ground (arith, listed-forget_values f v id j idx c, field_string_nothing f doc e)
    | inr e ↦ ground (
      arith,
      listed-index_values f v id j doc (forget_values j idx),
      listed-forget_values f v id j idx c,
      forget_values-indexed_fields j idx,
    )
  ]

  -- An update keeps the two sides of the index in agreement.
  pub update_secondary-IsConsistent :
      (j : Bytes) (old doc : GoMap (Any V)) (idx : TableIndex)
      → IsConsistent idx
      → IsConsistent (update_secondary sprint j old doc idx)
  update_secondary-IsConsistent j old doc idx c f v id =
      elim (Bool-cases (is_empty idx.indexed_fields)) [
        | inl e ↦ unfold update_secondary in rw e (c f v id)
        | inr e ↦ ground (
          arith,
          listed-update_secondary f v id j old doc idx c e,
          held-update_secondary f v id j old doc idx e,
          c f v id,
        )
      ]

  pub update_secondary-indexed_fields :
      (j : Bytes) (old doc : GoMap (Any V)) (idx : TableIndex)
      → (update_secondary sprint j old doc idx).indexed_fields ≡ idx.indexed_fields
  unfolding update_secondary index_values
  update_secondary-indexed_fields j old doc idx = ground (arith, forget_values-indexed_fields j idx)

  pub update_secondary_unindexed :
      (j : Bytes) (old doc : GoMap (Any V)) (idx : TableIndex)
      → is_empty idx.indexed_fields ≡ true
      → update_secondary sprint j old doc idx ≡ idx
  unfolding update_secondary
  update_secondary_unindexed j old doc idx e = rw e refl

-- ===== src/Storage/Index/Entries.antt =====
-- modules/storage/index.go: the entries of the secondary index, taken out and put in.
use ginject.Prelude.{
  ◌≡◌, refl, inl, inr, Bool, true, false, not, ◌&&◌, ◌||◌, Option, none, some, [], ◌∷◌, arith,
  if◌then◌else◌, Bool-cases, Option-cases,
}
use ginject.Text.{Bytes, str_eq, str_eq_iff}
use ginject.GoMap.{GoMap, lookup, insert, is_empty, lookup-insert, lookup-erase, lookup_empty}
use ginject.GoMap.Nested.{inner, put, drop, inner-put, inner-drop}
use ginject.Storage.Index.{GoSet, TableIndex, drop_entry, drop_entries, forget_values, add_entry}

abbrev pub is_in : Option (Unit {0}) → Bool
is_in none = false
is_in (some u) = true

-- The id stands in the set of the value of the field.
abbrev pub listed : Bytes → Bytes → Bytes → GoMap (GoMap GoSet) → Bool
listed f v id secondary = is_in (lookup id (inner v (inner f secondary)))

abbrev pub is_some : Option Bytes → Bool
is_some none = false
is_some (some w) = true

abbrev pub has : Option Bytes → Bytes → Bool
has none v = false
has (some w) v = str_eq w v

inner-insert :
    (f g : Bytes) (vals : GoMap GoSet) (secondary : GoMap (GoMap GoSet))
    → inner f (insert g vals secondary) ≡ (if str_eq g f then vals else inner f secondary)
inner-insert f g vals secondary = ground (arith, lookup-insert g f vals secondary)

pub listed-add_entry :
    (f v id g w j : Bytes) (secondary : GoMap (GoMap GoSet))
    → listed f v id (add_entry g w j secondary)
      ≡ (listed f v id secondary || (str_eq g f && str_eq w v && str_eq j id))
unfolding add_entry
listed-add_entry f v id g w j secondary = ground (
  arith,
  inner-insert f g (put w j tt (inner g secondary)) secondary,
  inner-put w j tt (inner g secondary) v,
  lookup-insert j id tt (inner w (inner g secondary)),
  str_eq_iff g f,
  str_eq_iff w v,
)

listed-drop_entry :
    (f v id g w j : Bytes) (secondary : GoMap (GoMap GoSet))
    → listed f v id (drop_entry g w j secondary)
      ≡ (listed f v id secondary && not (str_eq g f && str_eq w v && str_eq j id))
unfolding drop_entry
listed-drop_entry f v id g w j secondary = elim (Option-cases (lookup g secondary)) [
  | inl e ↦ ground (arith, str_eq_iff g f)
  | inr (vals, e) ↦ ground (
    arith,
    inner-insert f g (drop w j vals) secondary,
    inner-drop w j vals v,
    lookup-erase j id (inner w vals),
    str_eq_iff g f,
    str_eq_iff w v,
  )
]

-- Some entry of the map has the field and the value.
unfoldable mentions : Bytes → Bytes → GoMap Bytes → Bool
mentions f v [] = false
mentions f v ((g, w) ∷ m) = (str_eq g f && str_eq w v) || mentions f v m

has-mentions : (f v : Bytes) (m : GoMap Bytes) → has (lookup f m) v ≡ true → mentions f v m ≡ true
unfolding lookup mentions
has-mentions f v [] h = absurd (ground arith)
has-mentions f v ((g, w) ∷ m) h = ground (arith, has-mentions f v m)

listed-drop_entries :
    (f v id j : Bytes) (prev : GoMap Bytes) (secondary : GoMap (GoMap GoSet))
    → listed f v id (drop_entries j prev secondary)
      ≡ (listed f v id secondary && not (str_eq j id && mentions f v prev))
unfolding drop_entries mentions
listed-drop_entries f v id j [] secondary = ground arith
listed-drop_entries f v id j ((g, w) ∷ prev) secondary = ground (
  arith,
  listed-drop_entries f v id j prev (drop_entry g w j secondary),
  listed-drop_entry f v id g w j secondary,
)

-- The index lists an id under the value that it keeps for it, and under no other.
abbrev pub IsConsistent : TableIndex → Type 0
IsConsistent idx =
    (f v id : Bytes)
    → listed f v id idx.secondary_by_field ≡ has (lookup f (inner id idx.field_values_by_id)) v

pub listed-forget_values :
    (f v id j : Bytes) (idx : TableIndex)
    → IsConsistent idx
    → listed f v id (forget_values j idx).secondary_by_field
      ≡ (if str_eq j id then false else listed f v id idx.secondary_by_field)
unfolding forget_values
listed-forget_values f v id j idx c = elim (Option-cases (lookup j idx.field_values_by_id)) [
  | inl e ↦ ground (arith, c f v id, str_eq_iff j id)
  | inr (prev, e) ↦ ground (
    arith,
    c f v id,
    listed-drop_entries f v id j prev idx.secondary_by_field,
    has-mentions f v prev,
    str_eq_iff j id,
  )
]

pub inner-forget_values :
    (id j : Bytes) (idx : TableIndex)
    → inner id (forget_values j idx).field_values_by_id
      ≡ (if str_eq j id then [] else inner id idx.field_values_by_id)
unfolding forget_values
inner-forget_values id j idx = elim (Option-cases (lookup j idx.field_values_by_id)) [
  | inl e ↦ ground (arith, str_eq_iff j id)
  | inr (prev, e) ↦ ground (arith, lookup-erase j id idx.field_values_by_id)
]

pub lookup_nil : (f : Bytes) → lookup {V = Bytes} f [] ≡ none
unfolding lookup
lookup_nil f = refl

pub held_stored :
    (f v id j : Bytes) (rev : GoMap Bytes) (values : GoMap (GoMap Bytes))
    → inner j values ≡ []
    → has (lookup f (inner id (if is_empty rev then values else insert j rev values))) v
      ≡ (if str_eq j id then has (lookup f rev) v else has (lookup f (inner id values)) v)
held_stored f v id j rev values h = elim (Bool-cases (is_empty rev)) [
  | inl e ↦ ground (arith, lookup_empty f rev e, lookup_nil f, str_eq_iff j id)
  | inr e ↦ ground (arith, lookup-insert j id rev values)
]

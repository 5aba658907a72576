-- ===== src/Storage/Index.antt =====
-- modules/storage/index.go: the index of a table in memory. A `map[string]bool`, which only ever
-- holds `true`, is the map of its keys.
pub mod Entries
pub mod Secondary
pub mod Listing
pub mod Search
use ginject.Prelude.{
  ℕ, Bool, true, false, Option, none, some, List, [], ◌∷◌, ◌++◌, leb, length, ◌||◌, if◌then◌else◌,
}
use ginject.Text.{Bytes}
use ginject.GoMap.{GoMap, lookup, insert, erase, is_empty}
use ginject.GoMap.Nested.{inner, put, drop}
use ginject.Storage.Replay.{Location}

abbrev pub GoSet : Type 0
GoSet = GoMap Unit

-- `for k := range m`
unfoldable pub keys_of {ℓ} : {V : Type ℓ} → GoMap V → List Bytes
keys_of [] = []
keys_of ((k, v) ∷ m) = k ∷ keys_of m

pub record TableIndex : Type 0 where
  pub location_by_id : GoMap Location
  pub secondary_by_field : GoMap (GoMap GoSet)
  pub field_values_by_id : GoMap (GoMap Bytes)
  pub ids_by_term : GoMap GoSet
  pub terms_by_id : GoMap (List Bytes)
  pub indexed_fields : GoSet
  pub search_fields : GoSet

abbrev pub new_table_index : TableIndex
new_table_index = record {
  location_by_id = [];
  secondary_by_field = [];
  field_values_by_id = [];
  ids_by_term = [];
  terms_by_id = [];
  indexed_fields = [];
  search_fields = [];
}

unfoldable pub set_primary : Bytes → Location → TableIndex → TableIndex
unfolding insert
set_primary id loc idx = record idx { location_by_id = insert id loc idx.location_by_id }

unfoldable pub get_primary : Bytes → TableIndex → Option Location
unfolding lookup
get_primary id idx = lookup id idx.location_by_id

unfoldable pub delete_primary : Bytes → TableIndex → TableIndex
unfolding erase
delete_primary id idx = record idx { location_by_id = erase id idx.location_by_id }

unfoldable pub all_primary_ids : TableIndex → List Bytes
unfolding keys_of
all_primary_ids idx = keys_of idx.location_by_id

-- A set of the fields that a list names.
unfoldable pub set_of : List Bytes → GoSet
unfolding insert
set_of [] = []
set_of (f ∷ fs) = insert f tt (set_of fs)

abbrev pub set_schema : List Bytes → List Bytes → TableIndex → TableIndex
set_schema indexed search idx = record idx {
  indexed_fields = set_of indexed;
  search_fields = set_of search;
}

-- A value of type `any`: nil, a string, bytes, or of another type.
pub data Any (V : Type 0) : Type 0 where
  nil : Any V
  str : Bytes → Any V
  bytes : Bytes → Any V
  other : V → Any V

-- `delete(vals[val], id)` where the field is there, and the value's set when it is left empty.
unfoldable pub drop_entry : Bytes → Bytes → Bytes → GoMap (GoMap GoSet) → GoMap (GoMap GoSet)
unfolding lookup insert drop
drop_entry field val id secondary = elim (lookup field secondary) [
  | none ↦ secondary
  | some vals ↦ insert field (drop val id vals) secondary
]

unfoldable pub drop_entries : Bytes → GoMap Bytes → GoMap (GoMap GoSet) → GoMap (GoMap GoSet)
unfolding drop_entry
drop_entries id [] secondary = secondary
drop_entries id ((field, val) ∷ prev) secondary =
    drop_entries id prev (drop_entry field val id secondary)

-- The first half of `updateSecondary`: what the id had is taken out.
unfoldable pub forget_values : Bytes → TableIndex → TableIndex
unfolding lookup erase drop_entries
forget_values id idx = elim (lookup id idx.field_values_by_id) [
  | none ↦ idx
  | some prev ↦ record idx {
    secondary_by_field = drop_entries id prev idx.secondary_by_field;
    field_values_by_id = erase id idx.field_values_by_id;
  }
]

-- `secondaryByField[field][val][id] = true`, with the maps made where they are missing.
unfoldable pub add_entry : Bytes → Bytes → Bytes → GoMap (GoMap GoSet) → GoMap (GoMap GoSet)
unfolding lookup insert put
add_entry field val id secondary = insert field (put val id tt (inner field secondary)) secondary

-- `sprint` is `fmt.Sprint`.
module _ {V : Type 0} (sprint : V → Bytes) where
  abbrev pub any_to_string : Any V → Bytes
  any_to_string nil = []
  any_to_string (str s) = s
  any_to_string (bytes s) = s
  any_to_string (other v) = sprint v

  -- The string of a field, where the data has it.
  unfoldable pub field_string : Bytes → GoMap (Any V) → Option Bytes
  unfolding lookup
  field_string field doc = elim (lookup field doc) [ none ↦ none | some v ↦ some (any_to_string v) ]

  -- The loop over the indexed fields, with the map `rev`.
  unfoldable pub index_fields :
      Bytes
      → GoMap (Any V)
      → List Bytes
      → GoMap (GoMap GoSet)
      → GoMap Bytes
      → GoMap (GoMap GoSet) × GoMap Bytes
  unfolding field_string add_entry insert
  index_fields id doc [] secondary rev = (secondary, rev)
  index_fields id doc (field ∷ fields) secondary rev = elim (field_string field doc) [
    | none ↦ index_fields id doc fields secondary rev
    | some val ↦
        index_fields id doc fields (add_entry field val id secondary) (insert field val rev)
  ]

  -- The second half of `updateSecondary`.
  unfoldable pub index_values : Bytes → GoMap (Any V) → TableIndex → TableIndex
  unfolding index_fields keys_of is_empty insert
  index_values id doc idx =
      let (secondary, rev) =
        index_fields id doc (keys_of idx.indexed_fields) idx.secondary_by_field [] in
      record idx {
        secondary_by_field = secondary;
        field_values_by_id =
            if is_empty rev then idx.field_values_by_id else insert id rev idx.field_values_by_id;
      }

  unfoldable pub update_secondary : Bytes → GoMap (Any V) → GoMap (Any V) → TableIndex → TableIndex
  unfolding forget_values index_values is_empty
  update_secondary id old doc idx =
      if is_empty idx.indexed_fields
      then idx
      else if is_empty doc
      then forget_values id idx
      else index_values id doc (forget_values id idx)

  abbrev pub remove_secondary : Bytes → TableIndex → TableIndex
  remove_secondary id idx = update_secondary id [] [] idx

unfoldable pub lookup_secondary : Bytes → Bytes → TableIndex → List Bytes
unfolding lookup keys_of
lookup_secondary field value idx = elim (lookup field idx.secondary_by_field) [
  | none ↦ []
  | some vals ↦ elim (lookup value vals) [ none ↦ [] | some set ↦ keys_of set ]
]

-- `updateSecondary` of one id after the other; no data takes an id out.
unfoldable pub updates :
    {V : Type 0} → (V → Bytes) → List (Bytes × GoMap (Any V)) → TableIndex → TableIndex
unfolding update_secondary
updates sprint [] idx = idx
updates sprint ((id, doc) ∷ ops) idx = updates sprint ops (update_secondary sprint id [] doc idx)

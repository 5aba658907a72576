-- ===== src/Storage/Replay/Buffered.antt =====
-- modules/storage/engine.go: the buffer of a transaction, applied at its commit, next to its records
-- applied one after the other.
use ginject.Prelude.{
  ℕ, ◌≡◌, refl, sym, ◌∙◌, ap, inl, inr, true, false, Option, none, some, List, [], ◌∷◌,
  if◌then◌else◌, Bool-cases,
}
use ginject.Prelude.Members.{All}
use ginject.Text.{Bytes, str_eq, str_eq_iff}
use ginject.GoMap.{GoMap, lookup, insert, values, lookup-insert, lookup-erase}
use ginject.GoMap.Distinct.{Distinct, insert-Distinct}
use ginject.Storage.{
  RecType, rec_insert, rec_update, rec_delete, rec_tx_begin, rec_tx_commit, rec_tx_rollback,
  unknown,
}
use ginject.Storage.Replay.{Location, TxEntry, apply, apply_all, apply_type}
use ginject.Storage.Replay.Live.{is_data, IsOf}

-- What a record leaves under its own id.
abbrev pub left : RecType → Location → Option Location
left rec_insert loc = some loc
left rec_update loc = some loc
left rec_delete loc = none
left rec_tx_begin loc = none
left rec_tx_commit loc = none
left rec_tx_rollback loc = none
left (unknown b) loc = none

pub lookup-apply :
    (e : TxEntry) (id : Bytes) (primary : GoMap Location)
    → is_data e.rec.rtype ≡ true
    → lookup id (apply e primary)
      ≡ (if str_eq e.rec.id id then left e.rec.rtype e.loc else lookup id primary)
unfolding apply
lookup-apply e id primary h = by_type e.rec.rtype h
  where
    by_type :
        (t : RecType)
        → is_data t ≡ true
        → lookup id (apply_type t e.rec.id e.loc primary)
          ≡ (if str_eq e.rec.id id then left t e.loc else lookup id primary)
    by_type rec_insert k = lookup-insert e.rec.id id e.loc primary
    by_type rec_update k = lookup-insert e.rec.id id e.loc primary
    by_type rec_delete k = lookup-erase e.rec.id id primary
    by_type rec_tx_begin k = cc
    by_type rec_tx_commit k = cc
    by_type rec_tx_rollback k = cc
    by_type (unknown b) k = cc

-- The entry of a buffer under an id, over an index.
abbrev over : Option TxEntry → Option Location → Option Location
over none below = below
over (some e) below = left e.rec.rtype e.loc

-- The entries of a buffer are data and stand under their own ids.
abbrev pub IsBuffer : GoMap TxEntry → Type 0
IsBuffer [] = Unit
IsBuffer ((k, e) ∷ m) = (is_data e.rec.rtype ≡ true) × (e.rec.id ≡ k) × IsBuffer m

pub insert-IsBuffer :
    (e : TxEntry) (m : GoMap TxEntry)
    → is_data e.rec.rtype ≡ true
    → IsBuffer m
    → IsBuffer (insert e.rec.id e m)
unfolding insert
insert-IsBuffer e [] h b = (h, refl, tt)
insert-IsBuffer e ((k, f) ∷ m) h (d, s, b) = elim (Bool-cases (str_eq k e.rec.id)) [
  | inl n ↦ rw n (h, refl, b)
  | inr n ↦ rw n (d, s, insert-IsBuffer e m h b)
]

lookup-apply_all-values :
    (m : GoMap TxEntry) (id : Bytes) (primary : GoMap Location)
    → IsBuffer m
    → Distinct m
    → lookup id (apply_all (values m) primary) ≡ over (lookup id m) (lookup id primary)
unfolding apply_all values lookup
lookup-apply_all-values [] id primary b d = refl
lookup-apply_all-values ((k, e) ∷ m) id primary (h, s, b) (fresh, d) =
    let rest = lookup-apply_all-values m id (apply e primary) b d in
    let first = lookup-apply e id primary h in
    elim (Bool-cases (str_eq k id)) [
      | inl n ↦
          let absent : lookup id m ≡ none =
            ap (λ j. lookup j m) (sym ((str_eq_iff k id).0 n)) ∙ fresh in
          let same : str_eq e.rec.id id ≡ true = ap (λ j. str_eq j id) s ∙ n in
          rest ∙ ap (λ o. over o (lookup id (apply e primary))) absent ∙ first ∙ rw (same, n) refl
      | inr n ↦
          let other : str_eq e.rec.id id ≡ false = ap (λ j. str_eq j id) s ∙ n in
          let below : lookup id (apply e primary) ≡ lookup id primary = first ∙ rw other refl in
          rest ∙ ap (over (lookup id m)) below ∙ rw n refl
    ]

-- The buffer after some records of its transaction.
unfoldable pub collect : List TxEntry → GoMap TxEntry → GoMap TxEntry
collect [] m = m
collect (e ∷ es) m = collect es (insert e.rec.id e m)

module _ (tx : ℕ) where
  collect-IsBuffer :
      (es : List TxEntry) (m : GoMap TxEntry)
      → All (IsOf tx) es
      → IsBuffer m
      → IsBuffer (collect es m)
  unfolding collect
  collect-IsBuffer [] m h b = b
  collect-IsBuffer (e ∷ es) m ((d, t), hs) b =
      collect-IsBuffer es (insert e.rec.id e m) hs (insert-IsBuffer e m d b)

  lookup-collect :
      (es : List TxEntry) (m : GoMap TxEntry) (start now : GoMap Location)
      → All (IsOf tx) es
      → ((id : Bytes) → lookup id now ≡ over (lookup id m) (lookup id start))
      → (id : Bytes)
      → lookup id (apply_all es now) ≡ over (lookup id (collect es m)) (lookup id start)
  unfolding collect apply_all
  lookup-collect [] m start now h r = r
  lookup-collect (e ∷ es) m start now ((d, t), hs) r =
      lookup-collect es (insert e.rec.id e m) start (apply e now) hs (λ id.
        lookup-apply e id now d ∙ elim (Bool-cases (str_eq e.rec.id id)) [
          | inl n ↦ rw (lookup-insert e.rec.id id e m, n) refl
          | inr n ↦ rw (lookup-insert e.rec.id id e m, n) (r id)
        ])

collect-Distinct : (es : List TxEntry) (m : GoMap TxEntry) → Distinct m → Distinct (collect es m)
unfolding collect
collect-Distinct [] m d = d
collect-Distinct (e ∷ es) m d =
    collect-Distinct es (insert e.rec.id e m) (insert-Distinct e.rec.id e m d)

-- Applying the buffer of a transaction is applying its records in their order.
pub lookup-commit :
    (tx : ℕ) (es : List TxEntry) (primary : GoMap Location) (id : Bytes)
    → All (IsOf tx) es
    → lookup id (apply_all (values (collect es [])) primary) ≡ lookup id (apply_all es primary)
lookup-commit tx es primary id h =
    lookup-apply_all-values (collect es []) id primary (collect-IsBuffer tx es [] h tt)
      (collect-Distinct es [] tt)
    ∙ sym (lookup-collect tx es [] primary primary h (λ j. unfold lookup in refl) id)

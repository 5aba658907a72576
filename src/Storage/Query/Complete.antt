-- ===== src/Storage/Query/Complete.antt =====
-- modules/storage/model.go: the documents that a query gives.
use ginject.Prelude.{ℕ, ◌≡◌, sym, ◌∙◌, ap, inl, inr, true, some, List, arith, Option-cases}
use ginject.Text.{Bytes}
use ginject.GoMap.{GoMap}
use ginject.Storage.Replay.{Location}
use ginject.Storage.Index.{get_primary}
use ginject.Storage.Index.Entries.{listed}
use ginject.Storage.Index.Secondary.{wanted}
use ginject.Storage.Index.Search.{Unicode}
use ginject.Storage.Model.{Payload, Json, Document, Result, ok, Table, doc_of, find_at}
use ginject.Storage.Model.Finding.{read_doc-read}
use ginject.Storage.Model.Sound.{IsSound}
use ginject.Storage.Query.{Condition, Query, matches_conditions}

module _ {V : Type 0} (crc : Bytes → ℕ) (u : Unicode) (sprint : V → Bytes) (json : Json V) where
  -- The document of an id, read at the location that the index has.
  abbrev pub doc_at : Bytes → Table → Result (Document V)
  doc_at id t = find_at crc u sprint json id (get_primary id t.idx) t

  abbrev pub IsMatch : List (Condition V) → Table → Document V → Bytes → Type 0
  IsMatch cs t d id = (doc_at id t ≡ ok d) × (matches_conditions crc u sprint json d.doc cs ≡ true)

  unmarshal_doc :
      (id payload : Bytes) (p : Payload V) (d : Document V)
      → json.unmarshal payload ≡ some p
      → doc_of crc u sprint json id payload ≡ ok d
      → p.doc ≡ d.doc
  unmarshal_doc id payload p d h k = ground arith

  -- A document that is there is listed under its values.
  pub listed-doc_at :
      (t : Table) (id : Bytes) (d : Document V) (f v : Bytes)
      → IsSound crc u sprint json t
      → doc_at id t ≡ ok d
      → ((loc : Location) × (get_primary id t.idx ≡ some loc))
        × (listed f v id t.idx.secondary_by_field ≡ wanted sprint f v t.idx.indexed_fields d.doc)
  listed-doc_at t id d f v s h = elim (Option-cases (get_primary id t.idx)) [
    | inl e ↦ absurd (ground arith)
    | inr (loc, e) ↦
        let (r, p, l, m, n) = s.kept id loc e in
        let same : doc_of crc u sprint json id r.payload ≡ ok d =
          sym (read_doc-read crc u sprint json id loc t r l) ∙ ground arith in
        (
          (loc, e),
          n f v
              ∙ ap (wanted sprint f v t.idx.indexed_fields) (unmarshal_doc id r.payload p d m same),
        )
  ]

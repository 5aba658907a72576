-- ===== src/Storage/Query/Paging.antt =====
-- modules/storage/model.go: the loop of a query, and the page of documents that it takes.
use ginject.Prelude.{
  ℕ, zero, suc, ◌+◌, ◌-◌, ◌≡◌, ◌≢◌, refl, sym, ap, inl, inr, Bool, true, false, ◌&&◌, List, [], ◌∷◌,
  ltb, leb, take, drop, arith, ◌⊎◌, if◌then◌else◌, Bool-cases,
}
use ginject.Text.{Bytes}
use ginject.Storage.Index.{get_primary}
use ginject.Storage.Index.Search.{Unicode}
use ginject.Storage.Model.{Json, Document, Result, ok, error, panicked, StoreError, Table, find_at}
use ginject.Storage.Query.{Condition, Query, matches_conditions, query_loop}

module _ {V : Type 0} (crc : Bytes → ℕ) (u : Unicode) (sprint : V → Bytes) (json : Json V) where
  abbrev onto_if : Bool → Document V → List (Document V) → List (Document V)
  onto_if true d ds = d ∷ ds
  onto_if false d ds = ds

  abbrev matched : List (Condition V) → Result (Document V) → List (Document V) → List (Document V)
  matched cs (ok d) ds = onto_if (matches_conditions crc u sprint json d.doc cs) d ds
  matched cs (error e) ds = ds
  matched cs panicked ds = ds

  -- The documents of some ids that match, read without a limit.
  unfoldable pub all_matching : List (Condition V) → Table → List Bytes → List (Document V)
  all_matching cs t [] = []
  all_matching cs t (id ∷ ids) =
      matched cs (find_at crc u sprint json id (get_primary id t.idx) t) (all_matching cs t ids)

  -- `skip` and then `limit` of them.
  abbrev pub page : Query V → List (Document V) → List (Document V)
  page q ds = if ltb 0 q.limit then take q.limit (drop q.skip ds) else drop q.skip ds

  -- The rest of a page after `skipped` documents and `count` results.
  abbrev pub rest_of : ℕ → ℕ → ℕ → ℕ → List (Document V) → List (Document V)
  rest_of limit skip skipped count ds =
      if ltb 0 limit
      then take (limit - count) (drop (skip - skipped) ds)
      else drop (skip - skipped) ds

  pub Result-cases :
      (x : Result (Document V))
      → (((d : Document V) × (x ≡ ok d)) ⊎ ((e : StoreError) × (x ≡ error e))) ⊎ (x ≡ panicked)
  Result-cases (ok d) = inl (inl (d, refl))
  Result-cases (error e) = inl (inr (e, refl))
  Result-cases panicked = inr refl

  take_nil : (n : ℕ) → take {A = Document V} n [] ≡ []
  take_nil zero = refl
  take_nil (suc n) = refl

  drop_nil : (n : ℕ) → drop {A = Document V} n [] ≡ []
  drop_nil zero = refl
  drop_nil (suc n) = refl

  rest_of_nil : (limit skip skipped count : ℕ) → rest_of limit skip skipped count [] ≡ []
  rest_of_nil limit skip skipped count =
      ground (arith, take_nil (limit - count), drop_nil (skip - skipped))

  rest_of_full :
      (limit skip skipped count : ℕ) (ds : List (Document V))
      → (ltb 0 limit && leb limit count) ≡ true
      → rest_of limit skip skipped count ds ≡ []
  rest_of_full limit skip skipped count ds h =
      let none_left : limit - count ≡ 0 = ground arith in
      let limited : ltb 0 limit ≡ true = ground arith in rw (limited, none_left) refl

  rest_of_skipped :
      (limit skip skipped count : ℕ) (d : Document V) (ds : List (Document V))
      → ltb skipped skip ≡ true
      → rest_of limit skip (skipped + 1) count ds ≡ rest_of limit skip skipped count (d ∷ ds)
  rest_of_skipped limit skip skipped count d ds h =
      let one_more : skip - skipped ≡ suc (skip - (skipped + 1)) = ground arith in rw one_more refl

  rest_of_taken :
      (limit skip skipped count : ℕ) (d : Document V) (ds : List (Document V))
      → ltb skipped skip ≡ false
      → (ltb 0 limit && leb limit count) ≡ false
      → d ∷ rest_of limit skip skipped (count + 1) ds ≡ rest_of limit skip skipped count (d ∷ ds)
  rest_of_taken limit skip skipped count d ds h k =
      let no_skip : skip - skipped ≡ 0 = ground arith in
      elim (Bool-cases (ltb 0 limit)) [
        | inl e ↦
            let one_more : limit - count ≡ suc (limit - (count + 1)) = ground arith in
            rw (e, no_skip, one_more) refl
        | inr e ↦ rw (e, no_skip) refl
      ]

  pub query_loop-rest :
      (q : Query V) (t : Table) (ids : List Bytes) (skipped count : ℕ)
      → ((id : Bytes) → find_at crc u sprint json id (get_primary id t.idx) t ≢ panicked)
      → query_loop crc u sprint json q t ids skipped count
        ≡ ok (rest_of q.limit q.skip skipped count (all_matching q.conditions t ids))
  unfolding query_loop all_matching
  query_loop-rest q t [] skipped count h = ap ok (sym (rest_of_nil q.limit q.skip skipped count))
  query_loop-rest q t (id ∷ ids) skipped count h =
      elim (Bool-cases (ltb 0 q.limit && leb q.limit count)) [
        | inl e ↦ ground (
          arith,
          rest_of_full q.limit q.skip skipped count (all_matching q.conditions t (id ∷ ids)) e,
        )
        | inr e ↦ elim (Result-cases (find_at crc u sprint json id (get_primary id t.idx) t)) [
          | inl (inl (d, k)) ↦
              elim (Bool-cases (matches_conditions crc u sprint json d.doc q.conditions)) [
                | inl m ↦ elim (Bool-cases (ltb skipped q.skip)) [
                  | inl l ↦ ground (
                    arith,
                    query_loop-rest q t ids (skipped + 1) count h,
                    rest_of_skipped q.limit q.skip skipped count d (all_matching q.conditions t ids)
                        l,
                  )
                  | inr l ↦ ground (
                    arith,
                    query_loop-rest q t ids skipped (count + 1) h,
                    rest_of_taken q.limit q.skip skipped count d (all_matching q.conditions t ids) l
                        e,
                  )
                ]
                | inr m ↦ ground (arith, query_loop-rest q t ids skipped count h)
              ]
          | inl (inr (x, k)) ↦ ground (arith, query_loop-rest q t ids skipped count h)
          | inr k ↦ absurd (h id k)
        ]
      ]

-- ===== src/Router/Placing.antt =====
-- routing/router.go: where `push` puts handlers, and the index of the main one.
use ginject.Prelude.{
  ℕ, ◌+◌, ◌-◌, ◌<◌, ◌≡◌, refl, sym, inl, inr, ◌&&◌, Option, none, some, List, [], ◌∷◌, ◌++◌, arith,
  length, length-append, length-take, length-drop, take, drop, get_elem?, ◌==◌, ltb, Bool-cases,
  Option-cases,
}
use ginject.Text.{Bytes}
use ginject.GoMap.{GoMap}
use ginject.Str.{enclose}
use ginject.Router.{
  RouterItem, Router, slash, find_router_item, items_of, with_keys, without, place, place_added,
  place_over, item_for, pushed_item, add_caller, use_caller, for_caller,
}
use ginject.Router.Params.{parse_to_param_key}

module _ {H : Type 0} where
  get_elem?-append_last : (hs : List H) (h : H) → get_elem? (hs ++ h ∷ []) (length hs) ≡ some h
  get_elem?-append_last [] h = refl
  get_elem?-append_last (x ∷ hs) h = get_elem?-append_last hs h

  abbrev pub IsIndexed : RouterItem H → Type 0
  IsIndexed item = (i : ℕ) → item.handler_index ≡ some i → i < length item.handlers

  -- The index points at the handler.
  abbrev pub PointsAt : H → RouterItem H → Type 0
  PointsAt h item =
      (i : ℕ) × (item.handler_index ≡ some i)
      × (get_elem? item.handlers i ≡ some h)
      × (i < length item.handlers)

  last-PointsAt :
      (hs : List H) (h : H) (i : ℕ) (item : RouterItem H)
      → i ≡ length hs
      → PointsAt h (record item { handlers = hs ++ h ∷ []; handler_index = some i })
  last-PointsAt hs h i item e =
      (i, refl, rw e (get_elem?-append_last hs h), omega (arith, length-append hs (h ∷ [])))

  length-without : (i : ℕ) (hs : List H) → i < length hs → length (without i hs) ≡ length hs - 1
  unfolding without
  length-without i hs k =
      omega (
        arith,
        length-append (take i hs) (drop (i + 1) hs),
        length-take i hs,
        length-drop (i + 1) hs,
      )

  place_over-PointsAt :
      (j : Option ℕ) (h : H) (item : RouterItem H)
      → ((i : ℕ) → j ≡ some i → i < length item.handlers)
      → PointsAt h (place_over j (h ∷ []) item)
  unfolding place_over
  place_over-PointsAt none h item k = last-PointsAt item.handlers h (length item.handlers) item refl
  place_over-PointsAt (some i) h item k =
      last-PointsAt (without i item.handlers) h (length item.handlers - 1) item
        (sym (length-without i item.handlers (k i refl)))

  place_added-PointsAt :
      (globals : List H) (h : H) (item : RouterItem H)
      → IsIndexed item
      → PointsAt h (place_added globals (h ∷ []) item)
  unfolding place_added
  place_added-PointsAt globals h item k =
      elim (Bool-cases ((length item.handlers == 0) && (length globals == 0))) [
        | inl e ↦ rw e (last-PointsAt item.handlers h 0 item (ground arith))
        | inr e ↦ elim (Bool-cases ((length item.handlers == 0) && ltb 0 (length globals))) [
          | inl e' ↦
              let none_yet : length item.handlers ≡ 0 = ground arith in
              let same : length globals ≡ length (item.handlers ++ globals) =
                omega (arith, length-append item.handlers globals) in
              rw (e, e') (last-PointsAt (item.handlers ++ globals) h (length globals) item same)
          | inr e' ↦ rw (e, e') (place_over-PointsAt item.handler_index h item k)
        ]
      ]

  pub PointsAt-IsIndexed : (h : H) (item : RouterItem H) → PointsAt h item → IsIndexed item
  PointsAt-IsIndexed h item (i, e, at, k) j e' = ground arith

  append-IsIndexed :
      (hs : List H) (item : RouterItem H)
      → IsIndexed item
      → IsIndexed (record item { handlers = item.handlers ++ hs })
  append-IsIndexed hs item k i e = omega (arith, length-append item.handlers hs, k i e)

  pub with_keys-IsIndexed :
      (keys : GoMap (List ℕ)) (item : RouterItem H)
      → IsIndexed item
      → IsIndexed (with_keys keys item)
  with_keys-IsIndexed [] item k = k
  with_keys-IsIndexed (key ∷ keys) item k = k

  with_keys-PointsAt :
      (keys : GoMap (List ℕ)) (h : H) (item : RouterItem H)
      → PointsAt h item
      → PointsAt h (with_keys keys item)
  with_keys-PointsAt [] h item k = k
  with_keys-PointsAt (key ∷ keys) h item k = k

  -- The callers that append.
  pub place_for-IsIndexed :
      (globals hs : List H) (item : RouterItem H)
      → IsIndexed item
      → IsIndexed (place for_caller globals hs item)
  unfolding place
  place_for-IsIndexed globals hs item k =
      elim (Bool-cases ((length item.handlers == 0) && ltb 0 (length globals))) [
        | inl e ↦ rw e (
            append-IsIndexed hs (record item { handlers = item.handlers ++ globals })
              (append-IsIndexed globals item k))
        | inr e ↦ rw e (append-IsIndexed hs item k)
      ]

  pub place_use-IsIndexed :
      (globals hs : List H) (item : RouterItem H)
      → IsIndexed item
      → IsIndexed (place use_caller globals hs item)
  unfolding place
  place_use-IsIndexed globals hs item k = append-IsIndexed hs item k

  -- The items that are found have their index inside their handlers.
  abbrev pub AreIndexed : Router H → Type 0
  AreIndexed r =
      (pattern method version : Bytes) (item : RouterItem H)
      → find_router_item (items_of pattern r) method version ≡ some item
      → IsIndexed item

  module _ (trim_space : Bytes → Bytes) where
    pub item_for-IsIndexed :
        (method route version : Bytes) (r : Router H)
        → AreIndexed r
        → IsIndexed (item_for trim_space method route version r)
    unfolding item_for
    item_for-IsIndexed method route version r k =
        elim (Option-cases (find_router_item (items_of (enclose route slash) r) method version)) [
          | inl n ↦ rw n (λ i e. absurd (ground arith))
          | inr (item, n) ↦ rw n (k (enclose route slash) method version item n)
        ]

    pub added-PointsAt :
        (method route version : Bytes) (h : H) (r : Router H)
        → AreIndexed r
        → PointsAt h (pushed_item trim_space method route version add_caller (h ∷ []) r)
    unfolding pushed_item place
    added-PointsAt method route version h r k =
        let item = item_for trim_space method route version r in
        with_keys-PointsAt (parse_to_param_key (enclose route slash)).1 h
          (place_added r.global_middlewares (h ∷ []) item)
          (place_added-PointsAt r.global_middlewares h item
            (item_for-IsIndexed method route version r k))

-- ===== src/Router/Items.antt =====
-- routing/router.go: the items of a router before and after a push.
use ginject.Prelude.{
  ℕ, ◌≡◌, refl, ◌∙◌, ap, subst, inl, inr, ◌&&◌, Option, none, some, List, [], ◌∷◌, arith,
  if◌then◌else◌, length, ◌==◌, ltb, Bool-cases, Option-cases,
}
use ginject.Text.{Bytes, str_eq, str_eq_iff}
use ginject.GoMap.{lookup-insert}
use ginject.Str.{enclose}
use ginject.Router.{
  Caller, RouterItem, Router, slash, is_for, find_router_item, store_item, items_of, items_or_nil,
  with_keys, place, place_added, place_over, item_for, pushed_item, push, add_caller, use_caller,
  for_caller, group_caller,
}
use ginject.Router.Params.{parse_to_param_key}

module _ {H : Type 0} where
  find-store_item :
      (item : RouterItem H) (items : List (RouterItem H)) (method version : Bytes)
      → find_router_item (store_item item items) method version
        ≡ (if is_for method version item then some item else find_router_item items method version)
  unfolding find_router_item store_item
  find-store_item item [] method version = refl
  find-store_item item (other ∷ items) method version = ground (
    arith,
    str_eq_iff item.method method,
    str_eq_iff item.version version,
    str_eq_iff other.method item.method,
    str_eq_iff other.version item.version,
    str_eq_iff other.method method,
    str_eq_iff other.version version,
    find-store_item item items method version,
  )

  pub find_is_for :
      (items : List (RouterItem H)) (method version : Bytes) (item : RouterItem H)
      → find_router_item items method version ≡ some item
      → (item.method ≡ method) × (item.version ≡ version)
  unfolding find_router_item
  find_is_for [] method version item h = absurd (ground arith)
  find_is_for (other ∷ items) method version item h =
      elim (Bool-cases (is_for method version other)) [
        | inl e ↦
            let same : other ≡ item = ground arith in
            subst (λ x. (x.method ≡ method) × (x.version ≡ version)) same
              (
                (str_eq_iff other.method method).0 (ground arith),
                (str_eq_iff other.version version).0 (ground arith),
              )
        | inr e ↦ find_is_for items method version item (ground arith)
      ]

  -- What is kept of an item by the places of its handlers and its keys.
  abbrev Names : Bytes → Bytes → RouterItem H → Type 0
  Names method version item = (item.method ≡ method) × (item.version ≡ version)

  with_keys-Names :
      (keys : _) (method version : Bytes) (item : RouterItem H)
      → Names method version item
      → Names method version (with_keys keys item)
  with_keys-Names [] method version item h = h
  with_keys-Names (key ∷ keys) method version item h = h

  place_over-Names :
      (i : Option ℕ) (hs : List H) (method version : Bytes) (item : RouterItem H)
      → Names method version item
      → Names method version (place_over i hs item)
  unfolding place_over
  place_over-Names none hs method version item h = h
  place_over-Names (some i) hs method version item h = h

  place_added-Names :
      (globals hs : List H) (method version : Bytes) (item : RouterItem H)
      → Names method version item
      → Names method version (place_added globals hs item)
  unfolding place_added
  place_added-Names globals hs method version item h =
      elim (Bool-cases ((length item.handlers == 0) && (length globals == 0))) [
        | inl e ↦ rw e h
        | inr e ↦ elim (Bool-cases ((length item.handlers == 0) && ltb 0 (length globals))) [
          | inl e' ↦ rw (e, e') h
          | inr e' ↦ rw (e, e') (place_over-Names item.handler_index hs method version item h)
        ]
      ]

  place-Names :
      (caller : Caller) (globals hs : List H) (method version : Bytes) (item : RouterItem H)
      → Names method version item
      → Names method version (place caller globals hs item)
  unfolding place
  place-Names add_caller globals hs method version item h =
      place_added-Names globals hs method version item h
  place-Names use_caller globals hs method version item h = h
  place-Names group_caller globals hs method version item h = h
  place-Names for_caller globals hs method version item h =
      elim (Bool-cases ((length item.handlers == 0) && ltb 0 (length globals))) [
        | inl e ↦ rw e h
        | inr e ↦ rw e h
      ]

  module _ (trim_space : Bytes → Bytes) where
    item_for-Names :
        (method route version : Bytes) (r : Router H)
        → Names method version (item_for trim_space method route version r)
    unfolding item_for
    item_for-Names method route version r =
        elim (Option-cases (find_router_item (items_of (enclose route slash) r) method version)) [
          | inl n ↦ rw n (refl, refl)
          | inr (item, n) ↦
              rw n (find_is_for (items_of (enclose route slash) r) method version item n)
        ]

    pushed_item-Names :
        (method route version : Bytes) (caller : Caller) (hs : List H) (r : Router H)
        → Names method version (pushed_item trim_space method route version caller hs r)
    unfolding pushed_item
    pushed_item-Names method route version caller hs r =
        with_keys-Names (parse_to_param_key (enclose route slash)).1 method version
          (place caller r.global_middlewares hs (item_for trim_space method route version r))
          (place-Names caller r.global_middlewares hs method version
            (item_for trim_space method route version r) (item_for-Names method route version r))

    items_of-push :
        (method route version : Bytes) (caller : Caller) (hs : List H) (r : Router H)
        (pattern : Bytes)
        → items_of pattern (push trim_space method route version caller hs r) ≡ (
            if str_eq (enclose route slash) pattern
            then store_item
                (pushed_item trim_space method route version caller hs r)
                (items_of (enclose route slash) r)
            else items_of pattern r)
    unfolding items_of push
    items_of-push method route version caller hs r pattern =
        let own = enclose route slash in
        let items =
          store_item (pushed_item trim_space method route version caller hs r) (items_of own r) in
        ap items_or_nil (lookup-insert own pattern items r.router_item_by_pattern)
        ∙ elim (Bool-cases (str_eq own pattern)) [ inl e ↦ rw e refl | inr e ↦ rw e refl ]

    -- A push stores the item of its pattern, method and version, and leaves every other.
    pub find-push :
        (method route version : Bytes) (caller : Caller) (hs : List H) (r : Router H)
        (pattern m v : Bytes)
        → find_router_item (items_of pattern (push trim_space method route version caller hs r)) m v
          ≡ (if str_eq (enclose route slash) pattern && (str_eq method m && str_eq version v)
              then some (pushed_item trim_space method route version caller hs r)
              else find_router_item (items_of pattern r) m v)
    find-push method route version caller hs r pattern m v =
        let new = pushed_item trim_space method route version caller hs r in
        let own = enclose route slash in
        let (e, e') = pushed_item-Names method route version caller hs r in
        ground (
          arith,
          items_of-push method route version caller hs r pattern,
          find-store_item new (items_of own r) m v,
          str_eq_iff own pattern,
          e,
          e',
        )

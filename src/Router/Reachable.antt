-- ===== src/Router/Reachable.antt =====
-- routing/router.go: the routers that `Add`, `For` and `Use` make of an empty one.
use ginject.Prelude.{◌≡◌, subst, inl, inr, ◌&&◌, some, List, [], ◌∷◌, ◌++◌, arith, Bool-cases}
use ginject.Text.{Bytes, str_eq, str_eq_refl}
use ginject.GoMap.{GoMap}
use ginject.Str.{enclose}
use ginject.Router.{
  Caller, RouterItem, Router, slash, new_router, find_router_item, items_of, place, item_for,
  pushed_item, push, add_route, for_methods, use_items, use_entries, use_middlewares, add_caller,
  use_caller, for_caller,
}
use ginject.Router.Params.{parse_to_param_key}
use ginject.Router.Items.{find-push}
use ginject.Router.Placing.{
  IsIndexed, PointsAt, AreIndexed, PointsAt-IsIndexed, with_keys-IsIndexed, place_for-IsIndexed,
  place_use-IsIndexed, item_for-IsIndexed, added-PointsAt,
}

module _ {H : Type 0} (trim_space : Bytes → Bytes) where
  push-AreIndexed :
      (method route version : Bytes) (caller : Caller) (hs : List H) (r : Router H)
      → AreIndexed r
      → IsIndexed (pushed_item trim_space method route version caller hs r)
      → AreIndexed (push trim_space method route version caller hs r)
  push-AreIndexed method route version caller hs r k new pattern m v item found =
      let moved = find-push trim_space method route version caller hs r pattern m v in
      elim (Bool-cases
        (str_eq (enclose route slash) pattern && (str_eq method m && str_eq version v))) [
          | inl e ↦
              let same : pushed_item trim_space method route version caller hs r ≡ item =
                ground arith in
              subst IsIndexed same new
          | inr e ↦ k pattern m v item (ground arith)
        ]

  push_added-AreIndexed :
      (method route version : Bytes) (h : H) (r : Router H)
      → AreIndexed r
      → AreIndexed (push trim_space method route version add_caller (h ∷ []) r)
  push_added-AreIndexed method route version h r k =
      push-AreIndexed method route version add_caller (h ∷ []) r k (
        PointsAt-IsIndexed h (pushed_item trim_space method route version add_caller (h ∷ []) r)
          (added-PointsAt trim_space method route version h r k))

  push_for-AreIndexed :
      (method route version : Bytes) (hs : List H) (r : Router H)
      → AreIndexed r
      → AreIndexed (push trim_space method route version for_caller hs r)
  push_for-AreIndexed method route version hs r k =
      let item = item_for trim_space method route version r in
      push-AreIndexed method route version for_caller hs r k (
        unfold pushed_item in
        with_keys-IsIndexed (parse_to_param_key (enclose route slash)).1
          (place for_caller r.global_middlewares hs item)
          (place_for-IsIndexed r.global_middlewares hs item
            (item_for-IsIndexed trim_space method route version r k)))

  push_use-AreIndexed :
      (method route version : Bytes) (hs : List H) (r : Router H)
      → AreIndexed r
      → AreIndexed (push trim_space method route version use_caller hs r)
  push_use-AreIndexed method route version hs r k =
      let item = item_for trim_space method route version r in
      push-AreIndexed method route version use_caller hs r k (
        unfold pushed_item in
        with_keys-IsIndexed (parse_to_param_key (enclose route slash)).1
          (place use_caller r.global_middlewares hs item)
          (place_use-IsIndexed r.global_middlewares hs item
            (item_for-IsIndexed trim_space method route version r k)))

  for_methods-AreIndexed :
      (methods : List Bytes) (route version : Bytes) (hs : List H) (r : Router H)
      → AreIndexed r
      → AreIndexed (for_methods trim_space methods route version hs r)
  unfolding for_methods
  for_methods-AreIndexed [] route version hs r k = k
  for_methods-AreIndexed (method ∷ methods) route version hs r k =
      for_methods-AreIndexed methods route version hs
        (push trim_space method route version for_caller hs r)
        (push_for-AreIndexed method route version hs r k)

  use_items-AreIndexed :
      (route : Bytes) (items : List (RouterItem H)) (hs : List H) (r : Router H)
      → AreIndexed r
      → AreIndexed (use_items trim_space route items hs r)
  unfolding use_items
  use_items-AreIndexed route [] hs r k = k
  use_items-AreIndexed route (item ∷ items) hs r k =
      use_items-AreIndexed route items hs
        (push trim_space item.method route item.version use_caller hs r)
        (push_use-AreIndexed item.method route item.version hs r k)

  use_entries-AreIndexed :
      (m : GoMap (List (RouterItem H))) (hs : List H) (r : Router H)
      → AreIndexed r
      → AreIndexed (use_entries trim_space m hs r)
  unfolding use_entries
  use_entries-AreIndexed [] hs r k = k
  use_entries-AreIndexed ((route, items) ∷ m) hs r k =
      use_entries-AreIndexed m hs (use_items trim_space route items hs r)
        (use_items-AreIndexed route items hs r k)

  globals-AreIndexed :
      (globals : List H) (r : Router H)
      → AreIndexed r
      → AreIndexed (record r { global_middlewares = globals })
  unfolding items_of
  globals-AreIndexed globals r k = k

  new_router-AreIndexed : AreIndexed (new_router {H = H})
  unfolding new_router items_of find_router_item
  new_router-AreIndexed pattern method version item h = absurd (ground arith)

  pub data Reach : Router H → Type 0 where
    start : Reach new_router
    added :
        {r : Router H} (method route version : Bytes) (h : H)
        → Reach r
        → Reach (add_route trim_space method route version h r)
    for :
        {r : Router H} (methods : List Bytes) (route version : Bytes) (hs : List H)
        → Reach r
        → Reach (for_methods trim_space methods route version hs r)
    used : {r : Router H} (hs : List H) → Reach r → Reach (use_middlewares trim_space hs r)

  -- On every router made by `Add`, `For` and `Use`, an item that is found has its handler index
  -- inside its handlers.
  pub Reach-AreIndexed : {r : Router H} → Reach r → AreIndexed r
  unfolding add_route use_middlewares
  Reach-AreIndexed start = new_router-AreIndexed
  Reach-AreIndexed (added {r = r} method route version h k) =
      push_added-AreIndexed method route version h r (Reach-AreIndexed k)
  Reach-AreIndexed (for {r = r} methods route version hs k) =
      for_methods-AreIndexed methods route version hs r (Reach-AreIndexed k)
  Reach-AreIndexed (used {r = r} hs k) =
      let globals = r.global_middlewares ++ hs in
      use_entries-AreIndexed r.router_item_by_pattern hs (record r { global_middlewares = globals })
        (globals-AreIndexed globals r (Reach-AreIndexed k))

  -- On such a router `Add` leaves an item for its pattern, method and version whose handler index
  -- points at the handler that was added, whatever middlewares and handlers stood there before.
  pub find-add_route :
      {r : Router H} (method route version : Bytes) (h : H)
      → Reach r
      → (item : RouterItem H) × (find_router_item
            (items_of (enclose route slash) (add_route trim_space method route version h r))
            method
            version
          ≡ some item)
        × PointsAt h item
  unfolding add_route
  find-add_route {r = r} method route version h k =
      let item = pushed_item trim_space method route version add_caller (h ∷ []) r in
      (
        item,
        ground (
          arith,
          find-push trim_space method route version add_caller (h ∷ []) r (enclose route slash)
              method version,
          str_eq_refl (enclose route slash),
          str_eq_refl method,
          str_eq_refl version,
        ),
        added-PointsAt trim_space method route version h r (Reach-AreIndexed k),
      )

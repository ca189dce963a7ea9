-- ===== src/Overview/Attention.antt =====
-- web/src/app/dashboard/page.tsx: which services the overview lists, and in which order.
use mathlib.Core.List.{Perm}
use mathlib.Core.List.Perm
use meergate.Base.{
  ℕ, ◌≡◌, ◌++◌, refl, ap, subst, arith, inl, inr, String, Bool, ◌||◌, List, [], ◌∷◌, map, filter,
  Dict, lookup, or_else, string_eq, if◌then◌else◌, ltb, sort, sort-perm, sort-IsSorted, IsSorted,
  IsTotal, Bool-cases,
}
use meergate.Data.{CatalogEntry}
use meergate.Double.{Double}
use meergate.GateStatus.{service_coverage_pct}
use meergate.Overview.{status_of}
use meergate.Overview.Page.{
  Overview, ServiceItem, item_le, item_for, items_for, service_items, failing_by_service,
  is_blocked, is_unreachable, is_low, is_not_configured,
}

item_le-IsTotal : IsTotal item_le
item_le-IsTotal = record { total = λ a b h. ground arith; trans = λ a b c h k. ground arith }

module _ (d : Double) (o : Overview) (failing : Dict String ℕ) where
  -- A service that something is wrong with.
  abbrev pub needs_attention : CatalogEntry → Bool
  needs_attention svc =
      is_blocked (status_of o.gates o.coverage svc)
      || (is_unreachable svc
          || (ltb 0 (or_else (lookup svc.id failing) 0)
              || (is_low (service_coverage_pct d o.coverage svc.id)
                  || is_not_configured (status_of o.gates o.coverage svc))))

  module _ (encode : String → String) where
    ids-item_for :
        (svc : CatalogEntry)
        → map (λ i. i.id) (item_for d encode o failing svc)
          ≡ (if needs_attention svc then svc.id ∷ [] else [])
    unfolding item_for
    ids-item_for svc = ground arith

    map-append :
        (xs ys : List ServiceItem)
        → map (λ i. i.id) (xs ++ ys) ≡ map (λ i. i.id) xs ++ map (λ i. i.id) ys
    map-append [] ys = refl
    map-append (x ∷ xs) ys = ap (λ l. x.id ∷ l) (map-append xs ys)

    ids-items_for :
        (catalog : List CatalogEntry)
        → map (λ i. i.id) (items_for d encode o failing catalog)
          ≡ map (λ s. s.id) (filter needs_attention catalog)
    unfolding items_for
    ids-items_for [] = refl
    ids-items_for (svc ∷ catalog) = elim (Bool-cases (needs_attention svc)) [
      | inl h ↦ rw (
        map-append (item_for d encode o failing svc) (items_for d encode o failing catalog),
        ids-item_for svc,
        h,
        ids-items_for catalog,
      )
      | inr h ↦ rw (
        map-append (item_for d encode o failing svc) (items_for d encode o failing catalog),
        ids-item_for svc,
        h,
        ids-items_for catalog,
      )
    ]

-- The overview lists exactly the services that something is wrong with, each once, the most severe
-- first.
pub service_items_lem :
    (d : Double) (encode : String → String) (o : Overview)
    → Perm (map (λ i. i.id) (service_items d encode o)) (
        map
          (λ s. s.id)
          (filter (needs_attention d o (failing_by_service o.coverage o.tests)) o.catalog))
      × IsSorted item_le (service_items d encode o)
unfolding service_items
service_items_lem d encode o =
    let failing = failing_by_service o.coverage o.tests in
    (
      subst (λ l. Perm (map (λ i. i.id) (sort item_le (items_for d encode o failing o.catalog))) l)
          (ids-items_for d o failing encode o.catalog)
          (Perm.map (λ i. i.id) (sort-perm item_le (items_for d encode o failing o.catalog))),
      sort-IsSorted item_le item_le-IsTotal (items_for d encode o failing o.catalog),
    )

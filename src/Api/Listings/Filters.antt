-- ===== src/Api/Listings/Filters.antt =====
-- Which events `list_events` of labos/api/app.py lists, and in which order.
use mathlib.Core.List.{Permᴰ}
use labos.Prelude.{
  ◌≤◌, String, ◌≡◌, refl, sym, ap, ◌∙◌, Bool, true, false, ◌&&◌, Option, none, some, List, [], ◌∷◌,
  keep, arith, string_eq, Bool-cases, inl, inr,
}
use mathlib.Core.Path.{subst}
use labos.Db.Rows.{EventRow}
use labos.Db.Table.{order_by}
use labos.Db.Order.{Ascending, order_by-Ascending, order_by-Perm}
use labos.Api.Listings.{
  EventFilters, column_is, where_column, where_nullable, event_listed_before, select_events,
}

-- one value of a filter against a column
unfoldable pub allows : Option String → Option String → Bool
allows none column = true
allows (some value) column = column_is value column

-- an event that has each value that the filters ask for
unfoldable pub fits_filters : EventFilters → EventRow → Bool
fits_filters f r =
    allows f.run_id r.run_id
    && (allows f.lab_id r.lab_id
        && (allows f.resource_id r.resource_id
            && (allows f.resource_type r.resource_type
                && (allows f.actor_type (some r.actor_type)
                    && allows f.event_type (some r.event_type)))))

module _ {A : Type 0} where
  keep-keep : (p q : A → Bool) (rows : List A) → keep p (keep q rows) ≡ keep (λ r. p r && q r) rows
  keep-keep p q [] = refl
  keep-keep p q (r ∷ rows) = elim (Bool-cases (q r)) [
    | inr refused ↦ elim (Bool-cases (p r)) [
      | inl kept ↦ rw (refused, kept) (keep-keep p q rows)
      | inr lost ↦ rw (refused, lost) (keep-keep p q rows)
    ]
    | inl passed ↦ elim (Bool-cases (p r)) [
      | inl kept ↦ rw (passed, kept) (ap (λ rest. r ∷ rest) (keep-keep p q rows))
      | inr lost ↦ rw (passed, lost) (keep-keep p q rows)
    ]
  ]

  keep-all : (rows : List A) → keep (λ r. true) rows ≡ rows
  keep-all [] = refl
  keep-all (r ∷ rows) = ap (λ rest. r ∷ rest) (keep-all rows)

where_nullable-keep :
    (column : EventRow → Option String) (value : Option String) (rows : List EventRow)
    → where_nullable column value rows ≡ keep (λ r. allows value (column r)) rows
unfolding allows
where_nullable-keep column none rows = sym (keep-all rows)
where_nullable-keep column (some v) rows = refl

where_column-keep :
    (column : EventRow → String) (value : Option String) (rows : List EventRow)
    → where_column column value rows ≡ keep (λ r. allows value (some (column r))) rows
unfolding allows
where_column-keep column none rows = sym (keep-all rows)
where_column-keep column (some v) rows = refl

pub event_before-le :
    (a b : EventRow) → event_listed_before a b ≡ true → a.created_at ≤ b.created_at
event_before-le a b h = ground arith

pub event_before-ge :
    (a b : EventRow) → event_listed_before a b ≡ false → b.created_at ≤ a.created_at
event_before-ge a b h = ground arith

-- a further condition on rows that were kept
where_nullable-fused :
    (column : EventRow → Option String) (value : Option String) (p : EventRow → Bool)
    (all : List EventRow) {rows : List EventRow}
    → rows ≡ keep p all
    → where_nullable column value rows ≡ keep (λ r. allows value (column r) && p r) all
where_nullable-fused column value p all h =
    ap (where_nullable column value) h
    ∙ where_nullable-keep column value (keep p all)
    ∙ keep-keep (λ r. allows value (column r)) p all

where_column-fused :
    (column : EventRow → String) (value : Option String) (p : EventRow → Bool) (all : List EventRow)
    {rows : List EventRow}
    → rows ≡ keep p all
    → where_column column value rows ≡ keep (λ r. allows value (some (column r)) && p r) all
where_column-fused column value p all h =
    ap (where_column column value) h
    ∙ where_column-keep column value (keep p all)
    ∙ keep-keep (λ r. allows value (some (column r))) p all

-- one filter that stands for the query's conditions
select_events-fused :
    (f : EventFilters) (rows : List EventRow)
    → select_events f rows ≡ order_by event_listed_before (keep (λ r. fits_filters f r) rows)
unfolding select_events fits_filters
select_events-fused f rows = ap (order_by event_listed_before) (
    where_nullable-fused (λ r. r.run_id) f.run_id _ rows
      (where_nullable-fused (λ r. r.lab_id) f.lab_id _ rows
        (where_nullable-fused (λ r. r.resource_id) f.resource_id _ rows
          (where_nullable-fused (λ r. r.resource_type) f.resource_type _ rows
            (where_column-fused (λ r. r.actor_type) f.actor_type _ rows
              (where_column-keep (λ r. r.event_type) f.event_type rows))))))

-- The rows that are listed for some filters are, up to their order, the events that have every value
-- asked for, and none was recorded later than one listed behind it.
pub select_events-Perm :
    (f : EventFilters) (rows : List EventRow)
    → Permᴰ (select_events f rows) (keep (λ r. fits_filters f r) rows)
      × Ascending event_listed_before
          (λ r. r.created_at)
          event_before-le
          event_before-ge
          (select_events f rows)
select_events-Perm f rows =
    subst
      (λ listed.
        Permᴰ listed (keep (λ r. fits_filters f r) rows)
        × Ascending event_listed_before (λ r. r.created_at) event_before-le event_before-ge listed)
      (sym (select_events-fused f rows))
      (
        order_by-Perm event_listed_before (keep (λ r. fits_filters f r) rows),
        order_by-Ascending event_listed_before (λ r. r.created_at) event_before-le event_before-ge
            (keep (λ r. fits_filters f r) rows),
      )

-- ===== src/Events/Pages.antt =====
-- The pages of the admin's list of src/routers/events.py.
use mathlib.Core.Path.{subst, ap}
use checkin_service.Base.{
  not, ◌&&◌, ℕ, ◌+◌, ◌≤◌, ◌≡◌, Option-cases, inl, inr, ◌<◌, ◌⊎◌, In, All, true, false, Option, none,
  some, List, [], ◌∷◌, ◌++◌, select, arith, ok, leb, >>=-eq-ok,
}
use checkin_service.Base.Sorting.{
  sort_by, page, page-add, IsSortedBy, sort_by-IsSortedBy, IsSortedBy-page, All-page, All-sort_by,
}
use checkin_service.Text.{Text, text_eq}
use checkin_service.Text.Equality.{text_eq→eq}
use checkin_service.Models.{Db, Event, DateTime}
use checkin_service.Auth.Roles.{Actor}
use checkin_service.Auth.Gates.{require_admin}
use checkin_service.Events.{resolve_school_id}
use checkin_service.Events.Reads.{select-All}
use checkin_service.Events.Lists.{query_bounds, list_events, newest_first, is_asked_for}

newest_first_total : (a b : Event) → newest_first a b ≡ false → newest_first b a ≡ true
unfolding newest_first
newest_first_total a b h = ground arith

newest_first_trans :
    (a b c : Event) → newest_first a b ≡ true → newest_first b c ≡ true → newest_first a c ≡ true
unfolding newest_first
newest_first_trans a b c h g = ground arith

-- A page of the list, written out.
list_events_rows :
    (actor : Actor) (t s : Option Text) (limit offset : ℕ) (db : Db) (xs : List Event)
    → list_events actor t s limit offset db ≡ ok xs
    → (school_id : Text) × (require_admin actor ≡ ok actor)
      × (resolve_school_id actor ≡ ok school_id)
      × (leb 1 limit ≡ true)
      × (xs
          ≡ page offset limit
              (sort_by newest_first (select (is_asked_for school_id t s) db.events)))
unfolding list_events query_bounds require_admin
list_events_rows actor t s limit offset db xs h =
    let (admin, h1, r1) = >>=-eq-ok (require_admin actor) _ h in
    let (u, h2, r2) = >>=-eq-ok (query_bounds limit) _ r1 in
    let (school_id, h3, r3) = >>=-eq-ok (resolve_school_id actor) _ r2 in
    (school_id, ground (arith, h1), h3, ground arith, cc r3)

-- A row of the first start and id may stand before one of the second: it starts later, or the other has no
-- start, or they start at the same time or both have no start and its id is not the smaller one.
abbrev StartsAhead : Option DateTime → ℕ → Option DateTime → ℕ → Type 0
StartsAhead none i none j = j ≤ i
StartsAhead none i (some t) j = true ≡ false
StartsAhead (some s) i none j = Unit
StartsAhead (some s) i (some t) j = (t < s) ⊎ ((t ≡ s) × (j ≤ i))

abbrev pub IsAhead : Event → Event → Type 0
IsAhead a b = StartsAhead a.start_time a.id b.start_time b.id

-- Every row stands before all that follow it.
abbrev pub AreInOrder : List Event → Type 0
AreInOrder [] = Unit
AreInOrder (x ∷ xs) = All (IsAhead x) xs × AreInOrder xs

newest_first-IsAhead : (a b : Event) → newest_first a b ≡ true → IsAhead a b
unfolding newest_first
newest_first-IsAhead a b h = elim (Option-cases a.start_time) [
  | inl e ↦ elim (Option-cases b.start_time) [
    | inl f ↦ rw e (rw f (ground arith))
    | inr (t, f) ↦ absurd (ground arith)
  ]
  | inr (s, e) ↦ elim (Option-cases b.start_time) [
    | inl f ↦ rw e (rw f tt)
    | inr (t, f) ↦ rw e (rw f (ground arith))
  ]
]

All-IsAhead :
    (x : Event) (xs : List Event) → All (λ y. newest_first x y ≡ true) xs → All (IsAhead x) xs
All-IsAhead x [] a = tt
All-IsAhead x (y ∷ xs) a = (newest_first-IsAhead x y a.0, All-IsAhead x xs a.1)

sorted-AreInOrder : (xs : List Event) → IsSortedBy newest_first xs → AreInOrder xs
sorted-AreInOrder [] s = tt
sorted-AreInOrder (x ∷ xs) s = (All-IsAhead x xs s.0, sorted-AreInOrder xs s.1)

-- A row of the table, of the school of the caller.
abbrev pub IsOwn : Actor → Db → Event → Type 0
IsOwn actor db e = In e db.events × (some e.school_id ≡ actor.school_id)

asked-IsOwn :
    (actor : Actor) (school_id : Text) (t s : Option Text) (e : Event)
    → resolve_school_id actor ≡ ok school_id
    → is_asked_for school_id t s e ≡ true
    → some e.school_id ≡ actor.school_id
unfolding resolve_school_id is_asked_for
asked-IsOwn actor school_id t s e h g =
    let same : text_eq e.school_id school_id ≡ true = ground arith in
    let eq : e.school_id ≡ school_id = text_eq→eq e.school_id school_id same in ground (arith, eq)

-- Two consecutive pages of the admin's list, whose limits together are at most 200, are one larger page
-- of it; every row in them is one of the table and of the caller's school; and together they are in
-- the order of the list: the latest start first, those without a start at the end, and among equal
-- starts the larger id first.
pub list_events_tile :
    (actor : Actor) (t s : Option Text) (l m offset : ℕ) (db : Db) (xs ys : List Event)
    → list_events actor t s l offset db ≡ ok xs
    → list_events actor t s m (offset + l) db ≡ ok ys
    → l + m ≤ 200
    → (list_events actor t s (l + m) offset db ≡ ok (xs ++ ys))
      × All (IsOwn actor db) (xs ++ ys)
      × AreInOrder (xs ++ ys)
unfolding list_events query_bounds
list_events_tile actor t s l m offset db xs ys hx hy small =
    let (school_id, admin, school, some_rows, ex) = list_events_rows actor t s l offset db xs hx in
    let (school_id', admin', school', more_rows, ey) =
      list_events_rows actor t s m (offset + l) db ys hy in
    let same : school_id' ≡ school_id = cc (school, school') in
    let matching = select (is_asked_for school_id t s) db.events in
    let sorted = sort_by newest_first matching in
    let whole : page offset (l + m) sorted ≡ xs ++ ys =
      cc (page-add offset l m sorted, ex, ey, same) in
    let in_bounds : (not (leb 1 (l + m) && leb (l + m) 200)) ≡ false = ground arith in
    (
      rw admin (rw school (rw in_bounds (ap ok whole))),
      subst (All (IsOwn actor db)) whole (
          All-page (IsOwn actor db) offset (l + m) sorted (
            All-sort_by (IsOwn actor db) newest_first matching (
              select-All (IsOwn actor db) (is_asked_for school_id t s) db.events
                (λ e i g. (i, asked-IsOwn actor school_id t s e school g))))),
      sorted-AreInOrder (xs ++ ys) (
          subst (IsSortedBy newest_first) whole (
            IsSortedBy-page newest_first offset (l + m) sorted
              (sort_by-IsSortedBy newest_first matching newest_first_total newest_first_trans))),
    )

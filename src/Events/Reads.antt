-- ===== src/Events/Reads.antt =====
-- What the lists of src/routers/events.py show.
use checkin_service.Base.{
  ℕ, ◌≡◌, ◌≤◌, refl, true, Bool, Bool-cases, Option, some, List, [], ◌∷◌, In, here, there, map, All,
  select, count_where, length, inl, inr, ◌⊎◌, arith, ok, >>=-eq-ok,
}
use checkin_service.Base.Sorting.{sort_by, page, All-page, All-sort_by, length-page-le}
use checkin_service.Text.{Text, or_else}
use checkin_service.Text.Equality.{text_eq→eq}
use checkin_service.Models.{Db, Event, Visibility}
use checkin_service.Auth.Roles.{Actor}
use checkin_service.Registrations.Gate.{is_open}
use checkin_service.Events.{is_public, is_school_only}
use checkin_service.Events.Lists.{
  is_listed, discover_events, discover_response, Discovery, soonest_first, query_bounds,
}

pub select-All {ℓ κ} :
    {A : Type ℓ} (P : A → Type κ) (p : A → Bool) (xs : List A)
    → ((x : A) → In x xs → p x ≡ true → P x)
    → All P (select p xs)
unfolding select
select-All P p [] h = tt
select-All P p (x ∷ xs) h = elim (Bool-cases (p x)) [
  | inl e ↦ rw (e, select) (h x (here refl) e, select-All P p xs (λ y m g. h y (there m) g))
  | inr e ↦ rw (e, select) (select-All P p xs (λ y m g. h y (there m) g))
]

length-select {ℓ} :
    {A : Type ℓ} (p : A → Bool) (xs : List A) → length (select p xs) ≡ count_where p xs
unfolding select count_where
length-select p [] = refl
length-select p (x ∷ xs) = elim (Bool-cases (p x)) [
  | inl e ↦ rw (e, select) (omega (arith, length-select p xs))
  | inr e ↦ rw (e, select) (omega (arith, length-select p xs))
]

-- An event that anybody may see, or one of the caller's own school.
abbrev pub IsVisible : Actor → Event → Type 0
IsVisible actor e =
    (is_open e.status ≡ true)
    × ((e.visibility ≡ Visibility.public)
        ⊎ ((e.visibility ≡ Visibility.school_only) × (some e.school_id ≡ actor.school_id)))

is_listed-IsVisible :
    (actor : Actor) (t : Option Text) (e : Event) → is_listed actor t e ≡ true → IsVisible actor e
unfolding is_listed is_public is_school_only
is_listed-IsVisible actor t e h =
    (ground arith, ground (arith, text_eq→eq e.school_id (or_else actor.school_id [])))

-- An event of the table that the caller may see.
abbrev pub IsShown : Actor → Db → Event → Type 0
IsShown actor db e = In e db.events × IsVisible actor e

-- The discovery feed answers with stripped copies of at most `limit` rows of the table, each of them an
-- event that is published or active, and public or limited to the school of the caller; and its
-- total is the number of all rows that match.
pub discover_events-AreVisible :
    (actor : Actor) (t : Option Text) (limit offset : ℕ) (db : Db) (out : Discovery)
    → discover_events actor t limit offset db ≡ ok out
    → (rows : List Event) × (out.events ≡ map discover_response rows)
      × All (IsShown actor db) rows
      × (length rows ≤ limit)
      × (out.total ≡ length (select (is_listed actor t) db.events))
unfolding discover_events
discover_events-AreVisible actor t limit offset db out h =
    let (u, h1, r1) = >>=-eq-ok (query_bounds limit) _ h in
    let matching = select (is_listed actor t) db.events in
    let sorted = sort_by soonest_first matching in
    (
      page offset limit sorted,
      cc r1,
      All-page (IsShown actor db) offset limit sorted (
          All-sort_by (IsShown actor db) soonest_first matching (
            select-All (IsShown actor db) (is_listed actor t) db.events
              (λ e m g. (m, is_listed-IsVisible actor t e g)))),
      length-page-le offset limit sorted,
      cc (r1, length-select (is_listed actor t) db.events),
    )

-- ===== src/Events/Cases.antt =====
-- How the handlers that write an event end, of src/routers/events.py: one case for each kind of result
-- with the database that it leaves.
use checkin_service.Base.{
  ℕ, ◌+◌, ◌≡◌, Bool, Bool-cases, Option, some, Option-cases, List, inl, inr, Result, HttpError,
  Result-cases, ok, err, ◌==◌, update_where,
}
use checkin_service.Text.{Text, is_empty}
use checkin_service.Models.{Db, DateTime, Event, event_conflict}
use checkin_service.Models.Store.{add_row}
use checkin_service.Hashing.{sanitize_text}
use checkin_service.Auth.Roles.{Actor}
use checkin_service.Events.{
  EventCreate, create_gate, replayed_event, new_event, insert_event, create_event, own_row,
  set_event_cancelled, delete_event,
}
use checkin_service.Events.Update.{EventUpdate, merge, flush_row, update_event}

insert_cases :
    (P : Result Event × Db → Type 0) (actor : Actor) (p : EventCreate) (tenant : Text)
    (key : Option Text) (title : Text) (now : DateTime) (db : Db)
    → ((e : HttpError) → P (err e, db))
    → ((x : Event) → P (ok x, db))
    → ((rows : List Event)
        → add_row event_conflict (new_event actor p tenant key title now db) db.events ≡ some rows
        → P (
          ok (new_event actor p tenant key title now db),
          record db { events = rows; next_id = db.next_id + 1 },
        ))
    → P (insert_event actor p tenant key title now db)
unfolding insert_event
insert_cases P actor p tenant key title now db failed replay new =
    elim (Option-cases
      (add_row event_conflict (new_event actor p tenant key title now db) db.events)) [
        | inr (rows, h) ↦ rw (h, insert_event) (new rows h)
        | inl h ↦ elim (Option-cases (replayed_event tenant key db)) [
          | inl g ↦ rw (h, insert_event) (rw g (failed _))
          | inr (x, g) ↦ rw (h, insert_event) (rw g (replay x))
        ]
      ]

pub create_cases :
    (P : Result Event × Db → Type 0) (race : Db → Db) (actor : Actor) (p : EventCreate)
    (key : Option Text) (now : DateTime) (db : Db)
    → ((e : HttpError) → P (err e, db))
    → ((x : Event) → P (ok x, db))
    → ((e : HttpError) → P (err e, race db))
    → ((x : Event) → P (ok x, race db))
    → ((tenant title : Text) (safe_key : Option Text) (rows : List Event)
        → add_row event_conflict
            (new_event actor p tenant safe_key title now (race db))
            (race db).events
          ≡ some rows
        → P (
          ok (new_event actor p tenant safe_key title now (race db)),
          record (race db) { events = rows; next_id = (race db).next_id + 1 },
        ))
    → P (create_event race actor p key now db)
unfolding create_event
create_cases P race actor p key now db failed replay failed_late replay_late new =
    elim (Result-cases (create_gate actor p key db)) [
      | inl (e, h) ↦ rw (h, create_event) (failed e)
      | inr ((tenant, safe_key), h) ↦ elim (Option-cases (replayed_event tenant safe_key db)) [
        | inr (x, g) ↦ rw (h, create_event) (rw g (replay x))
        | inl g ↦ elim (Option-cases (sanitize_text (some p.title) 200)) [
          | inl k ↦ rw (h, create_event) (rw g (rw k (failed _)))
          | inr (title, k) ↦ elim (Bool-cases (is_empty title)) [
            | inl z ↦ rw (h, create_event) (rw g (rw k (rw z (failed _))))
            | inr z ↦
                rw (h, create_event)
                  (rw g (
                    rw k (
                      rw z (
                        insert_cases P actor p tenant safe_key title now (race db) failed_late
                          replay_late (new tenant title safe_key)))))
          ]
        ]
      ]
    ]

pub update_cases :
    (P : Result Event × Db → Type 0) (is_clean : Event → Event → Bool) (actor : Actor)
    (event_id : ℕ) (p : EventUpdate) (now : DateTime) (db : Db)
    → ((e : HttpError) → P (err e, db))
    → ((event new : Event)
        → own_row actor event_id db ≡ ok event
        → merge p event ≡ ok new
        → P (
          ok (flush_row is_clean now new event),
          record db {
            events =
                update_where
                  (λ (x : Event). x.id == event.id)
                  (flush_row is_clean now new)
                  db.events;
          },
        ))
    → P (update_event is_clean actor event_id p now db)
unfolding update_event
update_cases P is_clean actor event_id p now db failed done =
    elim (Result-cases (own_row actor event_id db)) [
      | inl (e, g) ↦ rw (g, update_event) (failed e)
      | inr (event, g) ↦ elim (Result-cases (merge p event)) [
        | inl (e, k) ↦ rw (g, update_event) (rw k (failed e))
        | inr (new, k) ↦ rw (g, update_event) (rw k (done event new g k))
      ]
    ]

pub delete_cases :
    (P : Result ℕ × Db → Type 0) (actor : Actor) (event_id : ℕ) (now : DateTime) (db : Db)
    → ((e : HttpError) → P (err e, db))
    → ((event : Event)
        → P (
          ok event_id,
          record db {
            events =
                update_where (λ (x : Event). x.id == event.id) (set_event_cancelled now) db.events;
          },
        ))
    → P (delete_event actor event_id now db)
unfolding delete_event
delete_cases P actor event_id now db failed done = elim (Result-cases (own_row actor event_id db)) [
  | inl (e, h) ↦ rw (h, delete_event) (failed e)
  | inr (event, h) ↦ rw (h, delete_event) (done event)
]

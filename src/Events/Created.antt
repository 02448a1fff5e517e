-- ===== src/Events/Created.antt =====
-- Creating an event, of src/routers/events.py.
use checkin_service.Base.{
  ◌+◌, ◌<◌, ◌≡◌, refl, sym, true, Bool-cases, Option, none, some, List, [], ◌∷◌, ◌++◌, In, first,
  first-true, first-In, Option-cases, Result-cases, inl, inr, ◌⊎◌, ok, err, HttpError, Result,
  arith, here, there,
}
use mathlib.Core.Path.{subst}
use checkin_service.Text.{Text, is_empty}
use checkin_service.Text.Equality.{text_eq→eq}
use checkin_service.Models.{Db, DateTime, Event, event_conflict}
use checkin_service.Models.Store.{add_row, add_row_rows, add_row-IsDistinct, add_row-All}
use checkin_service.Models.Sound.{IsSound, event_conflict_comm, All-below}
use checkin_service.Hashing.{sanitize_text}
use checkin_service.Auth.Roles.{Actor}
use checkin_service.Events.{
  EventCreate, create_gate, by_idem, replayed_event, new_event, insert_event, create_event,
}

created-IsSound :
    (e : Event) (rows : List Event) (db : Db)
    → e.id ≡ db.next_id
    → add_row event_conflict e db.events ≡ some rows
    → IsSound db
    → IsSound (record db { events = rows; next_id = db.next_id + 1 })
created-IsSound e rows db fresh h s = record {
  events_distinct =
      add_row-IsDistinct event_conflict e db.events rows event_conflict_comm h s.events_distinct;
  registrations_distinct = s.registrations_distinct;
  checkins_distinct = s.checkins_distinct;
  invitations_distinct = s.invitations_distinct;
  qr_distinct = s.qr_distinct;
  event_ids =
      add_row-All event_conflict (λ x. x.id < db.next_id + 1) e db.events rows h (omega arith)
        (All-below (λ x. x.id) db.next_id db.events s.event_ids);
  registration_ids = All-below (λ r. r.id) db.next_id db.registrations s.registration_ids;
  checkin_ids = All-below (λ c. c.id) db.next_id db.checkins s.checkin_ids;
  invitation_ids = All-below (λ i. i.id) db.next_id db.invitations s.invitation_ids;
  qr_ids = All-below (λ q. q.id) db.next_id db.qr_tokens s.qr_ids;
}

-- A row of the tenant, in the database that is left.
abbrev pub IsOwned : Text → Db → Event → Type 0
IsOwned tenant db e = (e.school_id ≡ tenant) × In e db.events

In-end : {A : Type 0} → (xs : List A) (x : A) → In x (xs ++ x ∷ [])
In-end [] x = here refl
In-end (y ∷ xs) x = there (In-end xs x)

replayed_event-IsOwned :
    (tenant : Text) (key : Option Text) (db : Db) (e : Event)
    → replayed_event tenant key db ≡ some e
    → IsOwned tenant db e
unfolding replayed_event by_idem
replayed_event-IsOwned tenant none db e h = absurd (cc)
replayed_event-IsOwned tenant (some key) db e h =
    let found : first (by_idem tenant key) db.events ≡ some e = ground arith in
    let hit : by_idem tenant key e ≡ true = first-true (by_idem tenant key) db.events e found in
    (text_eq→eq e.school_id tenant (ground arith), first-In (by_idem tenant key) db.events e found)

-- How a creation ends: with an error, or with a row of the tenant that the gate gave; and the keys
-- of the database stand.
abbrev pub IsCreation : Actor → EventCreate → Option Text → Db → Result Event × Db → Type 0
IsCreation actor p key db out =
    IsSound out.1
    × (((e : HttpError) × (out.0 ≡ err e))
        ⊎ ((tenant : Text) × (safe_key : Option Text) × (event : Event) × (create_gate actor p key
                db
              ≡ ok (tenant, safe_key))
            × (out.0 ≡ ok event)
            × IsOwned tenant out.1 event))

insert_event-IsCreation :
    (actor : Actor) (p : EventCreate) (key : Option Text) (tenant : Text) (safe_key : Option Text)
    (title : Text) (now : DateTime) (before db : Db)
    → create_gate actor p key before ≡ ok (tenant, safe_key)
    → IsSound db
    → IsCreation actor p key before (insert_event actor p tenant safe_key title now db)
unfolding insert_event
insert_event-IsCreation actor p key tenant safe_key title now before db gate s =
    let e = new_event actor p tenant safe_key title now db in
    elim (Option-cases (add_row event_conflict e db.events)) [
      | inr (rows, h) ↦
          rw (h, insert_event)
            (
              created-IsSound e rows db refl h s,
              inr (
                tenant,
                safe_key,
                e,
                gate,
                refl,
                (
                  refl,
                  subst (In e) (sym (add_row_rows event_conflict e db.events rows h).1)
                      (In-end db.events e),
                ),
              ),
            )
      | inl h ↦ elim (Option-cases (replayed_event tenant safe_key db)) [
        | inl g ↦ rw (h, insert_event) (rw g (s, inl (_, refl)))
        | inr (x, g) ↦
            rw (h, insert_event)
              (rw g (
                s,
                inr (
                  tenant,
                  safe_key,
                  x,
                  gate,
                  refl,
                  replayed_event-IsOwned tenant safe_key db x g,
                ),
              ))
      ]
    ]

-- Creating an event, new or replayed, ends with an error or with a row that belongs to the tenant
-- that the gates gave the caller and stands in the table; and it keeps the unique keys and the
-- fresh primary keys, when the requests that commit before the insert keep them.
pub create_event-IsCreation :
    (race : Db → Db) (actor : Actor) (p : EventCreate) (key : Option Text) (now : DateTime)
    (db : Db)
    → ((d : Db) → IsSound d → IsSound (race d))
    → IsSound db
    → IsCreation actor p key db (create_event race actor p key now db)
unfolding create_event
create_event-IsCreation race actor p key now db keep s =
    elim (Result-cases (create_gate actor p key db)) [
      | inl (e, h) ↦ rw (h, create_event) (s, inl (e, refl))
      | inr ((tenant, safe_key), h) ↦ elim (Option-cases (replayed_event tenant safe_key db)) [
        | inr (x, g) ↦
            rw (h, create_event)
              (rw g (
                s,
                inr (
                  tenant,
                  safe_key,
                  x,
                  refl,
                  refl,
                  replayed_event-IsOwned tenant safe_key db x g,
                ),
              ))
        | inl g ↦ elim (Option-cases (sanitize_text (some p.title) 200)) [
          | inl k ↦ rw (h, create_event) (rw g (rw k (s, inl (_, refl))))
          | inr (title, k) ↦ elim (Bool-cases (is_empty title)) [
            | inl z ↦ rw (h, create_event) (rw g (rw k (rw z (s, inl (_, refl)))))
            | inr z ↦
                rw (h, create_event)
                  (rw g (
                    rw k (
                      rw z (
                        subst
                          (λ r.
                            IsSound (insert_event actor p tenant safe_key title now (race db)).1
                            × (((e : HttpError) × ((insert_event actor p tenant safe_key title now
                                      (race db)).0
                                    ≡ err e))
                                ⊎ ((tenant' : Text) × (safe_key' : Option Text) × (event : Event)
                                    × (r ≡ ok (tenant', safe_key'))
                                    × ((insert_event actor p tenant safe_key title now (race db)).0
                                        ≡ ok event)
                                    × IsOwned tenant'
                                        (insert_event actor p tenant safe_key title now (race db)).1
                                        event)))
                          h
                          (insert_event-IsCreation actor p key tenant safe_key title now db
                            (race db) h (keep db s))))))
          ]
        ]
      ]
    ]

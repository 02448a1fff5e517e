-- ===== src/System/Inserts.antt =====
-- What the handlers that insert invitations and tokens leave of the database, under any predicate
-- that their inserts and the requests inside them keep.
use mathlib.Core.Path.{subst}
use checkin_service.Base.{
  Result, HttpError, ok, err, ℕ, ◌+◌, ◌≡◌, refl, Bool, Bool-cases, Option, none, some, Option-cases,
  List, [], ◌∷◌, length, inl, inr, Result-cases, first, ◌==◌, ◌||◌, ltb,
}
use checkin_service.Text.{Text, txt, or_else}
use checkin_service.Models.{
  Db, DateTime, Event, Invitation, EventTable, QrToken, invitation_conflict, qr_conflict,
}
use checkin_service.Models.Store.{add_row}
use checkin_service.Hashing.{Crypto, Keys}
use checkin_service.Auth.Roles.{Actor}
use checkin_service.Auth.Gates.{require_admin}
use checkin_service.Qr.Service.{minted_row, mint_token, own_event, mint_qr_token, max_ttl_minutes}
use checkin_service.Invitations.{
  Invitee, Batch, Turn, Session, created, existed, failed, by_invitee, new_invitation,
  insert_invitation, invite_one, send_all, others, owner_gate, send_invitations, count_created,
  count_existed,
}

module _ (crypto : Crypto) (keys : Keys) (P : Result (Text × QrToken) × Db → Type 0) where
  mint_token_cases :
      (event_id : ℕ) (school issuer : Text) (table : EventTable) (ttl : ℕ) (single_use : Bool)
      (attendee : Option Text) (nonce : Text) (now : ℕ) (db : Db)
      → ((e : HttpError) → P (err e, db))
      → ((out : Text × QrToken) (row : QrToken) (rows : List QrToken)
          → row.id ≡ db.next_id
          → add_row qr_conflict row db.qr_tokens ≡ some rows
          → P (ok out, record db { qr_tokens = rows; next_id = db.next_id + 1 }))
      → P (mint_token crypto keys event_id school issuer table ttl single_use attendee nonce now db)
  unfolding mint_token
  mint_token_cases event_id school issuer table ttl single_use attendee nonce now db raised insert =
      let row =
        minted_row crypto keys db table event_id school issuer ttl single_use attendee nonce now in
      elim (Bool-cases (ttl == 0 || ltb max_ttl_minutes ttl)) [
        | inl e ↦ rw (e, mint_token) (raised _)
        | inr e ↦ elim (Option-cases (add_row qr_conflict row db.qr_tokens)) [
          | inl f ↦ rw (e, mint_token) (rw f (raised _))
          | inr (rows, f) ↦ rw (e, mint_token) (rw f (insert _ row rows refl f))
        ]
      ]

  pub mint_cases :
      (actor : Actor) (event_id ttl : ℕ) (single_use : Bool) (attendee : Option Text) (nonce : Text)
      (now : ℕ) (db : Db)
      → ((e : HttpError) → P (err e, db))
      → ((out : Text × QrToken) (row : QrToken) (rows : List QrToken)
          → row.id ≡ db.next_id
          → add_row qr_conflict row db.qr_tokens ≡ some rows
          → P (ok out, record db { qr_tokens = rows; next_id = db.next_id + 1 }))
      → P (mint_qr_token crypto keys actor event_id ttl single_use attendee nonce now db)
  unfolding mint_qr_token
  mint_cases actor event_id ttl single_use attendee nonce now db raised insert =
      elim (Result-cases (require_admin actor)) [
        | inl (e, h) ↦ rw (h, mint_qr_token) (raised e)
        | inr (admin, h) ↦ elim (Result-cases (own_event crypto keys actor event_id db)) [
          | inl (e, g) ↦ rw (h, mint_qr_token) (rw g (raised e))
          | inr (event, g) ↦
              rw (h, mint_qr_token)
                (rw g (
                  mint_token_cases event_id (or_else actor.school_id [])
                    (or_else actor.user_id (txt "service")) EventTable.events ttl single_use
                    attendee nonce now db raised insert))
        ]
      ]

module _ (crypto : Crypto) (keys : Keys) (P : Db → Type 0) where
  module _ (race : ℕ → Db → Db) (keep : (n : ℕ) (d : Db) → P d → P (race n d))
      (insert : (row : Invitation) (rows : List Invitation) (d : Db)
        → row.id ≡ d.next_id
        → add_row invitation_conflict row d.invitations ≡ some rows
        → P d
        → P (record d { invitations = rows; next_id = d.next_id + 1 })) where
    -- The database after a turn of the loop.
    abbrev IsLeft : Turn → Type 0
    IsLeft (created row s) = P s.store
    IsLeft (existed row s) = P s.store
    IsLeft failed = Unit

    invite-IsLeft :
        (n event_id : ℕ) (event : Event) (inviter : Text) (item : Invitee) (now : DateTime)
        (s : Session)
        → P s.store
        → IsLeft (invite_one crypto keys (race n) event_id event inviter item now s)
    unfolding invite_one insert_invitation
    invite-IsLeft n event_id event inviter item now s p =
        elim (Option-cases (first (by_invitee event_id item.invitee_user_id) s.view)) [
          | inr (i, e) ↦ rw (e, invite_one) p
          | inl e ↦
              let d = race n s.store in
              let row = new_invitation crypto keys event_id event inviter item now d in
              elim (Option-cases (add_row invitation_conflict row d.invitations)) [
                | inr (rows, f) ↦
                    rw (e, invite_one)
                      (rw (f, insert_invitation) (insert row rows d refl f (keep n s.store p)))
                | inl f ↦ rw (e, invite_one) (rw (f, insert_invitation) (rw e tt))
              ]
        ]

    -- The loop, where it goes through.
    send_all_kept :
        (event_id : ℕ) (event : Event) (inviter : Text) (items : List Invitee) (now : DateTime)
        (s : Session) (out : Batch × Db)
        → P s.store
        → send_all crypto keys race event_id event inviter items now s ≡ some out
        → P out.1
    unfolding send_all
    send_all_kept event_id event inviter [] now s out p h =
        let e : s.store ≡ out.1 = cc h in subst P e p
    send_all_kept event_id event inviter (item ∷ items) now s out p h =
        go (invite_one crypto keys (race (length items)) event_id event inviter item now s)
          (λ d o. send_all_kept event_id event inviter items now d o)
          (invite-IsLeft (length items) event_id event inviter item now s p) h
      where
        next :
            (d : Session) (count : Batch → Batch)
            → ((d : Session) (o : Batch × Db)
                → P d.store
                → send_all crypto keys race event_id event inviter items now d ≡ some o
                → P o.1)
            → P d.store
            → elim (send_all crypto keys race event_id event inviter items now d) [
              | none ↦ none
              | some o ↦ some (count o.0, o.1)
            ]
              ≡ some out
            → P out.1
        next d count rest pd g =
            elim (Option-cases (send_all crypto keys race event_id event inviter items now d)) [
              | inl e ↦ absurd (cc (rw e at g))
              | inr (o, e) ↦ let k : o.1 ≡ out.1 = cc (rw e at g) in subst P k (rest d o pd e)
            ]

        go :
            (t : Turn)
            → ((d : Session) (o : Batch × Db)
                → P d.store
                → send_all crypto keys race event_id event inviter items now d ≡ some o
                → P o.1)
            → IsLeft t
            → elim t [
              | failed ↦ none
              | created row d ↦
                  elim (send_all crypto keys race event_id event inviter items now d) [
                    | none ↦ none
                    | some o ↦ some (count_created row o.0, o.1)
                  ]
              | existed row d ↦
                  elim (send_all crypto keys race event_id event inviter items now d) [
                    | none ↦ none
                    | some o ↦ some (count_existed row o.0, o.1)
                  ]
            ]
              ≡ some out
            → P out.1
        go failed rest l g = absurd (cc g)
        go (created row d) rest l g = next d (count_created row) rest l g
        go (existed row d) rest l g = next d (count_existed row) rest l g

    others_kept : (items : List Invitee) (db : Db) → P db → P (others race items db)
    unfolding others
    others_kept [] db p = p
    others_kept (item ∷ items) db p =
        others_kept items (race (length items) db) (keep (length items) db p)

    pub send_cases :
        (actor : Actor) (event_id : ℕ) (items : List Invitee) (now : DateTime) (db : Db)
        → P db
        → P (send_invitations crypto keys race actor event_id items now db).1
    unfolding send_invitations
    send_cases actor event_id items now db p = elim (Result-cases (owner_gate db event_id actor)) [
      | inl (e, h) ↦ rw (h, send_invitations) p
      | inr (event, h) ↦
          elim (Option-cases (
            send_all crypto keys race event_id event (or_else actor.user_id (txt "service")) items
              now (record { view = db.invitations; store = db }))) [
                | inl g ↦ rw (h, send_invitations) (rw g (others_kept items db p))
                | inr (out, g) ↦
                    rw (h, send_invitations)
                      (rw g (
                        send_all_kept event_id event (or_else actor.user_id (txt "service")) items
                          now _ out p g))
              ]
    ]

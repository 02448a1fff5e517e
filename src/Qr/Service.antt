-- ===== src/Qr/Service.antt =====
-- Minting a token, the two phases of its verification, and the routes of src/routers/qr_tokens.py.
use checkin_service.Base.Sorting.{sort_by}
use checkin_service.Base.{
  leb, ℕ, ◌+◌, ◌*◌, Bool, true, false, not, ◌&&◌, ◌||◌, Option, none, some, List, [], ◌∷◌, ◌++◌,
  ltb, ◌==◌, first, update_where, is_some, if◌then◌else◌, Result, ok, err, http, bad_ttl,
  integrity_error, school_id_required, event_not_found, select,
}
use checkin_service.Text.{Text, txt, text_eq, is_falsy, or_else}
use checkin_service.Text.Numerals.{show_ℕ}
use checkin_service.Models.{Db, Event, EventTable, events, QrToken, qr_conflict, DateTime}
use checkin_service.Models.Store.{add_row}
use checkin_service.Hashing.{Crypto, Keys, sha256_full, hmac_sign}
use checkin_service.Auth.Roles.{Actor}
use checkin_service.Auth.Gates.{require_admin}
use checkin_service.Qr.Token.{
  QrStatus, valid, not_found, already_used, colon, table_name, same_table, payload, fragment_of,
  token_check,
}

-- `_MAX_TTL_MINUTES`
abbrev pub max_ttl_minutes : ℕ
max_ttl_minutes = 12 * 60

-- A `QrTokenVerifyResult`.
pub record Verified : Type 0 where
  pub status : QrStatus
  pub qr_row : Option QrToken

unfoldable pub set_used : Option Text → DateTime → QrToken → QrToken
set_used user now q = record q {
  used_at = some now;
  used_by_user_id = if is_falsy user then q.used_by_user_id else user;
}

-- `qr_row` is the row of the same key in the session.
unfoldable pub consume_token : QrToken → Option Text → DateTime → Db → Db
consume_token q user now db =
    if not q.single_use then db else if is_some q.used_at then db else record db {
      qr_tokens = update_where (λ (x : QrToken). x.id == q.id) (set_used user now) db.qr_tokens;
    }

module _ (crypto : Crypto) (keys : Keys) where
  unfoldable pub raw_token : EventTable → ℕ → Text → ℕ → Option Text → Text
  raw_token table event_id nonce expires attendee =
      let body =
        payload crypto (table_name table) (show_ℕ event_id) nonce (show_ℕ expires)
          (fragment_of crypto attendee) in
      body ++ colon ∷ hmac_sign crypto keys body

  abbrev pub minted_row :
      Db → EventTable → ℕ → Text → Text → ℕ → Bool → Option Text → Text → ℕ → QrToken
  minted_row db table event_id school issuer ttl single_use attendee nonce now = record {
    id = db.next_id;
    school_id = school;
    event_table = table;
    event_id = event_id;
    token_hash = sha256_full crypto (raw_token table event_id nonce (now + ttl * 60) attendee);
    nonce = nonce;
    issued_at = now;
    expires_at = now + ttl * 60;
    single_use = single_use;
    used_at = none;
    used_by_user_id = none;
    issued_by_user_id = issuer;
  }

  -- A `ValueError` or an `IntegrityError` here is answered with status 500.
  unfoldable pub mint_token :
      ℕ
      → Text
      → Text
      → EventTable
      → ℕ
      → Bool
      → Option Text
      → Text
      → ℕ
      → Db
      → Result (Text × QrToken) × Db
  mint_token event_id school issuer table ttl single_use attendee nonce now db =
      if ttl == 0 || ltb max_ttl_minutes ttl
      then (err (http 500 bad_ttl), db)
      else let row = minted_row db table event_id school issuer ttl single_use attendee nonce now in
        elim (add_row qr_conflict row db.qr_tokens) [
          | none ↦ (err (http 500 integrity_error), db)
          | some rows ↦ (
            ok (raw_token table event_id nonce (now + ttl * 60) attendee, row),
            record db { qr_tokens = rows; next_id = db.next_id + 1 },
          )
        ]

  unfoldable pub by_hash : Text → QrToken → Bool
  by_hash hash q = text_eq q.token_hash hash

  -- the query for the token's row, and its state of use
  unfoldable pub row_check : Text → Db → Verified
  unfolding by_hash
  row_check raw db = elim (first (by_hash (sha256_full crypto raw)) db.qr_tokens) [
    | none ↦ record { status = not_found; qr_row = none }
    | some q ↦
        if q.single_use && is_some q.used_at
        then record { status = already_used; qr_row = some q }
        else record { status = valid; qr_row = some q }
  ]

  unfoldable pub is_valid : QrStatus → Bool
  is_valid status = elim status [ valid ↦ true | _ ↦ false ]

  -- `peek_token`, which is `verify_token` with `consume=False`
  unfoldable pub peek_token : Text → ℕ → EventTable → Option Text → ℕ → Db → Verified
  unfolding is_valid
  peek_token raw event_id table claimed now db =
      let status = token_check crypto keys raw event_id table claimed now in
      if is_valid status then row_check raw db else record { status = status; qr_row = none }

  unfoldable pub verify_token :
      Text → ℕ → EventTable → Option Text → Bool → Option Text → ℕ → Db → Verified × Db
  verify_token raw event_id table redeemer consume claimed now db =
      let v = peek_token raw event_id table claimed now db in
      if consume && is_valid v.status
      then (elim v.qr_row [ none ↦ (v, db) | some q ↦ (v, consume_token q redeemer now db) ])
      else (v, db)

  -- the event of the caller's school
  unfoldable pub own_event : Actor → ℕ → Db → Result Event
  own_event actor event_id db =
      if is_falsy actor.school_id
      then err (http 403 school_id_required)
      else elim (first
          (λ (e : Event). e.id == event_id && text_eq e.school_id (or_else actor.school_id []))
          db.events) [ none ↦ err (http 404 event_not_found) | some e ↦ ok e ]

  -- POST /events/{id}/qr-tokens
  unfoldable pub mint_qr_token :
      Actor → ℕ → ℕ → Bool → Option Text → Text → ℕ → Db → Result (Text × QrToken) × Db
  unfolding own_event mint_token
  mint_qr_token actor event_id ttl single_use attendee nonce now db = elim (require_admin actor) [
    | err e ↦ (err e, db)
    | ok admin ↦ elim (own_event actor event_id db) [
      | err e ↦ (err e, db)
      | ok event ↦
          mint_token event_id (or_else actor.school_id []) (or_else actor.user_id (txt "service"))
            events ttl single_use attendee nonce now db
    ]
  ]

  -- the rows of GET /events/{id}/qr-tokens, the latest first
  unfoldable pub list_qr_tokens : Actor → ℕ → Db → Result (List QrToken)
  unfolding own_event
  list_qr_tokens actor event_id db = elim (require_admin actor) [
    | err e ↦ err e
    | ok admin ↦ elim (own_event actor event_id db) [
      | err e ↦ err e
      | ok event ↦ ok (
          sort_by (λ (a b : QrToken). leb b.issued_at a.issued_at)
            (select (λ (q : QrToken). same_table q.event_table events && q.event_id == event_id)
              db.qr_tokens))
    ]
  ]

-- ===== src/Qr/Consumed.antt =====
-- The two phases of verification: a minted token passes, and once consumed it does not, if it is
-- for a single use.
use checkin_service.Base.{
  ℕ, ◌+◌, ◌*◌, ◌≡◌, refl, ◌∙◌, Bool, true, false, ◌&&◌, ◌||◌, Option, none, some, List, [], ◌∷◌,
  ◌++◌, arith, first, any, any_mono, first-append, update_where, update_where-append,
  any-update_where, ltb, ◌==◌, ==_refl, is_some, if◌then◌else◌, Bool-cases, Option-cases, inl, inr,
  ok,
}
use checkin_service.Text.{Text}
use checkin_service.Text.Equality.{text_eq_refl, text_eq_comm}
use checkin_service.Text.Splitting.{IsFreeOf}
use checkin_service.Models.{Db, EventTable, QrToken, qr_conflict}
use checkin_service.Models.Store.{add_row, add_row_rows}
use checkin_service.Hashing.{Crypto, Keys}
use checkin_service.Qr.Token.{QrStatus, valid, already_used, colon}
use checkin_service.Qr.Split.{IsHex}
use checkin_service.Qr.Minted.{verdict, token_check-raw_token}
use checkin_service.Qr.Service.{
  Verified, max_ttl_minutes, minted_row, raw_token, mint_token, by_hash, row_check, is_valid,
  peek_token, set_used, consume_token,
}

module _ (crypto : Crypto) (keys : Keys) where
  same_hash_conflict :
      (row x : QrToken) → by_hash crypto keys row.token_hash x ≡ true → qr_conflict row x ≡ true
  unfolding by_hash qr_conflict
  same_hash_conflict row x h = ground (arith, text_eq_comm row.token_hash x.token_hash)

  -- No older row has the hash of a row that was added.
  none_older :
      (row : QrToken) (rows rows' : List QrToken)
      → add_row qr_conflict row rows ≡ some rows'
      → any (by_hash crypto keys row.token_hash) rows ≡ false
  none_older row rows rows' added =
      any_mono (by_hash crypto keys row.token_hash) (qr_conflict row) rows (same_hash_conflict row)
        (add_row_rows qr_conflict row rows rows' added).0

  finds_last :
      (row last : QrToken) (rows : List QrToken)
      → any (by_hash crypto keys row.token_hash) rows ≡ false
      → last.token_hash ≡ row.token_hash
      → first (by_hash crypto keys row.token_hash) (rows ++ last ∷ []) ≡ some last
  unfolding first by_hash
  finds_last row last rows fresh same =
      first-append (by_hash crypto keys row.token_hash) rows (last ∷ []) fresh
      ∙ rw same (rw (text_eq_refl row.token_hash))

abbrev pub stored : Db → List QrToken → Db
stored db rows = record db { qr_tokens = rows; next_id = db.next_id + 1 }

abbrev pub judged : QrStatus → Option QrToken → Verified
judged status q = record { status = status; qr_row = q }

module _ (crypto : Crypto) (hex : IsHex crypto) (keys : Keys) (id : ℕ) (school issuer : Text)
    (table : EventTable) (ttl : ℕ) (single_use : Bool) (attendee : Option Text) (nonce : Text)
    (now : ℕ) (db : Db) where
  abbrev raw : Text
  raw = raw_token crypto keys table id nonce (now + ttl * 60) attendee

  abbrev row : QrToken
  row = minted_row crypto keys db table id school issuer ttl single_use attendee nonce now

  -- What `mint_token` has done when it returns.
  minted :
      {token : Text} {q : QrToken} {db' : Db}
      → mint_token crypto keys id school issuer table ttl single_use attendee nonce now db
        ≡ (ok (token, q), db')
      → (rows : List QrToken) × (add_row qr_conflict row db.qr_tokens ≡ some rows)
        × (token ≡ raw)
        × (q ≡ row)
        × (db' ≡ stored db rows)
  unfolding mint_token
  minted {token} {q} {db'} h = elim (Bool-cases (ttl == 0 || ltb max_ttl_minutes ttl)) [
    | inl e ↦ absurd (ground arith)
    | inr e ↦ elim (Option-cases (add_row qr_conflict row db.qr_tokens)) [
      | inl a ↦ absurd (ground arith)
      | inr (rows, a) ↦ (rows, a, ground arith, ground arith, ground arith)
    ]
  ]

  -- Peeking at the token in a database whose row of its hash is `last`.
  peek_last :
      (d : Db) (last : QrToken) (event_id : ℕ) (event_table : EventTable) (claimed : Option Text)
      (later : ℕ)
      → IsFreeOf colon nonce
      → first (by_hash crypto keys row.token_hash) d.qr_tokens ≡ some last
      → let v =
          verdict crypto table id (now + ttl * 60) attendee event_id event_table claimed later in
        peek_token crypto keys raw event_id event_table claimed later d ≡ (
          if is_valid crypto keys v
          then if last.single_use && is_some last.used_at
            then judged already_used (some last)
            else judged valid (some last)
          else judged v none)
  unfolding peek_token row_check
  peek_last d last event_id event_table claimed later free found =
      rw
        (token_check-raw_token crypto hex keys table id nonce (now + ttl * 60) attendee event_id
          event_table claimed later free)
        (rw (found, row_check))

  last_row :
      (rows : List QrToken) (f : QrToken → QrToken)
      → add_row qr_conflict row db.qr_tokens ≡ some rows
      → ((x : QrToken) → (f x).token_hash ≡ x.token_hash)
      → first
          (by_hash crypto keys row.token_hash)
          (update_where (λ (x : QrToken). x.id == row.id) f rows)
        ≡ some (f row)
  unfolding update_where by_hash
  last_row rows f added keep =
      let same_id = λ (x : QrToken). x.id == row.id in
      rw ((add_row_rows qr_conflict row db.qr_tokens rows added).1) (
        rw (update_where-append same_id f db.qr_tokens (row ∷ [])) (
          rw (==_refl db.next_id) (
            finds_last crypto keys row (f row) (update_where same_id f db.qr_tokens)
              (any-update_where (by_hash crypto keys row.token_hash) same_id f db.qr_tokens
                  (λ x. rw keep)
                ∙ none_older crypto keys row db.qr_tokens rows added)
              (keep row))))

  abbrev used_in : Db → Option Text → ℕ → Db
  used_in d user at = record d {
    qr_tokens = update_where (λ (x : QrToken). x.id == row.id) (set_used user at) d.qr_tokens;
  }

  consume_single :
      (user : Option Text) (at : ℕ) (d : Db)
      → single_use ≡ true
      → consume_token row user at d ≡ used_in d user at
  unfolding consume_token
  consume_single user at d e = ground arith

  consume_multi :
      (user : Option Text) (at : ℕ) (d : Db) → single_use ≡ false → consume_token row user at d ≡ d
  unfolding consume_token
  consume_multi user at d e = ground arith

  keeps_hash :
      (user : Option Text) (at : ℕ) (x : QrToken) → (set_used user at x).token_hash ≡ x.token_hash
  unfolding set_used
  keeps_hash user at x = refl

  used_verdict :
      (user : Option Text) (at : ℕ)
      → single_use ≡ true
      → (event_id : ℕ) (event_table : EventTable) (claimed : Option Text) (later : ℕ)
      → let v =
          verdict crypto table id (now + ttl * 60) attendee event_id event_table claimed later in
        (if is_valid crypto keys v
          then if (set_used user at row).single_use && is_some (set_used user at row).used_at
            then judged already_used (some (set_used user at row))
            else judged valid (some (set_used user at row))
          else judged v none)
        ≡ (if is_valid crypto keys v
            then if single_use
              then judged already_used (some (set_used user at row))
              else judged valid (some row)
            else judged v none)
  unfolding set_used
  used_verdict user at e event_id event_table claimed later = ground arith

  module _ {token : Text} {q : QrToken} {db' : Db}
      (h : mint_token crypto keys id school issuer table ttl single_use attendee nonce now db
        ≡ (ok (token, q), db'))
      (free : IsFreeOf colon nonce) (event_id : ℕ) (event_table : EventTable)
      (claimed : Option Text) (later : ℕ) where
    -- Where digests are ASCII and hold no colon and the nonce holds no colon, a token that has just been minted gets the verdict of its mint, and if that is valid it finds
    -- its row.
    pub peek-mint :
        let v =
          verdict crypto table id (now + ttl * 60) attendee event_id event_table claimed later in
        peek_token crypto keys token event_id event_table claimed later db'
        ≡ (if is_valid crypto keys v then judged valid (some q) else judged v none)
    unfolding first
    peek-mint =
        let (rows, added, is_raw, is_row, is_db) = minted h in
        rw is_raw (
          rw is_row (
            rw is_db (
              peek_last (stored db rows) row event_id event_table claimed later free (
                rw (add_row_rows qr_conflict row db.qr_tokens rows added).1 (
                  finds_last crypto keys row row db.qr_tokens
                    (none_older crypto keys row db.qr_tokens rows added) refl))
              ∙ ground arith)))

    -- Where digests are ASCII and hold no colon and the nonce holds no colon, and once it is minted and then consumed, a token for a single use is refused as used wherever it would have been
    -- valid, and any other passes as before.
    pub peek-consume :
        (user : Option Text) (at : ℕ)
        → let v =
            verdict crypto table id (now + ttl * 60) attendee event_id event_table claimed later in
          peek_token crypto keys token event_id event_table claimed later
            (consume_token q user at db')
          ≡ (if is_valid crypto keys v
              then if single_use
                then judged already_used (some (set_used user at q))
                else judged valid (some q)
              else judged v none)
    peek-consume user at =
        let (rows, added, is_raw, is_row, is_db) = minted h in
        rw is_raw (
          rw is_row (
            rw is_db (elim (Bool-cases single_use) [
              | inl e ↦ rw (consume_single user at (stored db rows) e) (
                  peek_last (used_in (stored db rows) user at) (set_used user at row) event_id
                    event_table claimed later free
                    (last_row rows (set_used user at) added (keeps_hash user at))
                  ∙ used_verdict user at e event_id event_table claimed later)
              | inr e ↦ rw (consume_multi user at (stored db rows) e) (
                  peek_last (stored db rows) row event_id event_table claimed later free (
                    rw (add_row_rows qr_conflict row db.qr_tokens rows added).1 (
                      finds_last crypto keys row row db.qr_tokens
                        (none_older crypto keys row db.qr_tokens rows added) refl))
                  ∙ ground arith)
            ])))

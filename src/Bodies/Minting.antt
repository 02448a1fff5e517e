-- ===== src/Bodies/Minting.antt =====
-- The request of a token whose body passed its validators.
use mathlib.Core.Path.{subst}
use checkin_service.Base.{
  first, ◌&&◌, [], ℕ, ◌+◌, ◌≡◌, ◌≢◌, ◌||◌, ◌==◌, ltb, Bool, true, false, Bool-cases, Option, none,
  some, Option-cases, inl, inr, Result, ok, err, http, arith, OnOk, OnOk->>=, OnOk-ok, bad_ttl,
}
use checkin_service.Text.{Text, txt, or_else, text_eq, is_falsy}
use checkin_service.Text.Numerals.{ℤ}
use checkin_service.Models.{Db, Event, QrToken, EventTable, qr_conflict}
use checkin_service.Models.Store.{add_row}
use checkin_service.Hashing.{Crypto, Keys}
use checkin_service.Auth.Roles.{Actor, is_bypass}
use checkin_service.Auth.Gates.{require_admin}
use checkin_service.Qr.Service.{max_ttl_minutes, minted_row, mint_token, own_event, mint_qr_token}
use checkin_service.Events.Schema.{
  Field, absent, null, given, ranged, sized, defaulted, optional, read_value,
}
use checkin_service.Events.Limits.{IsBetween, ranged-IsBetween}
use checkin_service.Bodies.{MintBody, MintRequest, validate_mint}

ttl-IsBetween : (f : Field ℤ) (n : ℕ) → defaulted (ranged 1 720) 60 f ≡ ok n → IsBetween 1 720 n
unfolding defaulted read_value
ttl-IsBetween absent n h =
    let e : 60 ≡ n = cc h in subst (IsBetween 1 720) e (omega arith, omega arith)
ttl-IsBetween null n h = absurd (ground arith)
ttl-IsBetween (given z) n h = elim (Option-cases (ranged 1 720 z)) [
  | inl e ↦ absurd (ground arith)
  | inr (k, e) ↦
      let same : k ≡ n = ground arith in subst (IsBetween 1 720) same (ranged-IsBetween 1 720 z k e)
]

validate_mint-IsBetween :
    (b : MintBody) (p : MintRequest) → validate_mint b ≡ ok p → IsBetween 1 720 p.ttl_minutes
unfolding validate_mint
validate_mint-IsBetween b p h =
    let P : MintRequest → Type 0 = λ q. IsBetween 1 720 q.ttl_minutes in
    let checked : OnOk P (validate_mint b) =
      (OnOk->>= P (defaulted (ranged 1 720) 60 b.ttl_minutes) _ λ ttl h1.
        OnOk->>= P (defaulted (λ v. some v) true b.single_use) _ λ single h2.
          OnOk->>= P (optional (sized 0 36) none b.attendee_user_id) _
            λ attendee h3. OnOk-ok P _ (ttl-IsBetween b.ttl_minutes ttl h1)) in
    checked.on_ok p h

-- A token that lives for a minute to twelve hours, or another error than one of its life.
abbrev pub IsMinted : ℕ → Result (Text × QrToken) → Type 0
IsMinted now (ok out) = IsBetween (now + 60) (now + 43_200) out.1.expires_at
IsMinted now (err e) = e ≢ http 500 bad_ttl

module _ (crypto : Crypto) (keys : Keys) where
  mint_token-IsMinted :
      (event_id : ℕ) (school issuer : Text) (ttl : ℕ) (single_use : Bool) (attendee : Option Text)
      (nonce : Text) (now : ℕ) (db : Db)
      → IsBetween 1 720 ttl
      → IsMinted now
          (mint_token crypto keys event_id school issuer EventTable.events ttl single_use attendee
            nonce now db).0
  unfolding mint_token
  mint_token-IsMinted event_id school issuer ttl single_use attendee nonce now db t =
      let row =
        minted_row crypto keys db EventTable.events event_id school issuer ttl single_use attendee
          nonce now in
      let fits : (ttl == 0 || ltb max_ttl_minutes ttl) ≡ false = ground (arith, t.0, t.1) in
      elim (Option-cases (add_row qr_conflict row db.qr_tokens)) [
        | inl f ↦ rw (fits, mint_token) (rw f (λ q. cc q))
        | inr (rows, f) ↦ rw (fits, mint_token) (rw f (omega (arith, t.0), omega (arith, t.1)))
      ]

  -- A request for a token whose body passed its validators never fails for the life of the token; and a
  -- token that it mints expires between one minute and twelve hours from now.
  pub mint_qr_token-IsMinted :
      (b : MintBody) (p : MintRequest) (actor : Actor) (event_id : ℕ) (nonce : Text) (now : ℕ)
      (db : Db)
      → validate_mint b ≡ ok p
      → IsMinted now
          (mint_qr_token crypto keys actor event_id p.ttl_minutes p.single_use p.attendee_user_id
            nonce now db).0
  unfolding mint_qr_token own_event require_admin
  mint_qr_token-IsMinted b p actor event_id nonce now db h = elim (Bool-cases (is_bypass actor)) [
    | inr a ↦ rw (a, mint_qr_token) (λ q. cc q)
    | inl a ↦ elim (Bool-cases (is_falsy actor.school_id)) [
      | inl f ↦ rw (a, mint_qr_token) (rw f (λ q. cc q))
      | inr f ↦
          elim (Option-cases (
            first
              (λ (e : Event). e.id == event_id && text_eq e.school_id (or_else actor.school_id []))
              db.events)) [
                | inl g ↦ rw (a, mint_qr_token) (rw f (rw g (λ q. cc q)))
                | inr (event, g) ↦
                    rw (a, mint_qr_token)
                      (rw f (
                        rw g (
                          mint_token-IsMinted event_id (or_else actor.school_id [])
                            (or_else actor.user_id (txt "service")) p.ttl_minutes p.single_use
                            p.attendee_user_id nonce now db (validate_mint-IsBetween b p h))))
              ]
    ]
  ]

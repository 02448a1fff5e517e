-- ===== src/Checkins/Once.antt =====
-- A check-in of an attendee happens once, and only past every check: the responses of
-- POST /events/{id}/checkin of src/routers/checkins.py and the row that a success leaves.
use mathlib.Core.Path.{subst}
use checkin_service.Base.{
  ℕ, ◌≡◌, refl, sym, true, Bool-cases, Option, some, List, [], ◌∷◌, ◌++◌, any, any_mono, In, here,
  there, inl, inr, ◌⊎◌, Result, ok, arith, ◌∙◌,
}
use checkin_service.Text.{Text}
use checkin_service.Text.Equality.{text_eq_comm}
use checkin_service.Models.{Db, DateTime, QrToken, Checkin, checkin_conflict}
use checkin_service.Models.Store.{add_row_rows}
use checkin_service.Hashing.{Crypto, Keys}
use checkin_service.Auth.Roles.{Actor}
use checkin_service.Auth.Gates.{assert_self_or_admin}
use checkin_service.Geo.Distance.{FloatOps}
use checkin_service.Geo.Signals.{Knobs}
use checkin_service.Qr.Service.{consume_token}
use checkin_service.Checkins.Limiter.{Limiter}
use checkin_service.Checkins.Submit
use checkin_service.Checkins.Flows.{IsRefusal, is_success}
use checkin_service.Checkins.Cleared.{IsCleared}
use checkin_service.Checkins.Cases.{
  success_response, checked_in, redeem_cases, record_cases, submit_cases,
}

module _ (crypto : Crypto) (keys : Keys) (fl : FloatOps) (knobs : Knobs) where
  consume_token-checkins :
      (t : QrToken) (user : Option Text) (now : DateTime) (db : Db)
      → (consume_token t user now db).checkins ≡ db.checkins
  unfolding consume_token
  consume_token-checkins t user now db = ground arith

  redeem-checkins :
      (o : Option QrToken) (target : Text) (now : DateTime) (db : Db)
      → (Submit.redeem crypto keys fl knobs o target now db).checkins ≡ db.checkins
  redeem-checkins o target now db =
      redeem_cases crypto keys fl knobs (λ d. d.checkins ≡ db.checkins) o target now db refl
        (λ row. consume_token-checkins row (some target) now db)

  checked_in-checkins :
      (plan : Submit.Plan) (now : DateTime) (rows : List Checkin) (db : Db)
      → (checked_in crypto keys fl knobs plan now rows db).checkins ≡ rows
  unfolding Submit.mark_attended
  checked_in-checkins plan now rows db = redeem-checkins _ _ _ _

  In-last : {A : Type 0} → (xs : List A) (x : A) → In x (xs ++ x ∷ [])
  In-last [] x = here refl
  In-last (y ∷ xs) x = there (In-last xs x)

  -- What a response of success says of the request and of the database that it leaves.
  abbrev pub IsAccepted :
      (Db → Db) → Actor → ℕ → Submit.Request → DateTime → Db → Result Submit.Response × Db → Type 0
  IsAccepted race actor event_id q now db out =
      (target : Text) × (plan : Submit.Plan) × (Submit.checkin_target actor q ≡ ok target)
      × (assert_self_or_admin actor target ≡ ok tt)
      × IsCleared crypto keys fl knobs event_id q target now db plan
      × (out.0 ≡ ok (success_response (race db).next_id plan now))
      × In (Submit.new_checkin crypto keys fl knobs event_id q plan now (race db)) out.1.checkins

  abbrev pub Accounts :
      (Db → Db) → Actor → ℕ → Submit.Request → DateTime → Db → Result Submit.Response × Db → Type 0
  Accounts race actor event_id q now db out =
      IsRefusal out.0 ⊎ IsAccepted race actor event_id q now db out

  record-Accounts :
      (race : Db → Db) (actor : Actor) (event_id : ℕ) (q : Submit.Request) (now : DateTime)
      (db : Db) (target : Text) (plan : Submit.Plan)
      → Submit.checkin_target actor q ≡ ok target
      → assert_self_or_admin actor target ≡ ok tt
      → IsCleared crypto keys fl knobs event_id q target now db plan
      → Accounts race actor event_id q now db
          (Submit.record_checkin crypto keys fl knobs event_id q plan now (race db))
  unfolding is_success
  record-Accounts race actor event_id q now db target plan h g c =
      record_cases crypto keys fl knobs (Accounts race actor event_id q now db) event_id q plan now
        (race db) (λ _. inl refl)
        λ rows a. inr (
          target,
          plan,
          h,
          g,
          c,
          refl,
          subst (In (Submit.new_checkin crypto keys fl knobs event_id q plan now (race db)))
              (sym (
                checked_in-checkins plan now rows (race db)
                ∙ (add_row_rows checkin_conflict
                    (Submit.new_checkin crypto keys fl knobs event_id q plan now (race db))
                    (race db).checkins rows a).1))
              (In-last (race db).checkins _),
        )

  -- A check-in either is refused, or it has passed every check: the caller is the attendee or an
  -- admin, the event is open, the method is not disabled, a token that the method needs is valid
  -- and a position that it needs is inside the fence, and the attendee holds a registration
  -- that is not cancelled. Then the response is the one of a success and the row of the attendee stands in the table.
  pub submit-Accounts :
      (race : Db → Db) (actor : Actor) (event_id : ℕ) (q : Submit.Request) (ip : Option Text)
      (tick : ℕ) (now : DateTime) (limiter : Limiter) (db : Db)
      → Accounts race actor event_id q now db (
        (Submit.submit_checkin crypto keys fl knobs race actor event_id q ip tick now limiter db).0,
        (Submit.submit_checkin crypto keys fl knobs race actor event_id q ip tick now limiter db).2,
      )
  submit-Accounts race actor event_id q ip tick now limiter db =
      submit_cases crypto keys fl knobs (Accounts race actor event_id q now db) race actor event_id
        q ip tick now limiter db (λ r h. inl h) (record-Accounts race actor event_id q now db)

  pair_conflict :
      (event_id : ℕ) (q : Submit.Request) (plan : Submit.Plan) (now : DateTime) (db : Db)
      (x : Checkin)
      → Submit.of_pair crypto keys fl knobs event_id plan.target x ≡ true
      → checkin_conflict (Submit.new_checkin crypto keys fl knobs event_id q plan now db) x ≡ true
  unfolding Submit.of_pair checkin_conflict
  pair_conflict event_id q plan now db x e =
      ground (arith, text_eq_comm x.attendee_user_id plan.target)

  pair_conflicts :
      (event_id : ℕ) (q : Submit.Request) (plan : Submit.Plan) (now : DateTime) (db : Db)
      → any (Submit.of_pair crypto keys fl knobs event_id plan.target) db.checkins ≡ true
      → any
          (checkin_conflict (Submit.new_checkin crypto keys fl knobs event_id q plan now db))
          db.checkins
        ≡ true
  pair_conflicts event_id q plan now db h =
      elim (Bool-cases (
        any (checkin_conflict (Submit.new_checkin crypto keys fl knobs event_id q plan now db))
          db.checkins)) [
            | inl e ↦ e
            | inr e ↦ absurd (
                cc (
                  h,
                  any_mono (Submit.of_pair crypto keys fl knobs event_id plan.target)
                      (checkin_conflict
                        (Submit.new_checkin crypto keys fl knobs event_id q plan now db))
                      db.checkins (pair_conflict event_id q plan now db) e,
                ))
          ]

  abbrev pub IsRepeat : (Db → Db) → Db → Result Submit.Response × Db → Type 0
  IsRepeat race db out = IsRefusal out.0 × ((out.1 ≡ db) ⊎ (out.1 ≡ race db))

  repeated :
      (race : Db → Db) (event_id : ℕ) (q : Submit.Request) (now : DateTime) (db : Db)
      (plan : Submit.Plan)
      → any (Submit.of_pair crypto keys fl knobs event_id plan.target) (race db).checkins ≡ true
      → IsRepeat race db (Submit.record_checkin crypto keys fl knobs event_id q plan now (race db))
  unfolding is_success
  repeated race event_id q now db plan h =
      record_cases crypto keys fl knobs (IsRepeat race db) event_id q plan now (race db)
        (λ _. (refl, inr refl))
        λ rows a. absurd (
          cc (
            pair_conflicts event_id q plan now (race db) h,
            (add_row_rows checkin_conflict
                (Submit.new_checkin crypto keys fl knobs event_id q plan now (race db))
                (race db).checkins rows a).0,
          ))

  -- Once a check-in of the attendee at the event stands, or another request commits one first,
  -- a check-in of the same attendee does not succeed, and writes nothing: no row, no
  -- status of a registration and no use of a token.
  pub submit_again :
      (race : Db → Db) (actor : Actor) (event_id : ℕ) (q : Submit.Request) (ip : Option Text)
      (tick : ℕ) (now : DateTime) (limiter : Limiter) (db : Db) (target : Text)
      → Submit.checkin_target actor q ≡ ok target
      → any (Submit.of_pair crypto keys fl knobs event_id target) (race db).checkins ≡ true
      → IsRepeat race db (
        (Submit.submit_checkin crypto keys fl knobs race actor event_id q ip tick now limiter db).0,
        (Submit.submit_checkin crypto keys fl knobs race actor event_id q ip tick now limiter db).2,
      )
  submit_again race actor event_id q ip tick now limiter db target same h =
      submit_cases crypto keys fl knobs (IsRepeat race db) race actor event_id q ip tick now limiter
        db (λ r e. (e, inl refl))
        λ target' plan same' g c.
          let eq : target ≡ plan.target = cc (same, same', c.for_target) in
          repeated race event_id q now db plan (
            subst
              (λ t. any (Submit.of_pair crypto keys fl knobs event_id t) (race db).checkins ≡ true)
              eq h)

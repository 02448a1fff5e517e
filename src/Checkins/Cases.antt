-- ===== src/Checkins/Cases.antt =====
-- Case rules of POST /events/{id}/checkin of src/routers/checkins.py.
use mathlib.Core.Path.{subst}
use checkin_service.Base.{
  ◌==◌, ℕ, ◌+◌, ◌≡◌, Option, none, some, List, first, Option-cases, Result-cases, inl, inr, Result,
  ok, err,
}
use checkin_service.Text.{Text}
use checkin_service.Models.{Db, DateTime, Checkin, QrToken, checkin_conflict}
use checkin_service.Qr.Service.{consume_token}
use checkin_service.Models.Store.{add_row}
use checkin_service.Hashing.{Crypto, Keys}
use checkin_service.Auth.Roles.{Actor}
use checkin_service.Auth.Gates.{assert_self_or_admin}
use checkin_service.Geo.Distance.{FloatOps}
use checkin_service.Geo.Signals.{Knobs}
use checkin_service.Checkins.Limiter.{Limiter, rate_limit}
use checkin_service.Checkins.Submit
use checkin_service.Checkins.Flows.{IsRefusal, IsRefusing, Flow-cases}
use checkin_service.Checkins.Cleared.{IsCleared, checkin_gate-IsCleared}
use checkin_service.Checkins.Refusals.{checkin_gate-IsRefusing}

abbrev pub duplicate_response : Option Checkin → Submit.Response
duplicate_response existing = record {
  checkin_id = (elim existing [ none ↦ none | some x ↦ some x.id ]);
  status = Submit.duplicate;
  geofence_passed = none;
  distance_m = none;
  checkin_at = (elim existing [ none ↦ none | some x ↦ some x.checkin_at ]);
}

abbrev pub success_response : ℕ → Submit.Plan → DateTime → Submit.Response
success_response id plan now = record {
  checkin_id = some id;
  status = Submit.success;
  geofence_passed = plan.evidence.geofence_passed;
  distance_m = plan.evidence.distance_m;
  checkin_at = some now;
}

module _ (crypto : Crypto) (keys : Keys) (fl : FloatOps) (knobs : Knobs) where
  -- The database after the check-in of `plan` became the last of `rows`.
  abbrev pub checked_in : Submit.Plan → DateTime → List Checkin → Db → Db
  checked_in plan now rows db =
      Submit.redeem crypto keys fl knobs plan.evidence.qr_row plan.target now (
        Submit.mark_attended crypto keys fl knobs plan.registration now
          (record db { checkins = rows; next_id = db.next_id + 1 }))

  pub record_cases {κ} :
      (P : Result Submit.Response × Db → Type κ) (event_id : ℕ) (q : Submit.Request)
      (plan : Submit.Plan) (now : DateTime) (db : Db)
      → (add_row checkin_conflict
              (Submit.new_checkin crypto keys fl knobs event_id q plan now db)
              db.checkins
            ≡ none
          → P (
            ok (
                duplicate_response
                  (first (Submit.of_pair crypto keys fl knobs event_id plan.target) db.checkins)),
            db,
          ))
      → ((rows : List Checkin)
          → add_row checkin_conflict
              (Submit.new_checkin crypto keys fl knobs event_id q plan now db)
              db.checkins
            ≡ some rows
          → P (ok (success_response db.next_id plan now), checked_in plan now rows db))
      → P (Submit.record_checkin crypto keys fl knobs event_id q plan now db)
  unfolding Submit.record_checkin
  record_cases P event_id q plan now db old new =
      elim (Option-cases (
        add_row checkin_conflict (Submit.new_checkin crypto keys fl knobs event_id q plan now db)
          db.checkins)) [
            | inl h ↦ rw (h, Submit.record_checkin) (old h)
            | inr (rows, h) ↦ rw (h, Submit.record_checkin) (new rows h)
          ]

  pub redeem_cases {κ} :
      (P : Db → Type κ) (o : Option QrToken) (target : Text) (now : DateTime) (db : Db)
      → P db
      → ((row : QrToken) → P (consume_token row (some target) now db))
      → P (Submit.redeem crypto keys fl knobs o target now db)
  unfolding Submit.redeem
  redeem_cases P none target now db kept used = kept
  redeem_cases P (some t) target now db kept used =
      elim (first (λ (x : QrToken). x.id == t.id) db.qr_tokens)
        as (λ (o : Option QrToken).
          P (elim o [ none ↦ db | some row ↦ consume_token row (some target) now db ])) [
            | none ↦ kept
            | some row ↦ used row
          ]

  pub submit_cases {κ} :
      (P : Result Submit.Response × Db → Type κ) (race : Db → Db) (actor : Actor) (event_id : ℕ)
      (q : Submit.Request) (ip : Option Text) (tick : ℕ) (now : DateTime) (limiter : Limiter)
      (db : Db)
      → ((r : Result Submit.Response) → IsRefusal r → P (r, db))
      → ((target : Text) (plan : Submit.Plan)
          → Submit.checkin_target actor q ≡ ok target
          → assert_self_or_admin actor target ≡ ok tt
          → IsCleared crypto keys fl knobs event_id q target now db plan
          → P (Submit.record_checkin crypto keys fl knobs event_id q plan now (race db)))
      → P (
        (Submit.submit_checkin crypto keys fl knobs race actor event_id q ip tick now limiter db).0,
        (Submit.submit_checkin crypto keys fl knobs race actor event_id q ip tick now limiter db).2,
      )
  unfolding Submit.submit_checkin Submit.submit_admitted
  submit_cases P race actor event_id q ip tick now limiter db refused go =
      elim (Result-cases (Submit.checkin_target actor q)) [
        | inl (e, h) ↦ rw (h, Submit.submit_checkin) (refused (err e) tt)
        | inr (target, h) ↦ elim (Result-cases (assert_self_or_admin actor target)) [
          | inl (e, g) ↦ rw (h, Submit.submit_checkin) (rw g (refused (err e) tt))
          | inr (u, g) ↦
              elim (Option-cases (
                Submit.throttled crypto keys fl knobs
                  (rate_limit target event_id ip tick limiter).0)) [
                    | inr (e, k) ↦ rw (h, Submit.submit_checkin) (rw g (rw k (refused (err e) tt)))
                    | inl k ↦
                        elim (Flow-cases
                          (Submit.checkin_gate crypto keys fl knobs event_id q target now db)) [
                            | inl (r, f) ↦
                                rw (h, Submit.submit_checkin)
                                  (rw g (
                                    rw k (
                                      rw (f, Submit.submit_admitted)
                                        (refused r (
                                          subst IsRefusing f (
                                            checkin_gate-IsRefusing crypto keys fl knobs event_id q
                                              target now db))))))
                            | inr (plan, f) ↦
                                rw (h, Submit.submit_checkin)
                                  (rw g (
                                    rw k (
                                      rw (f, Submit.submit_admitted)
                                        (go target plan h g (
                                          checkin_gate-IsCleared crypto keys fl knobs event_id q
                                            target now db plan f)))))
                          ]
                  ]
        ]
      ]

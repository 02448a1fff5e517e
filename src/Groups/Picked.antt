-- ===== src/Groups/Picked.antt =====
-- The picker of src/routers/eligible_groups.py against the gate of src/auth.py.
use mathlib.Core.Path.{subst}
use checkin_service.Base.{
  ◌≡◌, refl, true, false, Bool, Bool-cases, ◌&&◌, ◌||◌, none, some, List, [], ◌∷◌, All, In, here,
  there, In-any, first, select, map, inl, inr, ◌⊎◌, ok, arith, ◌==◌, ==_refl, if◌then◌else◌,
}
use checkin_service.Text.{Text, is_empty, or_else}
use checkin_service.Text.Equality.{text_eq_comm}
use checkin_service.Models.{
  Db, Group, Relationship, column_eq, school_admin_group, team_lead_cohort,
}
use checkin_service.Models.Store.{IsDistinct}
use checkin_service.Auth.Roles.{Actor, is_bypass}
use checkin_service.Auth.Gates.{
  digits_of, int_of_digits, is_lead, is_in_school, personal_namespace, assert_group_event_eligible,
}
use checkin_service.Groups.{
  GroupRow, Cohort, uid_of, is_offered, row_of, school_groups, has_accepted, cohort_of,
  list_eligible_groups,
}

-- The primary key of the groups.
abbrev pub same_group : Group → Group → Bool
same_group a b = a.id == b.id

select-map-All {ℓ κ} :
    {A : Type ℓ} {B : Type ℓ} (P : B → Type κ) (f : A → B) (p : A → Bool) (all xs : List A)
    → ((x : A) → In x all → p x ≡ true → P (f x))
    → ((x : A) → In x xs → In x all)
    → All P (map f (select p xs))
unfolding select
select-map-All P f p all [] h sub = tt
select-map-All P f p all (x ∷ xs) h sub = elim (Bool-cases (p x)) [
  | inl e ↦
      rw (e, select)
        (h x (sub x (here refl)) e, select-map-All P f p all xs h (λ y m. sub y (there m)))
  | inr e ↦ rw (e, select) (select-map-All P f p all xs h (λ y m. sub y (there m)))
]

-- With distinct keys, the query for an active group finds that group.
finds_group :
    (gs : List Group) (g : Group)
    → IsDistinct same_group gs
    → In g gs
    → g.is_active ≡ true
    → first (λ (x : Group). x.id == g.id && x.is_active) gs ≡ some g
unfolding first
finds_group [] g d m a = elim m [ ]
finds_group (x ∷ xs) g d (here e) a =
    subst
      (λ y.
        (if y.id == g.id && y.is_active
          then some y
          else first (λ (x : Group). x.id == g.id && x.is_active) xs)
        ≡ some g)
      e (rw (==_refl g.id) (rw a))
finds_group (x ∷ xs) g d (there m) a = elim (Bool-cases (x.id == g.id)) [
  | inl e ↦ absurd (cc (In-any (same_group x) xs g m e, d.0))
  | inr e ↦ rw e (finds_group xs g d.1 m a)
]

is_offered_active : (actor : Actor) (g : Group) → is_offered actor g ≡ true → g.is_active ≡ true
unfolding is_offered
is_offered_active actor g h = ground arith

is_offered_allowed :
    (actor : Actor) (g : Group)
    → is_empty (uid_of actor) ≡ false
    → is_offered actor g ≡ true
    → (is_lead (or_else actor.user_id []) g || (is_bypass actor && is_in_school actor g.school_id))
      ≡ true
unfolding is_offered is_lead is_in_school column_eq
is_offered_allowed actor g known h = ground (
  arith,
  text_eq_comm g.created_by_user_id (uid_of actor),
  text_eq_comm (or_else g.team_lead_user_id []) (uid_of actor),
  text_eq_comm g.school_id (or_else actor.school_id []),
)

has_digits : (uid : Text) → is_empty (digits_of uid) ≡ false → is_empty uid ≡ false
unfolding digits_of
has_digits [] h = h
has_digits (c ∷ s) h = refl

row_passes :
    (actor : Actor) (db : Db) (g : Group)
    → assert_group_event_eligible actor school_admin_group g.id db ≡ ok g.school_id
    → assert_group_event_eligible actor school_admin_group (row_of db g).group_id db
      ≡ ok (row_of db g).school_id
unfolding row_of
row_passes actor db g h = h

cohort_passes :
    (actor : Actor) (db : Db) (rs : List Relationship)
    → is_empty (digits_of (uid_of actor)) ≡ false
    → (cohort_of (uid_of actor) rs ≡ none)
      ⊎ ((c : Cohort) × (cohort_of (uid_of actor) rs ≡ some c)
          × (assert_group_event_eligible actor team_lead_cohort c.cohort_id db
              ≡ ok (personal_namespace (uid_of actor))))
unfolding cohort_of assert_group_event_eligible
cohort_passes actor db [] digits = inl refl
cohort_passes actor db (r ∷ rs) digits =
    inr (_, refl, rw digits (rw (==_refl (int_of_digits 0 (digits_of (uid_of actor))))))

-- A group that is offered passes the gate.
offered_passes :
    (actor : Actor) (db : Db) (g : Group)
    → IsDistinct same_group db.groups
    → is_empty (uid_of actor) ≡ false
    → In g db.groups
    → is_offered actor g ≡ true
    → assert_group_event_eligible actor school_admin_group g.id db ≡ ok g.school_id
unfolding assert_group_event_eligible
offered_passes actor db g distinct known m h =
    rw
      (
        finds_group db.groups g distinct m (is_offered_active actor g h),
        assert_group_event_eligible,
      )
      (rw (is_offered_allowed actor g known h))

-- Whoever is offered a group or a cohort by the picker passes the gate for an event of it: for every
-- caller whose id has a digit, where the groups have distinct keys. The gate answers with the tenant that
-- the picker shows, and for the cohort with the personal namespace of the caller.
pub list_eligible_groups-pass :
    (actor : Actor) (db : Db)
    → IsDistinct same_group db.groups
    → is_empty (digits_of (uid_of actor)) ≡ false
    → All
        (λ (row : GroupRow).
          assert_group_event_eligible actor school_admin_group row.group_id db ≡ ok row.school_id)
        (list_eligible_groups actor db).school_admin_groups
      × (((list_eligible_groups actor db).team_lead_cohort ≡ none)
          ⊎ ((c : Cohort) × ((list_eligible_groups actor db).team_lead_cohort ≡ some c)
              × (assert_group_event_eligible actor team_lead_cohort c.cohort_id db
                  ≡ ok (personal_namespace (uid_of actor)))))
unfolding list_eligible_groups school_groups
list_eligible_groups-pass actor db distinct digits =
    let known : is_empty (uid_of actor) ≡ false = has_digits (uid_of actor) digits in
    (
      rw known (
          select-map-All
            (λ (row : GroupRow).
              assert_group_event_eligible actor school_admin_group row.group_id db
              ≡ ok row.school_id)
            (row_of db) (is_offered actor) db.groups db.groups
            (λ g m h. row_passes actor db g (offered_passes actor db g distinct known m h))
            (λ x m. m)),
      rw known
          (cohort_passes actor db (select (has_accepted (uid_of actor)) db.relationships) digits),
    )

-- ===== src/Events/Merged.antt =====
-- What the merge of a PATCH of src/routers/events.py makes of the columns of a row.
use mathlib.Core.Path.{subst, subst₂}
use checkin_service.Base.{
  sym, Bool, ◌<◌, ◌≡◌, refl, true, false, not, Option, none, some, Bool-cases, inl, inr, ok, http,
  raise_if, >>=-eq-ok, end_before_start,
}
use checkin_service.Models.{DateTime, Event}
use checkin_service.Events.{Moment, naive, aware, stored}
use checkin_service.Events.Schema.{Field, absent, null, given, end_after_start}
use checkin_service.Events.Limits.{IsBefore, end_after_start-IsBefore}
use checkin_service.Events.Update.{
  EventUpdate, merged, merged_time, merged_value, title_of, not_null, merge, flush_row,
}

-- A time of a body without an offset, or none.
abbrev pub HasNoOffset : Field Moment → Type 0
HasNoOffset absent = Unit
HasNoOffset null = Unit
HasNoOffset (given (naive t)) = Unit
HasNoOffset (given (aware wall utc)) = true ≡ false

-- The columns of the times: where both are there, the end is after the start.
abbrev pub EndsAfter : Option DateTime → Option DateTime → Type 0
EndsAfter none v = Unit
EndsAfter (some start) none = Unit
EndsAfter (some start) (some v) = start < v

abbrev IsNaive : Option Moment → Type 0
IsNaive none = Unit
IsNaive (some (naive t)) = Unit
IsNaive (some (aware wall utc)) = true ≡ false

merged_time-IsNaive :
    (old : Option DateTime) (f : Field Moment) → HasNoOffset f → IsNaive (merged_time old f)
unfolding merged_time
merged_time-IsNaive none absent h = tt
merged_time-IsNaive (some t) absent h = tt
merged_time-IsNaive old null h = tt
merged_time-IsNaive old (given (naive t)) h = tt
merged_time-IsNaive old (given (aware wall utc)) h = h

naive-EndsAfter :
    (a b : Option Moment) → IsNaive a → IsNaive b → IsBefore a b → EndsAfter (stored a) (stored b)
unfolding stored
naive-EndsAfter none b na nb h = tt
naive-EndsAfter (some (naive s)) none na nb h = tt
naive-EndsAfter (some (naive s)) (some (naive t)) na nb h = h
naive-EndsAfter (some (naive s)) (some (aware wall utc)) na nb h = absurd (cc nb)
naive-EndsAfter (some (aware wall utc)) b na nb h = absurd (cc na)

pub merge-EndsAfter :
    (p : EventUpdate) (e new : Event)
    → merge p e ≡ ok new
    → HasNoOffset p.start_time
    → HasNoOffset p.end_time
    → EndsAfter new.start_time new.end_time
unfolding merge
merge-EndsAfter p e new h ns nt =
    let start = merged_time e.start_time p.start_time in
    let v = merged_time e.end_time p.end_time in
    let (title, h1, r1) = >>=-eq-ok (title_of e.title p.title) _ h in
    let (ordered, h2, r2) = >>=-eq-ok (end_after_start start v) _ r1 in
    let (u, h3, r3) = >>=-eq-ok (raise_if (not ordered) (http 422 end_before_start)) _ r2 in
    let (method, h4, r4) =
      >>=-eq-ok (not_null (merged_value e.checkin_method p.checkin_method)) _ r3 in
    let (status, h5, r5) = >>=-eq-ok (not_null (merged_value e.status p.status)) _ r4 in
    let (visibility, h6, r6) = >>=-eq-ok (not_null (merged_value e.visibility p.visibility)) _ r5 in
    let (nfc, h7, r7) =
      >>=-eq-ok (not_null (merged_value e.allow_nfc_checkin p.allow_nfc_checkin)) _ r6 in
    let is_start : stored start ≡ new.start_time = cc r7 in
    let is_end : stored v ≡ new.end_time = cc r7 in
    subst₂ EndsAfter is_start is_end (
      naive-EndsAfter start v (merged_time-IsNaive e.start_time p.start_time ns)
        (merged_time-IsNaive e.end_time p.end_time nt)
        (end_after_start-IsBefore start v ordered h2 (passed ordered h3)))
  where
    passed :
        (b : Bool) {u : Unit {0}} → raise_if (not b) (http 422 end_before_start) ≡ ok u → b ≡ true
    passed true g = refl
    passed false g = absurd (cc g)

-- A nullable column after a PATCH: what the body leaves out stays, `null` clears it, a value is written.
abbrev pub IsWritten : {A : Type 0} → Field A → Option A → Option A → Type 0
IsWritten absent old new = new ≡ old
IsWritten null old new = new ≡ none
IsWritten (given a) old new = new ≡ some a

-- A column that is never null after a PATCH.
abbrev pub IsKept : {A : Type 0} → Field A → A → A → Type 0
IsKept absent old new = new ≡ old
IsKept null old new = true ≡ false
IsKept (given a) old new = new ≡ a

-- What the body says of each of these columns is what the row has.
pub record IsMerged (p : EventUpdate) (event new : Event) : Type 0 where
  pub latitude : IsWritten p.latitude event.latitude new.latitude
  pub longitude : IsWritten p.longitude event.longitude new.longitude
  pub radius : IsWritten p.geofence_radius_m event.geofence_radius_m new.geofence_radius_m
  pub capacity : IsWritten p.max_capacity event.max_capacity new.max_capacity
  pub method : IsKept p.checkin_method event.checkin_method new.checkin_method
  pub status : IsKept p.status event.status new.status
  pub visibility : IsKept p.visibility event.visibility new.visibility
  pub nfc : IsKept p.allow_nfc_checkin event.allow_nfc_checkin new.allow_nfc_checkin

-- Two rows with the same times and the same of these columns.
pub record IsAlike (a b : Event) : Type 0 where
  pub start_time : b.start_time ≡ a.start_time
  pub end_time : b.end_time ≡ a.end_time
  pub latitude : b.latitude ≡ a.latitude
  pub longitude : b.longitude ≡ a.longitude
  pub radius : b.geofence_radius_m ≡ a.geofence_radius_m
  pub capacity : b.max_capacity ≡ a.max_capacity
  pub method : b.checkin_method ≡ a.checkin_method
  pub status : b.status ≡ a.status
  pub visibility : b.visibility ≡ a.visibility
  pub nfc : b.allow_nfc_checkin ≡ a.allow_nfc_checkin

merged-IsWritten :
    {A : Type 0} (f : Field A) (old new : Option A) → merged old f ≡ new → IsWritten f old new
merged-IsWritten absent old new h = sym h
merged-IsWritten null old new h = sym h
merged-IsWritten (given a) old new h = sym h

merged_value-IsKept :
    {A : Type 0} (f : Field A) (old x new : A)
    → not_null (merged_value old f) ≡ ok x
    → x ≡ new
    → IsKept f old new
unfolding not_null
merged_value-IsKept absent old x new h e = cc (h, e)
merged_value-IsKept null old x new h e = absurd (cc h)
merged_value-IsKept (given a) old x new h e = cc (h, e)

merge-IsMerged : (p : EventUpdate) (e new : Event) → merge p e ≡ ok new → IsMerged p e new
unfolding merge
merge-IsMerged p e new h =
    let start = merged_time e.start_time p.start_time in
    let v = merged_time e.end_time p.end_time in
    let (title, h1, r1) = >>=-eq-ok (title_of e.title p.title) _ h in
    let (ordered, h2, r2) = >>=-eq-ok (end_after_start start v) _ r1 in
    let (u, h3, r3) = >>=-eq-ok (raise_if (not ordered) (http 422 end_before_start)) _ r2 in
    let (method, h4, r4) =
      >>=-eq-ok (not_null (merged_value e.checkin_method p.checkin_method)) _ r3 in
    let (status, h5, r5) = >>=-eq-ok (not_null (merged_value e.status p.status)) _ r4 in
    let (visibility, h6, r6) = >>=-eq-ok (not_null (merged_value e.visibility p.visibility)) _ r5 in
    let (nfc, h7, r7) =
      >>=-eq-ok (not_null (merged_value e.allow_nfc_checkin p.allow_nfc_checkin)) _ r6 in
    record {
      latitude = merged-IsWritten p.latitude e.latitude new.latitude (cc r7);
      longitude = merged-IsWritten p.longitude e.longitude new.longitude (cc r7);
      radius =
          merged-IsWritten p.geofence_radius_m e.geofence_radius_m new.geofence_radius_m (cc r7);
      capacity = merged-IsWritten p.max_capacity e.max_capacity new.max_capacity (cc r7);
      method =
          merged_value-IsKept p.checkin_method e.checkin_method method new.checkin_method h4
            (cc r7);
      status = merged_value-IsKept p.status e.status status new.status h5 (cc r7);
      visibility =
          merged_value-IsKept p.visibility e.visibility visibility new.visibility h6 (cc r7);
      nfc =
          merged_value-IsKept p.allow_nfc_checkin e.allow_nfc_checkin nfc new.allow_nfc_checkin h7
            (cc r7);
    }

alike-IsMerged : (p : EventUpdate) (e a b : Event) → IsAlike a b → IsMerged p e b → IsMerged p e a
alike-IsMerged p e a b s m = record {
  latitude = subst (IsWritten p.latitude e.latitude) s.latitude m.latitude;
  longitude = subst (IsWritten p.longitude e.longitude) s.longitude m.longitude;
  radius = subst (IsWritten p.geofence_radius_m e.geofence_radius_m) s.radius m.radius;
  capacity = subst (IsWritten p.max_capacity e.max_capacity) s.capacity m.capacity;
  method = subst (IsKept p.checkin_method e.checkin_method) s.method m.method;
  status = subst (IsKept p.status e.status) s.status m.status;
  visibility = subst (IsKept p.visibility e.visibility) s.visibility m.visibility;
  nfc = subst (IsKept p.allow_nfc_checkin e.allow_nfc_checkin) s.nfc m.nfc;
}

pub flush_row-IsMerged :
    (is_clean : Event → Event → Bool) (p : EventUpdate) (now : DateTime) (event new : Event)
    → ((a b : Event) → is_clean a b ≡ true → IsAlike a b)
    → merge p event ≡ ok new
    → IsMerged p event (flush_row is_clean now new event)
unfolding flush_row
flush_row-IsMerged is_clean p now event new same h =
    let m = merge-IsMerged p event new h in
    elim (Bool-cases (is_clean event new)) [
      | inl e ↦ rw (e, flush_row) (alike-IsMerged p event event new (same event new e) m)
      | inr e ↦
          rw (e, flush_row)
            (record {
              latitude = m.latitude;
              longitude = m.longitude;
              radius = m.radius;
              capacity = m.capacity;
              method = m.method;
              status = m.status;
              visibility = m.visibility;
              nfc = m.nfc;
            })
    ]

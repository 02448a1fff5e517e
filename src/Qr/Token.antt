-- ===== src/Qr/Token.antt =====
-- The text of a QR token and the checks that need no database.
use checkin_service.Base.{
  ℕ, Bool, true, false, not, ◌||◌, Option, none, some, List, [], ◌∷◌, ◌++◌, ltb, ◌==◌, is_none,
  if◌then◌else◌,
}
use checkin_service.Text.{
  Text, txt, text_eq, is_empty, is_falsy, or_else, split, take, after_prefix,
}
use checkin_service.Text.Numerals.{ℤ, pos, negsuc, parse_int, show_ℤ}
use checkin_service.Models.{EventTable, events, greek_rush_events}
use checkin_service.Hashing.{Crypto, Keys, compare_digest, hmac_verify}

-- The statuses of `QrTokenVerifyResult`; `valid` is OK. A `fault` is no status: it is the `TypeError`
-- of `compare_digest`.
pub data QrStatus : Type 0 where
  valid invalid_format signature_mismatch expired not_found event_mismatch already_used : QrStatus
  attendee_mismatch fault : QrStatus

-- `_TOKEN_DELIM`
abbrev pub colon : ℕ
colon = b':'

-- `_ATTENDEE_PREFIX`
abbrev pub attendee_prefix : Text
attendee_prefix = txt "a="

unfoldable pub table_name : EventTable → Text
table_name events = txt "events"
table_name greek_rush_events = txt "greek_rush_events"

-- the members of `_VALID_EVENT_TABLES`
unfoldable pub table_of_name : Text → Option EventTable
table_of_name s =
    if text_eq s (txt "events")
    then some events
    else if text_eq s (txt "greek_rush_events")
    then some greek_rush_events
    else none

unfoldable pub same_table : EventTable → EventTable → Bool
same_table events events = true
same_table events greek_rush_events = false
same_table greek_rush_events events = false
same_table greek_rush_events greek_rush_events = true

-- The parts of a token as text.
pub record Parts : Type 0 where
  pub event_table : Text
  pub event_id : Text
  pub nonce : Text
  pub expires : Text
  pub attendee : Option Text
  pub signature : Text

-- five parts, or six of which the fifth begins with the attendee's prefix
unfoldable pub parts_of : List Text → Option Parts
parts_of (t ∷ i ∷ n ∷ e ∷ s ∷ []) = some (record {
  event_table = t;
  event_id = i;
  nonce = n;
  expires = e;
  attendee = none;
  signature = s;
})
parts_of (t ∷ i ∷ n ∷ e ∷ a ∷ s ∷ []) =
    if is_none (after_prefix attendee_prefix a)
    then none
    else some (record {
      event_table = t;
      event_id = i;
      nonce = n;
      expires = e;
      attendee = some a;
      signature = s;
    })
parts_of _ = none

unfoldable pub is_id : ℤ → ℕ → Bool
is_id (pos n) event_id = n == event_id
is_id (negsuc n) event_id = false

-- `expires_unix < int(time.time())`
unfoldable pub is_past : ℤ → ℕ → Bool
is_past (pos e) now = ltb e now
is_past (negsuc e) now = true

module _ (crypto : Crypto) where
  unfoldable pub hash_attendee : Text → Text
  hash_attendee uid = take 16 (crypto.sha256 uid)

  -- The signed text: of a token that is minted, and of one that is checked.
  unfoldable pub payload : Text → Text → Text → Text → Option Text → Text
  payload table id nonce expires fragment =
      let base = table ++ colon ∷ (id ++ colon ∷ (nonce ++ colon ∷ expires)) in
      elim fragment [ none ↦ base | some a ↦ base ++ colon ∷ a ]

  -- the part of a token that binds it to an attendee, `if attendee_user_id:`
  unfoldable pub fragment_of : Option Text → Option Text
  unfolding hash_attendee
  fragment_of attendee =
      if is_falsy attendee
      then none
      else some (attendee_prefix ++ hash_attendee (or_else attendee []))

  -- A token that is bound to an attendee is for that attendee only.
  unfoldable pub attendee_check : Option Text → Option Text → Option Bool
  unfolding hash_attendee
  attendee_check none claimed = some true
  attendee_check (some fragment) claimed = elim (after_prefix attendee_prefix fragment) [
    | none ↦ some false
    | some expected ↦
        if is_falsy claimed
        then some false
        else compare_digest expected (hash_attendee (or_else claimed []))
  ]

  -- the checks after the signature
  unfoldable pub bound_check : Option Text → ℤ → Option Text → ℕ → QrStatus
  unfolding attendee_check
  bound_check fragment expires claimed now = elim (attendee_check fragment claimed) [
    | none ↦ fault
    | some matches ↦
        if not matches then attendee_mismatch else if is_past expires now then expired else valid
  ]

  -- the checks after the two numbers have been read
  unfoldable pub numbers_check :
      Keys → Parts → EventTable → ℤ → ℤ → ℕ → EventTable → Option Text → ℕ → QrStatus
  unfolding bound_check
  numbers_check keys p table id expires event_id event_table claimed now =
      if not (is_id id event_id) || not (same_table table event_table)
      then event_mismatch
      else elim (hmac_verify crypto keys
          (payload p.event_table (show_ℤ id) p.nonce (show_ℤ expires) p.attendee) p.signature) [
            | none ↦ fault
            | some matches ↦
                if not matches
                then signature_mismatch
                else bound_check p.attendee expires claimed now
          ]

  -- the checks of a token's parts
  unfoldable pub parts_check : Keys → Parts → ℕ → EventTable → Option Text → ℕ → QrStatus
  parts_check keys p event_id event_table claimed now = elim (table_of_name p.event_table) [
    | none ↦ invalid_format
    | some table ↦ elim (parse_int p.event_id) [
      | none ↦ invalid_format
      | some id ↦ elim (parse_int p.expires) [
        | none ↦ invalid_format
        | some expires ↦ numbers_check keys p table id expires event_id event_table claimed now
      ]
    ]
  ]

  -- Everything that `verify_token` checks before it queries the database.
  unfoldable pub token_check : Keys → Text → ℕ → EventTable → Option Text → ℕ → QrStatus
  token_check keys raw_token event_id event_table claimed now =
      if is_empty raw_token then invalid_format else elim (parts_of (split colon raw_token)) [
        | none ↦ invalid_format
        | some p ↦ parts_check keys p event_id event_table claimed now
      ]

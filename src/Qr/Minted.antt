-- ===== src/Qr/Minted.antt =====
-- A minted token against the checks of `verify_token`.
use checkin_service.Base.{
  ℕ, zero, suc, ◌≡◌, refl, ◌∙◌, true, false, not, ◌&&◌, ◌||◌, Option, none, some, [], ◌∷◌, ◌++◌,
  arith, ltb, ◌==◌, if◌then◌else◌, Bool-cases, inl, inr, ◌⊎◌,
}
use checkin_service.Text.{
  is_ascii, Text, text_eq, is_empty, is_falsy, or_else, split, take, after_prefix,
}
use checkin_service.Text.Equality.{text_eq_refl}
use checkin_service.Text.Numerals.{pos, show_ℕ, show_ℤ, show_ℕ-IsNumeral, parse_int-show_ℕ}
use checkin_service.Text.Splitting.{IsFreeOf}
use checkin_service.Models.{EventTable}
use checkin_service.Hashing.{Crypto, Keys, hmac_sign, hmac_verify, compare_digest}
use checkin_service.Qr.Token.{
  QrStatus, valid, expired, event_mismatch, attendee_mismatch, colon, attendee_prefix, table_name,
  same_table, Parts, parts_of, hash_attendee, payload, fragment_of, attendee_check, bound_check,
  numbers_check, parts_check, token_check, is_id, is_past,
}
use checkin_service.Qr.Split.{
  IsHex, numeral-free, table_name-free, table_of_name-table_name, split-unbound, split-bound,
}
use checkin_service.Qr.Service.{raw_token}

-- The verdict on a minted token, from what it was minted with.
unfoldable pub verdict :
    (crypto : Crypto)
    → EventTable
    → ℕ
    → ℕ
    → Option Text
    → ℕ
    → EventTable
    → Option Text
    → ℕ
    → QrStatus
verdict crypto table id expires attendee event_id event_table claimed now =
    if not (id == event_id) || not (same_table table event_table)
    then event_mismatch
    else if not (is_falsy attendee)
        && (is_falsy claimed
            || not (
                text_eq (hash_attendee crypto (or_else attendee []))
                  (hash_attendee crypto (or_else claimed []))))
    then attendee_mismatch
    else if ltb expires now
    then expired
    else valid

module _ (crypto : Crypto) (hex : IsHex crypto) (keys : Keys) where
  show-free : (n : ℕ) → IsFreeOf colon (show_ℕ n)
  show-free n = numeral-free (show_ℕ n) (show_ℕ-IsNumeral n).0

  take-free : (n : ℕ) (s : Text) → IsFreeOf colon s → IsFreeOf colon (take n s)
  take-free zero s a = tt
  take-free (suc n) [] a = tt
  take-free (suc n) (c ∷ s) a = (a.0, take-free n s a.1)

  take-ascii : (n : ℕ) (s : Text) → is_ascii s ≡ true → is_ascii (take n s) ≡ true
  unfolding is_ascii
  take-ascii zero s a = refl
  take-ascii (suc n) [] a = refl
  take-ascii (suc n) (c ∷ s) a = ground (arith, take-ascii n s)

  -- The hashes of two attendees are compared without a fault.
  compare_hashes :
      (a b : Text)
      → compare_digest (hash_attendee crypto a) (hash_attendee crypto b)
        ≡ some (text_eq (hash_attendee crypto a) (hash_attendee crypto b))
  unfolding compare_digest hash_attendee
  compare_hashes a b =
      rw (take-ascii 16 (crypto.sha256 a) (hex.sha256_ascii a))
        (rw (take-ascii 16 (crypto.sha256 b) (hex.sha256_ascii b)))

  verify-sign : (s : Text) → hmac_verify crypto keys s (hmac_sign crypto keys s) ≡ some true
  unfolding hmac_verify hmac_sign compare_digest
  verify-sign s =
      rw (hex.hmac_ascii keys.qr_signing_key s) (rw (text_eq_refl (hmac_sign crypto keys s)))

  -- The numbers of a signed token are read back and its signature holds.
  checked :
      (table : EventTable) (id : ℕ) (nonce : Text) (expires : ℕ) (fragment : Option Text)
      (event_id : ℕ) (event_table : EventTable) (claimed : Option Text) (now : ℕ)
      → parts_check crypto keys
          (record {
            event_table = table_name table;
            event_id = show_ℕ id;
            nonce = nonce;
            expires = show_ℕ expires;
            attendee = fragment;
            signature =
                hmac_sign crypto keys
                  (payload crypto (table_name table) (show_ℕ id) nonce (show_ℕ expires) fragment);
          })
          event_id
          event_table
          claimed
          now
        ≡ (if not (id == event_id) || not (same_table table event_table)
            then event_mismatch
            else bound_check crypto fragment (pos expires) claimed now)
  unfolding parts_check numbers_check is_id is_past show_ℤ
  checked table id nonce expires fragment event_id event_table claimed now =
      rw (table_of_name-table_name table, parts_check)
        (rw (parse_int-show_ℕ id) (rw (parse_int-show_ℕ expires) (rw (verify-sign, numbers_check))))

  not_empty : (p s : Text) → is_empty (p ++ colon ∷ s) ≡ false
  not_empty [] s = refl
  not_empty (c ∷ p) s = refl

  split_check :
      (raw : Text) (p : Parts) (event_id : ℕ) (event_table : EventTable) (claimed : Option Text)
      (now : ℕ)
      → is_empty raw ≡ false
      → parts_of (split colon raw) ≡ some p
      → token_check crypto keys raw event_id event_table claimed now
        ≡ parts_check crypto keys p event_id event_table claimed now
  unfolding token_check
  split_check raw p event_id event_table claimed now e h = rw (e, token_check) (rw h)

  -- A token of which the attendee's part is `fragment`.
  fragment_check :
      (table : EventTable) (id : ℕ) (nonce : Text) (expires : ℕ) (fragment : Option Text)
      (event_id : ℕ) (event_table : EventTable) (claimed : Option Text) (now : ℕ)
      → IsFreeOf colon nonce
      → (fragment ≡ none)
        ⊎ ((h : Text) × (fragment ≡ some (attendee_prefix ++ h)) × IsFreeOf colon h)
      → let body = payload crypto (table_name table) (show_ℕ id) nonce (show_ℕ expires) fragment in
        token_check crypto keys
          (body ++ colon ∷ hmac_sign crypto keys body)
          event_id
          event_table
          claimed
          now
        ≡ (if not (id == event_id) || not (same_table table event_table)
            then event_mismatch
            else bound_check crypto fragment (pos expires) claimed now)
  unfolding hmac_sign after_prefix
  fragment_check table id nonce expires fragment event_id event_table claimed now free (inl e) =
      let body = payload crypto (table_name table) (show_ℕ id) nonce (show_ℕ expires) none in
      rw e (
        split_check (body ++ colon ∷ hmac_sign crypto keys body) _ event_id event_table claimed now
          (not_empty body (hmac_sign crypto keys body))
          (split-unbound crypto hex keys (table_name table) (show_ℕ id) nonce (show_ℕ expires)
            (hmac_sign crypto keys body) (table_name-free table) (show-free id) free
            (show-free expires) (hex.hmac_free keys.qr_signing_key body))
        ∙ checked table id nonce expires none event_id event_table claimed now)
  fragment_check table id nonce expires fragment event_id event_table claimed now free
        (inr (h, e, fh)) =
      let a = attendee_prefix ++ h in
      let body = payload crypto (table_name table) (show_ℕ id) nonce (show_ℕ expires) (some a) in
      rw e (
        split_check (body ++ colon ∷ hmac_sign crypto keys body) _ event_id event_table claimed now
          (not_empty body (hmac_sign crypto keys body))
          (split-bound crypto hex keys (table_name table) (show_ℕ id) nonce (show_ℕ expires) a
            (hmac_sign crypto keys body) (table_name-free table) (show-free id) free
            (show-free expires) (refl, (refl, fh)) (hex.hmac_free keys.qr_signing_key body) refl)
        ∙ checked table id nonce expires (some a) event_id event_table claimed now)

  -- Where digests are ASCII and hold no colon and the nonce holds no colon, what a minted token may be used for: the event and the table that it was minted for, by the
  -- attendee to whom it is bound (or one with an equal hash), until it expires. In every other case
  -- the verdict names the first check that fails.
  pub token_check-raw_token :
      (table : EventTable) (id : ℕ) (nonce : Text) (expires : ℕ) (attendee : Option Text)
      (event_id : ℕ) (event_table : EventTable) (claimed : Option Text) (now : ℕ)
      → IsFreeOf colon nonce
      → token_check crypto keys
          (raw_token crypto keys table id nonce expires attendee)
          event_id
          event_table
          claimed
          now
        ≡ verdict crypto table id expires attendee event_id event_table claimed now
  unfolding raw_token verdict fragment_of attendee_check after_prefix bound_check is_past
  token_check-raw_token table id nonce expires attendee event_id event_table claimed now free =
      elim (Bool-cases (is_falsy attendee)) [
        | inl e ↦ rw e (
            fragment_check table id nonce expires none event_id event_table claimed now free
              (inl refl))
        | inr e ↦
            let h = hash_attendee crypto (or_else attendee []) in
            rw e (
              fragment_check table id nonce expires (some (attendee_prefix ++ h)) event_id
                event_table claimed now free
                (inr (
                  h,
                  refl,
                  take-free 16 (crypto.sha256 (or_else attendee []))
                      (hex.sha256_free (or_else attendee [])),
                ))
              ∙ ground (arith, compare_hashes (or_else attendee []) (or_else claimed [])))
      ]

-- ===== src/Tests/Tokens.antt =====
-- A token for Ana at event 1, for a single use.
use checkin_service.Base.{◌+◌, ◌*◌, ◌≡◌, refl, true, none, some, [], ◌∷◌, ok, any, if◌then◌else◌}
use checkin_service.Text.{Text, txt}
use checkin_service.Text.Splitting.{IsFreeOf}
use checkin_service.Models.{events, QrToken}
use checkin_service.Models.Store.{add_row}
use checkin_service.Qr.Token.{valid, already_used, colon, token_check}
use checkin_service.Qr.Service.{
  raw_token, minted_row, mint_token, peek_token, consume_token, set_used, is_valid,
}
use checkin_service.Qr.Minted.{verdict, token_check-raw_token}
use checkin_service.Qr.Consumed.{judged, stored, peek-mint, peek-consume}
use checkin_service.Tests.Data.{ana, full, crypto, crypto-IsHex, keys}

abbrev nonce : Text
nonce = txt "n0"

nonce-free : IsFreeOf colon nonce
nonce-free = (refl, (refl, tt))

token_check-raw_token_example :
    token_check crypto keys
      (raw_token crypto keys events 1 nonce 5000 (some ana))
      1
      events
      (some ana)
      4000
    ≡ verdict crypto events 1 5000 (some ana) 1 events (some ana) 4000
token_check-raw_token_example =
    token_check-raw_token crypto crypto-IsHex keys events 1 nonce 5000 (some ana) 1 events
      (some ana) 4000 nonce-free

abbrev row : QrToken
row = minted_row crypto keys full events 1 (txt "s1") (txt "1") 10 true (some ana) nonce 4000

abbrev raw : Text
raw = raw_token crypto keys events 1 nonce (4000 + 10 * 60) (some ana)

minted :
    mint_token crypto keys 1 (txt "s1") (txt "1") events 10 true (some ana) nonce 4000 full
    ≡ (ok (raw, row), stored full (row ∷ []))
unfolding mint_token add_row any
minted = refl

peek-mint_example : peek_token crypto keys raw 1 events (some ana) 4100 (stored full (row ∷ [])) ≡ (
    if is_valid crypto keys
      (verdict crypto events 1 (4000 + 10 * 60) (some ana) 1 events (some ana) 4100)
    then judged valid (some row)
    else judged (verdict crypto events 1 (4000 + 10 * 60) (some ana) 1 events (some ana) 4100) none)
peek-mint_example =
    peek-mint crypto crypto-IsHex keys 1 (txt "s1") (txt "1") events 10 true (some ana) nonce 4000
      full minted nonce-free 1 events (some ana) 4100

peek-consume_example :
    peek_token crypto keys raw 1 events
      (some ana)
      4200
      (consume_token row (some ana) 4100 (stored full (row ∷ [])))
    ≡ (if is_valid crypto keys
          (verdict crypto events 1 (4000 + 10 * 60) (some ana) 1 events (some ana) 4200)
        then if true
          then judged already_used (some (set_used (some ana) 4100 row))
          else judged valid (some row)
        else judged
            (verdict crypto events 1 (4000 + 10 * 60) (some ana) 1 events (some ana) 4200)
            none)
peek-consume_example =
    peek-consume crypto crypto-IsHex keys 1 (txt "s1") (txt "1") events 10 true (some ana) nonce
      4000 full minted nonce-free 1 events (some ana) 4200 (some ana) 4100

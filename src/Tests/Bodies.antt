-- ===== src/Tests/Bodies.antt =====
-- The request of a token through its validators.
use checkin_service.Base.{◌≡◌, refl, none, ok, true}
use checkin_service.Text.{txt}
use checkin_service.Text.Numerals.{pos}
use checkin_service.Events.Schema.{absent, given, ranged, defaulted, optional, read_value}
use checkin_service.Qr.Service.{mint_qr_token}
use checkin_service.Bodies.{MintBody, MintRequest, validate_mint}
use checkin_service.Bodies.Minting.{IsMinted, mint_qr_token-IsMinted}
use checkin_service.Tests.Data.{crypto, keys, admin, full}

abbrev evening : MintBody
evening = record { ttl_minutes = given (pos 90); single_use = absent; attendee_user_id = absent }

abbrev evening_request : MintRequest
evening_request = record { ttl_minutes = 90; single_use = true; attendee_user_id = none }

reading : validate_mint evening ≡ ok evening_request
unfolding validate_mint ranged defaulted optional read_value
reading = refl

mint_qr_token-IsMinted_example :
    IsMinted 1_000 (mint_qr_token crypto keys admin 1 90 true none (txt "n") 1_000 full).0
mint_qr_token-IsMinted_example =
    mint_qr_token-IsMinted crypto keys evening evening_request admin 1 (txt "n") 1_000 full reading

-- ===== src/Tests/Client.antt =====
-- The example client.
use satoidc.Common.{
  ◌≡◌, refl, true, Option, none, some, List, [], ◌∷◌, ℕ, ltb, if◌then◌else◌, arith,
}
use satoidc.Common.Texts.{Text, codes, strip}
use satoidc.Models.{Token}
use satoidc.OidcKeys.Publish.{JwtConfig}
use satoidc.Examples.{
  UserInfo, user_shown, to_provider, token, Arguments, read_arguments, is_valid, main, logout, auth,
}
use satoidc.Examples.Shown.{Event, visited, called_back, logged_out, after_all, Since, main-Since}
use satoidc.Examples.Accepted.{info_of, signed, main-auth}

abbrev no_number : Text → Option ℕ
no_number t = none

abbrev arguments : Arguments
arguments = record { client_id = codes "app"; provider_url = codes "https://sso" }

reads : read_arguments (codes " app") (codes "https://sso/") ≡ arguments
unfolding read_arguments strip
reads = refl

abbrev id_text : Token → Text
id_text n = codes "app"

abbrev config : JwtConfig
config = record { key = 1; kid = 2; alg = codes "RS256"; iss = codes "https://sso"; exp = 3600 }

abbrev claims : UserInfo
claims = signed no_number arguments id_text config 4 100 refl refl

main-auth_example :
    main no_number arguments 200 (
      auth no_number arguments 101
        (token (some claims))
        record { user_info = none; oauth_error = none })
    ≡ (if ltb 200 3700
        then (user_shown claims, record { user_info = some claims; oauth_error = none })
        else (to_provider, record { user_info = none; oauth_error = none }))
main-auth_example =
    main-auth no_number arguments id_text config 4 100 refl refl 101 200
      record { user_info = none; oauth_error = none } (omega arith) refl

abbrev events : List Event
events = visited 102 ∷ called_back 101 (token (some claims)) ∷ logged_out ∷ []

shows : (main no_number arguments 200 (after_all no_number arguments events)).0 ≡ user_shown claims
unfolding main auth logout is_valid info_of
shows = refl

main-Since_example :
    Since no_number arguments claims events × (is_valid no_number arguments 200 claims ≡ true)
main-Since_example = main-Since no_number arguments events 200 claims shows

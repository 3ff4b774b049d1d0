-- ===== src/OAuth/Userinfo.antt =====
-- `userinfo` of satoidc/satoidc/routes/oauth2.py with `_userinfo_sync`. A bearer token is its row and the row of
-- its user; Authlib's `validate_request` is a parameter.
use satoidc.Common.{
  ◌≡◌, refl, sym, ap, true, Option, none, some, Outcome, ok, raised, ok_value, ◌∙◌, if◌then◌else◌,
}
use satoidc.Common.Texts.{Text, codes, contains_text}
use satoidc.Common.Uuids.{uuid_text}
use satoidc.Models.{User, OAuth2Token}
use satoidc.OAuth.{UserInfo, generate_user_info}
use satoidc.FastApi.Protector.{
  OAuth2Error, HttpException, acquire, acquire_token, guarded, raise_error_response,
}

pub record BearerCredential : Type 0 where
  pub token : OAuth2Token
  pub user : User

module _ {B Request : Type 0}
    (validate_request : Option Text → Request → Outcome (OAuth2Error B) BearerCredential) where
  unfoldable pub userinfo : Request → Outcome (HttpException B) UserInfo
  userinfo request =
      acquire validate_request (some (codes "profile")) request
        (λ t. ok (generate_user_info t.user t.token.scope))

  -- An answer is about the user of the token that Authlib has accepted, has the nickname and the wallet's key
  -- where what Authlib accepts for "profile" has this scope, and the address exactly if the token's scope has it.
  pub userinfo_lem :
      (request : Request) (info : UserInfo)
      → ((t : BearerCredential)
          → validate_request (some (codes "profile")) request ≡ ok t
          → contains_text (codes "profile") t.token.scope ≡ true)
      → userinfo request ≡ ok info
      → (t : BearerCredential) × (validate_request (some (codes "profile")) request ≡ ok t)
        × (info.sub ≡ uuid_text t.user.id)
        × (info.name ≡ some t.user.nickname)
        × (info.lnurl_pubkey ≡ some t.user.lnurl_pubkey)
        × (info.email
            ≡ (if contains_text (codes "email") t.token.scope then some t.user.email else none))
  unfolding userinfo acquire acquire_token generate_user_info raise_error_response
  userinfo_lem request info scoped h =
      tests (validate_request (some (codes "profile")) request) refl h
    where
      tests :
          (o : Outcome (OAuth2Error B) BearerCredential)
          → validate_request (some (codes "profile")) request ≡ o
          → guarded validate_request o (λ t. ok (generate_user_info t.user t.token.scope)) ≡ ok info
          → (t : BearerCredential) × (validate_request (some (codes "profile")) request ≡ ok t)
            × (info.sub ≡ uuid_text t.user.id)
            × (info.name ≡ some t.user.nickname)
            × (info.lnurl_pubkey ≡ some t.user.lnurl_pubkey)
            × (info.email
                ≡ (if contains_text (codes "email") t.token.scope then some t.user.email else none))
      tests (raised error) e k = cc
      tests (ok t) e k =
          let same : info ≡ generate_user_info t.user t.token.scope = sym (ok_value k refl) in
          (
            t,
            e,
            ap (λ i. i.sub) same,
            ap (λ i. i.name) same ∙ rw (scoped t e) refl,
            ap (λ i. i.lnurl_pubkey) same ∙ rw (scoped t e) refl,
            ap (λ i. i.email) same,
          )

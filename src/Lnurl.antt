-- ===== src/Lnurl.antt =====
-- satoidc/satoidc/routes/lnurl_auth.py: the wallet's callback. `verify` stands for the check of the
-- signature by the ecdsa package, which raises on malformed bytes. The session of the database is closed
-- without a commit on every path that does not commit, so what it has written there is undone, the
-- `consumed` flag included: only a committed store is a new store.
pub mod Owned
pub mod Answers
pub mod Challenges
pub mod Keys
pub mod Once
pub mod Link
use satoidc.Common.{
  ℕ, ◌+◌, Bool, true, false, not, ◌&&◌, Option, none, some, List, [], ◌∷◌, ◌++◌, Outcome, ok,
  raised, ◌==◌, leb, if◌then◌else◌,
}
use satoidc.Common.Rows.{first_where, update_first, update_where}
use satoidc.Common.Texts.{Text, codes, text_eq}
use satoidc.Models.{Uuid, Instant, Token, seconds, User, LnurlAuthChallenge}

pub record IdentityStore : Type 0 where
  pub users : List User
  pub challenges : List LnurlAuthChallenge

pub data LnurlAction : Type 0 where
  register login link auth : LnurlAction

abbrev pub action_text : LnurlAction → Text
action_text register = codes "register"
action_text login = codes "login"
action_text link = codes "link"
action_text auth = codes "auth"

pub record LnurlAuthCallbackIn : Type 0 where
  pub k1 : Token
  pub sig : Token
  pub key : Token
  pub action : Option LnurlAction

pub data Reason : Type 0 where
  invalid_or_expired_k1 action_mismatch bad_signature user_not_found missing_linked_account : Reason
  wallet_already_linked linked_account_not_found unknown_action : Reason

pub data Status : Type 0 where
  status_ok : Status
  status_error : Reason → Status

-- What `lnurl_auth_events.call` sends.
pub record AuthEvent : Type 0 where
  pub k1 : Token
  pub user_id : Option Uuid

pub data CallbackError : Type 0 where
  value_error : CallbackError

pub record Handled : Type 0 where
  pub status : Status
  pub event : Option AuthEvent
  pub store : IdentityStore

abbrev pub reject : Reason → IdentityStore → Handled
reject reason s = record { status = status_error reason; event = none; store = s }

abbrev pub has_pubkey : Token → User → Bool
has_pubkey key u = elim u.lnurl_pubkey [ none ↦ false | some k ↦ k == key ]

abbrev pub is_user : Uuid → User → Bool
is_user id u = u.id == id

abbrev pub has_k1 : Token → LnurlAuthChallenge → Bool
has_k1 k1 c = c.k1 == k1

-- `challenge.action != query.action`, where `None` is no text.
abbrev pub action_matches : Text → Option LnurlAction → Bool
action_matches text none = false
action_matches text (some a) = text_eq text (action_text a)

-- The columns' defaults: a `None` nickname is left to the column's default.
abbrev pub new_wallet_user : Uuid → Token → Instant → User
new_wallet_user id key created_at = record {
  id = id;
  lnurl_pubkey = some key;
  email = none;
  login = none;
  password_hash = none;
  nickname = codes "Satoshi";
  is_active = true;
  created_at = created_at;
}

abbrev pub consume : LnurlAuthChallenge → LnurlAuthChallenge
consume c = record c { consumed = true }

abbrev pub set_user : Uuid → LnurlAuthChallenge → LnurlAuthChallenge
set_user id c = record c { user_id = some id }

abbrev pub set_pubkey : Token → User → User
set_pubkey key u = record u { lnurl_pubkey = some key }

module _ (now : Instant) (ttl : ℕ) where
  -- Expected, unused and not expired.
  abbrev pub is_usable : Token → LnurlAuthChallenge → Bool
  is_usable k1 c = has_k1 k1 c && not c.consumed && leb now (c.created_at + seconds ttl)

  -- The challenges with this one consumed.
  abbrev pub consumed_challenges : Token → List LnurlAuthChallenge → List LnurlAuthChallenge
  consumed_challenges k1 cs = update_where (is_usable k1) consume cs

  -- `session.commit()`: the challenge is consumed and belongs to the user.
  abbrev pub committed : IdentityStore → List User → Token → Uuid → Handled
  committed s users k1 id = record {
    status = status_ok;
    event = some record { k1 = k1; user_id = some id };
    store = record {
      users = users;
      challenges = update_first (has_k1 k1) (set_user id) (consumed_challenges k1 s.challenges);
    };
  }

  module _ (db_now : Instant) (fresh_id : Uuid) where
    abbrev pub register_user : IdentityStore → LnurlAuthCallbackIn → Option User → Handled
    register_user s q (some u) = committed s s.users q.k1 u.id
    register_user s q none =
        committed s (s.users ++ new_wallet_user fresh_id q.key db_now ∷ []) q.k1 fresh_id

    abbrev pub login_user : IdentityStore → LnurlAuthCallbackIn → Option User → Handled
    login_user s q (some u) = committed s s.users q.k1 u.id
    login_user s q none = reject user_not_found s

    abbrev pub link_found : IdentityStore → LnurlAuthCallbackIn → Uuid → Option User → Handled
    link_found s q id none = reject linked_account_not_found s
    link_found s q id (some u) =
        committed s (update_first (is_user id) (set_pubkey q.key) s.users) q.k1 id

    -- `db_user and db_user.id != challenge.user_id`
    abbrev pub owned_by_another : Uuid → Option User → Bool
    owned_by_another id none = false
    owned_by_another id (some u) = not (u.id == id)

    abbrev pub link_user : IdentityStore → LnurlAuthCallbackIn → Option Uuid → Option User → Handled
    link_user s q none db_user = reject missing_linked_account s
    link_user s q (some id) db_user =
        if owned_by_another id db_user
        then reject wallet_already_linked s
        else link_found s q id (first_where (is_user id) s.users)

    -- `match query.action`. A stateless authorization is announced and commits nothing.
    unfoldable pub by_action :
        Option LnurlAction
        → IdentityStore
        → LnurlAuthCallbackIn
        → LnurlAuthChallenge
        → Option User
        → Handled
    by_action (some register) s q challenge db_user = register_user s q db_user
    by_action (some login) s q challenge db_user = login_user s q db_user
    by_action (some link) s q challenge db_user = link_user s q challenge.user_id db_user
    by_action (some auth) s q challenge db_user = record {
      status = status_ok;
      event = some record { k1 = challenge.k1; user_id = challenge.user_id };
      store = s;
    }
    by_action none s q challenge db_user = record {
      status = status_error unknown_action;
      event = some record { k1 = challenge.k1; user_id = challenge.user_id };
      store = s;
    }

    abbrev pub after_verify :
        IdentityStore
        → LnurlAuthCallbackIn
        → LnurlAuthChallenge
        → Outcome CallbackError Bool
        → Outcome CallbackError Handled
    unfolding by_action
    after_verify s q challenge (raised e) = raised e
    after_verify s q challenge (ok false) = ok (reject bad_signature s)
    after_verify s q challenge (ok true) =
        ok (by_action q.action s q challenge (first_where (has_pubkey q.key) s.users))

    module _ (verify : Token → Token → Token → Outcome CallbackError Bool) where
      abbrev with_challenge :
          IdentityStore
          → LnurlAuthCallbackIn
          → Option LnurlAuthChallenge
          → Outcome CallbackError Handled
      unfolding by_action
      with_challenge s q none = ok (reject invalid_or_expired_k1 s)
      with_challenge s q (some challenge) =
          if not (action_matches challenge.action q.action)
          then ok (reject action_mismatch s)
          else after_verify s q challenge (verify q.k1 q.key q.sig)

      unfoldable pub lnurl_auth_callback :
          IdentityStore → LnurlAuthCallbackIn → Outcome CallbackError Handled
      unfolding by_action
      lnurl_auth_callback s q = with_challenge s q (first_where (is_usable q.k1) s.challenges)

-- ===== src/Dashboard/Announced.antt =====
-- What the page of the admins does and announces, its lists and its numbers.
use satoidc.Common.{
  ℕ, zero, suc, ◌≡◌, refl, ap, ◌∙◌, Bool, true, false, some, List, [], ◌∷◌, ok, >>=-ok, ok_value,
  leb, if◌then◌else◌, arith, inl, inr,
}
use satoidc.Common.Rows.{first_where, length, rows_where, count_where}
use satoidc.Common.Texts.{codes}
use satoidc.Models.{Uuid, Instant, PermissionRequest, User, OAuth2Client}
use satoidc.Permissions.Store.{
  AccessStore, has_id, is_pending, elem_permission, get_active_permissions_for_user, take_rows,
  list_permission_requests, get_pending_permission_request_count, order_newest_first, insert_newest,
}
use satoidc.Permissions.Requests.{approve_permission_request}
use satoidc.Permissions.Effects.{approve-Changed}
use satoidc.Permissions.Grants.{approve_grants}
use satoidc.Permissions.Metrics.{get_admin_dashboard_metrics}
use satoidc.Permissions.Events.{RequestEvent, action_approved, event_of}
use satoidc.Dashboard.Admin.{approve_request, admin_dashboard_content, insert_desc, order_desc}

module _ (db_now now : Instant) (actor_id : Uuid) where
  -- An approval on the page that returns announces one, for the requester and the type of a request that was
  -- there. If it was pending, the requester holds the type at every time from then on; if it had
  -- been decided before, with whatever outcome, nothing is changed, and the approval is announced all the same.
  pub approve_request_lem :
      (n : ℕ) (s s' : AccessStore) (e : RequestEvent)
      → approve_request db_now now actor_id n s ≡ ok (e, s')
      → (old : PermissionRequest) × (first_where (has_id n) s.permission_requests ≡ some old)
        × (e ≡ event_of action_approved old)
        × (is_pending old ≡ true
            → (at : Instant)
            → elem_permission old.permission_type
                (get_active_permissions_for_user at s' old.requester_id)
              ≡ true)
        × (is_pending old ≡ false → s' ≡ s)
  unfolding approve_request
  approve_request_lem n s s' e h =
      let ((r, t), approval, k) =
        >>=-ok
          (approve_permission_request db_now now s n actor_id
            (some (codes "Approved in admin dashboard")))
          _ h in
      let same_event = ap (λ p. p.0) (ok_value refl k) in
      let same_store = ap (λ p. p.1) (ok_value refl k) in
      let c = approve-Changed db_now now s t n actor_id _ r approval in
      (
        c.old,
        c.found,
        elim c.outcome [
          | inl (decided, row, same) ↦ same_event ∙ ap (event_of action_approved) row
          | inr (pend, row, requests, granted) ↦ same_event ∙ ap (event_of action_approved) row
        ],
        (λ pend at.
            rw same_store
              ((approve_grants db_now now s t n actor_id _ r approval c.old c.found pend).3 at)),
        (λ decided. elim c.outcome [
          | inl (_, row, same) ↦ same_store ∙ same
          | inr (pend, row, requests, granted) ↦ absurd (cc)
        ]),
      )

-- The least of two numbers
abbrev pub at_most : ℕ → ℕ → ℕ
at_most limit n = if leb limit n then limit else n

length-take_rows {ℓ} :
    {A : Type ℓ} (n : ℕ) (xs : List A) → length (take_rows n xs) ≡ at_most n (length xs)
length-take_rows zero xs = ground arith
length-take_rows (suc n) [] = ground arith
length-take_rows (suc n) (x ∷ xs) = ground (arith, length-take_rows n xs)

length-insert_desc {ℓ} :
    {A : Type ℓ} (column : A → ℕ) (r : A) (xs : List A)
    → length (insert_desc column r xs) ≡ suc (length xs)
length-insert_desc column r [] = refl
length-insert_desc column r (x ∷ xs) = ground (arith, length-insert_desc column r xs)

length-order_desc {ℓ} :
    {A : Type ℓ} (column : A → ℕ) (xs : List A) → length (order_desc column xs) ≡ length xs
length-order_desc column [] = refl
length-order_desc column (x ∷ xs) =
    length-insert_desc column x (order_desc column xs) ∙ ap suc (length-order_desc column xs)

length-rows_where {ℓ} :
    {A : Type ℓ} (p : A → Bool) (xs : List A) → length (rows_where p xs) ≡ count_where p xs
length-rows_where p [] = refl
length-rows_where p (x ∷ xs) = ground (arith, length-rows_where p xs)

length-insert_newest :
    (r : PermissionRequest) (rs : List PermissionRequest)
    → length (insert_newest r rs) ≡ suc (length rs)
unfolding insert_newest
length-insert_newest r [] = refl
length-insert_newest r (q ∷ qs) = ground (arith, length-insert_newest r qs)

length-order_newest_first :
    (rs : List PermissionRequest) → length (order_newest_first rs) ≡ length rs
unfolding order_newest_first
length-order_newest_first [] = refl
length-order_newest_first (r ∷ rs) =
    length-insert_newest r (order_newest_first rs) ∙ ap suc (length-order_newest_first rs)

-- The page shows as many pending requests, users, clients and inactive permissions as its numbers say, up to
-- 25, 10, 10 and 10.
pub admin_dashboard_content-length :
    (db_now now : Instant) (users : List User) (clients : List OAuth2Client) (s : AccessStore)
    → let c = admin_dashboard_content db_now now users clients s in
      (length c.pending_requests ≡ at_most 25 c.metrics.pending_requests)
      × (length c.users ≡ at_most 10 c.metrics.total_users)
      × (length c.clients ≡ at_most 10 c.metrics.registered_clients)
      × (length c.inactive_permissions ≡ at_most 10 c.metrics.inactive_permissions)
unfolding admin_dashboard_content get_admin_dashboard_metrics get_pending_permission_request_count
    list_permission_requests
admin_dashboard_content-length db_now now users clients s = (
  length-take_rows 25 _
      ∙ ap (at_most 25) (length-order_newest_first _ ∙ length-rows_where _ s.permission_requests),
  length-take_rows 10 _ ∙ ap (at_most 10) (length-order_desc _ users),
  length-take_rows 10 _ ∙ ap (at_most 10) (length-order_desc _ clients),
  length-take_rows 10 _
      ∙ ap (at_most 10) (length-order_desc _ _ ∙ length-rows_where _ s.permissions),
)

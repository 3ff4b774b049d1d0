-- ===== src/Permissions/Decided.antt =====
-- Requests that have been decided.
use satoidc.Common.{ℕ, ◌≡◌, refl, Bool, true, false, List, [], ◌∷◌, ◌++◌, some, arith, inl, inr}
use satoidc.Common.Rows.{first_where, update_first}
use satoidc.Models.{Instant, Permission, PermissionRequest}
use satoidc.Permissions.Store.{AccessStore, is_pending, has_id}
use satoidc.Permissions.Effects.{
  Changed, create-Changed, approve-Changed, deny-Changed, cancel-Changed,
}
use satoidc.Permissions.Unique.{IsValid, AccessStep, AccessStep-IsValid}

-- Operations at any times, one after the other.
pub data AccessReach (s : AccessStore) : AccessStore → Type 0 where
  here : AccessReach s s
  next :
      (db_now now : Instant) {t u : AccessStore}
      → AccessReach s t
      → AccessStep db_now now t u
      → AccessReach s u

-- In every store that is reached from one that keeps both constraints of the tables, both hold.
pub AccessReach-IsValid : {s s' : AccessStore} → AccessReach s s' → IsValid s → IsValid s'
AccessReach-IsValid AccessReach.here v = v
AccessReach-IsValid (AccessReach.next db_now now r st) v =
    AccessStep-IsValid db_now now st (AccessReach-IsValid r v)

first_where-append :
    (n : ℕ) (rs : List PermissionRequest) (r x : PermissionRequest)
    → first_where (has_id n) rs ≡ some r
    → first_where (has_id n) (rs ++ x ∷ []) ≡ some r
first_where-append n [] r x h = cc
first_where-append n (q ∷ rs) r x h = ground (arith, first_where-append n rs r x)

-- An update of the row of another number leaves this row.
first_where-update_other :
    (n m : ℕ) (f : PermissionRequest → PermissionRequest) (rs : List PermissionRequest)
    (r old : PermissionRequest)
    → ((x : PermissionRequest) → (f x).id ≡ x.id)
    → first_where (has_id n) rs ≡ some r
    → first_where (has_id m) rs ≡ some old
    → is_pending r ≡ false
    → is_pending old ≡ true
    → first_where (has_id n) (update_first (has_id m) f rs) ≡ some r
first_where-update_other n m f [] r old keeps h k decided pend = cc
first_where-update_other n m f (q ∷ rs) r old keeps h k decided pend =
    ground (arith, keeps q, first_where-update_other n m f rs r old keeps)

Changed-decided :
    (n m : ℕ) (allowed : PermissionRequest → Bool) (f : PermissionRequest → PermissionRequest)
    (permissions : PermissionRequest → List Permission) (r row : PermissionRequest)
    (s s' : AccessStore)
    → ((x : PermissionRequest) → (f x).id ≡ x.id)
    → ((x : PermissionRequest) → allowed x ≡ true → is_pending x ≡ true)
    → Changed m allowed f permissions row s s'
    → first_where (has_id n) s.permission_requests ≡ some r
    → is_pending r ≡ false
    → first_where (has_id n) s'.permission_requests ≡ some r
Changed-decided n m allowed f permissions r row s s' keeps only c h decided = elim c.outcome [
  | inl (refused, same_row, same) ↦ rw same h
  | inr (may, new_row, requests, perms) ↦ rw requests (
      first_where-update_other n m f s.permission_requests r c.old keeps h c.found decided
        (only c.old may))
]

module _ (n : ℕ) (r : PermissionRequest) (decided : is_pending r ≡ false) where
  Step-decided :
      (db_now now : Instant) {s s' : AccessStore}
      → AccessStep db_now now s s'
      → first_where (has_id n) s.permission_requests ≡ some r
      → first_where (has_id n) s'.permission_requests ≡ some r
  Step-decided db_now now {s} {s'} (AccessStep.create u t reason row e) h =
      elim (create-Changed db_now now s s' u t reason row e) [
        | inl (found, same) ↦ rw same h
        | inr (fresh, new, same) ↦ rw same (first_where-append n s.permission_requests r row h)
      ]
  Step-decided db_now now {s} {s'} (AccessStep.approve m actor_id reason row e) h =
      Changed-decided n m _ _ _ r row s s' (λ x. refl) (λ x p. p)
        (approve-Changed db_now now s s' m actor_id reason row e) h decided
  Step-decided db_now now {s} {s'} (AccessStep.deny m actor_id reason row e) h =
      Changed-decided n m _ _ _ r row s s' (λ x. refl) (λ x p. p)
        (deny-Changed db_now now s s' m actor_id reason row e) h decided
  Step-decided db_now now {s} {s'} (AccessStep.cancel_own m requester_id row e) h =
      Changed-decided n m _ _ _ r row s s' (λ x. refl) (λ x p. ground arith)
        (cancel-Changed db_now now s s' m requester_id row e) h decided

  -- A request that has been approved, denied or cancelled stays as it is, decision, decider and time
  -- included, in every store that is reached by the operations on requests.
  pub Reach-decided :
      {s s' : AccessStore}
      → AccessReach s s'
      → first_where (has_id n) s.permission_requests ≡ some r
      → first_where (has_id n) s'.permission_requests ≡ some r
  Reach-decided AccessReach.here h = h
  Reach-decided (AccessReach.next db_now now reach st) h =
      Step-decided db_now now st (Reach-decided reach h)

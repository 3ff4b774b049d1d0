-- ===== src/Permissions/Reordered.antt =====
-- Operations on requests one after another, on the same rows in another order.
use satoidc.Permissions.Agreed.{Agree, perform-Agree}
use mathlib.Core.Quot.{Quot}
use mathlib.Core.Quot
use mathlib.Core.Path.{ap₂}
use satoidc.Common.{◌≡◌, refl, ap, List, [], ◌∷◌, ok, raised}
use satoidc.Models.{Instant, PermissionRequest}
use satoidc.Permissions.Store.{AccessStore}
use satoidc.Permissions.Unique.{IsValid, AccessStep, AccessStep-IsValid}
use satoidc.Permissions.Abstract.{view}
use satoidc.Permissions.Keyed.{AccessStep-HasKeys}
use satoidc.Permissions.Orderless.{
  view_of, SameRows, Tables, HasKeys, Result, Operation, create, approve, deny, cancel_own, perform,
  answer, tables_after, perform_all,
}

after_Agree :
    (a b : Result) (s t : AccessStore)
    → SameRows s t
    → Agree a b
    → (answer a ≡ answer b) × SameRows (tables_after s a) (tables_after t b)
after_Agree (raised e) (raised e') s t same h = (ap raised h, same)
after_Agree (raised e) (ok (r, t')) s t same h = absurd h
after_Agree (ok (r, s')) (raised e) s t same h = absurd h
after_Agree (ok (r, s')) (ok (r', t')) s t same (row, rows) = (ap ok row, rows)

performed-AccessStep :
    (db_now now : Instant) (o : Operation) {s s' : AccessStore} (r : PermissionRequest)
    → perform db_now now o s ≡ ok (r, s')
    → AccessStep db_now now s s'
performed-AccessStep db_now now (create u p reason) r h = AccessStep.create u p reason r h
performed-AccessStep db_now now (approve n actor_id reason) r h =
    AccessStep.approve n actor_id reason r h
performed-AccessStep db_now now (deny n actor_id reason) r h = AccessStep.deny n actor_id reason r h
performed-AccessStep db_now now (cancel_own n requester_id) r h =
    AccessStep.cancel_own n requester_id r h

kept_after :
    (db_now now : Instant) (o : Operation) (s : AccessStore) (result : Result)
    → perform db_now now o s ≡ result
    → IsValid s
    → HasKeys s
    → IsValid (tables_after s result) × HasKeys (tables_after s result)
kept_after db_now now o s (raised e) h v keys = (v, keys)
kept_after db_now now o s (ok (r, s')) h v keys =
    let step = performed-AccessStep db_now now o r h in
    (AccessStep-IsValid db_now now step v, AccessStep-HasKeys db_now now step keys)

performed :
    (os : List (Instant × Instant × Operation)) (s t : AccessStore)
    → IsValid s
    → HasKeys s
    → SameRows s t
    → ((perform_all os s).0 ≡ (perform_all os t).0)
      × SameRows (perform_all os s).1 (perform_all os t).1
unfolding perform_all
performed [] s t v keys same = (refl, same)
performed ((db_now, now, o) ∷ os) s t v keys same =
    let (answers, rows) =
      after_Agree (perform db_now now o s) (perform db_now now o t) s t same
        (perform-Agree db_now now s t same v keys o) in
    let (v', keys') = kept_after db_now now o s (perform db_now now o s) refl v keys in
    let (more, rest) =
      performed os (tables_after s (perform db_now now o s))
        (tables_after t (perform db_now now o t)) v' keys' rows in
    (ap₂ ◌∷◌ answers more, rest)

-- From tables with the same rows in whatever order, which satisfy their constraints and whose requests have
-- distinct numbers, the same operations one after another give the same answers, errors included, and end in
-- tables that are equal once the order of the rows is forgotten; so they have the same abstract view.
pub perform_all-reordered :
    (os : List (Instant × Instant × Operation)) (s t : AccessStore)
    → IsValid s
    → HasKeys s
    → SameRows s t
    → ((perform_all os s).0 ≡ (perform_all os t).0)
      × (◌≡◌ {A = Tables} (Quot.mk (perform_all os s).1) (Quot.mk (perform_all os t).1))
      × (view (perform_all os s).1 ≡ view (perform_all os t).1)
unfolding view_of
perform_all-reordered os s t v keys same =
    let (answers, rows) = performed os s t v keys same in
    let tables : ◌≡◌ {A = Tables} (Quot.mk (perform_all os s).1) (Quot.mk (perform_all os t).1) =
      Quot.sound rows in
    (answers, tables, ap view_of tables)

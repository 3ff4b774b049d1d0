-- ===== src/OidcKeys/Sorted.antt =====
-- The order of publication.
use satoidc.Common.{◌≡◌, refl, Bool, List, [], ◌∷◌, arith}
use satoidc.Common.Rows.{count_where}
use satoidc.Models.{OidcSigningKey}
use satoidc.OidcKeys.Publish.{insert_by_created, order_by_created_at}

count_where-insert_by_created :
    (q : OidcSigningKey → Bool) (k : OidcSigningKey) (ks : List OidcSigningKey)
    → count_where q (insert_by_created k ks) ≡ count_where q (k ∷ ks)
unfolding insert_by_created
count_where-insert_by_created q k [] = refl
count_where-insert_by_created q k (j ∷ js) = ground (arith, count_where-insert_by_created q k js)

pub count_where-order_by_created_at :
    (q : OidcSigningKey → Bool) (ks : List OidcSigningKey)
    → count_where q (order_by_created_at ks) ≡ count_where q ks
unfolding order_by_created_at
count_where-order_by_created_at q [] = refl
count_where-order_by_created_at q (k ∷ ks) = omega (
  arith,
  count_where-insert_by_created q k (order_by_created_at ks),
  count_where-order_by_created_at q ks,
)

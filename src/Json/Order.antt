-- ===== src/Json/Order.antt =====
-- The order of texts is a strict total order.
use Prim.Native.Nat.{Ordering}
use schemaform.Prelude.{◌≡◌, refl, [], ◌∷◌, arith}
use schemaform.Prelude.Orders.{IsOrder}
use schemaform.Json.{Text, text_cmp}

text_cmp_same : (s t : Text) → text_cmp s t ≡ Ordering.eq → s ≡ t
unfolding text_cmp
text_cmp_same [] [] h = refl
text_cmp_same [] (d ∷ t) h = ground arith
text_cmp_same (c ∷ s) [] h = ground arith
text_cmp_same (c ∷ s) (d ∷ t) h = ground (arith, text_cmp_same s t)

text_cmp_self : (s : Text) → text_cmp s s ≡ Ordering.eq
unfolding text_cmp
text_cmp_self [] = refl
text_cmp_self (c ∷ s) = ground (arith, text_cmp_self s)

text_cmp_flip_lt : (s t : Text) → text_cmp s t ≡ Ordering.lt → text_cmp t s ≡ Ordering.gt
unfolding text_cmp
text_cmp_flip_lt [] [] h = ground arith
text_cmp_flip_lt [] (d ∷ t) h = refl
text_cmp_flip_lt (c ∷ s) [] h = ground arith
text_cmp_flip_lt (c ∷ s) (d ∷ t) h = ground (arith, text_cmp_flip_lt s t)

text_cmp_flip_gt : (s t : Text) → text_cmp s t ≡ Ordering.gt → text_cmp t s ≡ Ordering.lt
unfolding text_cmp
text_cmp_flip_gt [] [] h = ground arith
text_cmp_flip_gt [] (d ∷ t) h = ground arith
text_cmp_flip_gt (c ∷ s) [] h = refl
text_cmp_flip_gt (c ∷ s) (d ∷ t) h = ground (arith, text_cmp_flip_gt s t)

text_cmp_trans :
    (s t u : Text)
    → text_cmp s t ≡ Ordering.lt
    → text_cmp t u ≡ Ordering.lt
    → text_cmp s u ≡ Ordering.lt
unfolding text_cmp
text_cmp_trans [] t [] h k = ground arith
text_cmp_trans [] t (e ∷ u) h k = refl
text_cmp_trans (c ∷ s) [] u h k = ground arith
text_cmp_trans (c ∷ s) (d ∷ t) [] h k = ground arith
text_cmp_trans (c ∷ s) (d ∷ t) (e ∷ u) h k = ground (arith, text_cmp_trans s t u)

pub text_cmp-IsOrder : IsOrder text_cmp
text_cmp-IsOrder = record {
  same = text_cmp_same;
  self = text_cmp_self;
  flip_lt = text_cmp_flip_lt;
  flip_gt = text_cmp_flip_gt;
  trans = text_cmp_trans;
}

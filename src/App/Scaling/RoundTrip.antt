-- ===== src/App/Scaling/RoundTrip.antt =====
-- internal/application/scale.go: the number of instances that is read after it was set.
use epinio.Base.{◌≡◌, refl, ap, if◌then◌else◌, ok, get_or, arith}
use epinio.Text.{Text, ==_refl}
use epinio.Text.Maps.{Map, insert, lookup-insert}
use epinio.App.Store.{AppRef, Kube, scaling, fresh}
use epinio.App.Store.Written.{IsStore, update-contents_of}
use epinio.Integers.{ℤ, pos, negsuc, ltb_int, itoa}
use epinio.Integers.RoundTrip.{IsInt32, parse_int32-itoa, itoa-is_empty}
use epinio.App.Scaling.{scaling_from, instance_key, wanted, scaling_of, scaling_set}

wanted-int : (i : ℤ) → wanted i ≡ (if ltb_int i (pos 0) then pos 1 else i)
unfolding ltb_int
wanted-int (pos n) = ground arith
wanted-int (negsuc n) = refl

scaling_from-insert :
    (i : ℤ) (m : Map Text)
    → IsInt32 i
    → scaling_from (insert instance_key (itoa i) m) ≡ ok (if ltb_int i (pos 0) then pos 1 else i)
unfolding scaling_from
scaling_from-insert i m h =
    rw
      (
        lookup-insert instance_key instance_key (itoa i) m,
        ==_refl instance_key,
        itoa-is_empty i,
        parse_int32-itoa i h,
      )
      (ap ok (wanted-int i))

-- If `ScalingSet` succeeds for an `int32`, the number of instances that is read afterwards is the
-- one that was set, or one if that was negative.
pub scaling_of-scaling_set :
    {W : Type 0} (kube : Kube W) (sha1_hex : Text → Text) (store : IsStore kube) (ref : AppRef)
    (i : ℤ) (w w' : W)
    → IsInt32 i
    → scaling_set kube sha1_hex ref i w ≡ (ok tt, w')
    → scaling_of kube sha1_hex ref w' ≡ (ok (if ltb_int i (pos 0) then pos 1 else i), w')
unfolding scaling_set scaling_of
scaling_of-scaling_set kube sha1_hex store ref i w w' h e =
    let (old, reads, is) =
      update-contents_of kube sha1_hex scaling ref store (insert instance_key (itoa i)) w w' e in
    ground (arith, scaling_from-insert i (get_or old (fresh scaling)) h)

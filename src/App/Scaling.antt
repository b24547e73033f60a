-- ===== src/App/Scaling.antt =====
-- internal/application/scale.go: the number of instances that a user wants, kept as a text.
pub mod RoundTrip
use epinio.Base.{
  ℕ, zero, suc, ◌+◌, ◌-◌, ◌*◌, ◌/◌, ◌%◌, ◌^◌, Bool, true, false, ◌&&◌, ◌||◌, List, [], ◌∷◌, ◌++◌,
  Option, none, some, ◌≡◌, if◌then◌else◌, Result, ok, err, get_or, eqb, leb, ltb,
}
use epinio.Text.{Text, codes}
use epinio.Text.Affix.{is_empty}
use epinio.Text.Maps.{Map, lookup, insert}
use epinio.Integers.{ℤ, pos, negsuc, itoa, parse_int32, ltb_int, eqb_int}
use epinio.App.Store.{AppRef, ApiError, Kube, scaling, update, contents_of}

pub data ScaleError : Type 0 where
  api : ApiError → ScaleError
  bad_number : Text → ScaleError

abbrev pub instance_key : Text
instance_key = codes "desired"

-- "Reject bad values, and assume single instance".
abbrev pub wanted : ℤ → ℤ
wanted (pos n) = pos n
wanted (negsuc n) = pos 1

-- `ScalingFromSecret`, from the data.
pub scaling_from : Map Text → Result ScaleError ℤ
scaling_from m =
    let desired = get_or (lookup instance_key m) [] in
    if is_empty desired
    then ok (pos 1)
    else elim (parse_int32 desired) [ none ↦ err (bad_number desired) | some i ↦ ok (wanted i) ]

-- The reason of an event, and the user that its message names.
pub reason : ℤ → ℤ → Text
reason from to =
    if ltb_int to from
    then codes "ScaleDown"
    else if eqb_int to from
    then codes "ScaleUnchanged"
    else codes "ScaleUp"

-- What an event says that `emitScalingEvent` creates for an application.
pub record ScalingEvent : Type 0 where
  pub app : AppRef
  pub reason : Text
  pub from : ℤ
  pub to : ℤ
  pub username : Text

pub scaling_event : AppRef → ℤ → ℤ → Text → ScalingEvent
unfolding reason
scaling_event ref from to username = record {
  app = ref;
  reason = reason from to;
  from = from;
  to = to;
  username = if is_empty username then codes "unknown" else username;
}

module _ {W : Type 0} (kube : Kube W) (sha1_hex : Text → Text) where
  pub scaling_of : AppRef → W → Result ScaleError ℤ × W
  unfolding scaling_from
  scaling_of ref w =
      let (r, w') = contents_of kube sha1_hex scaling ref w in
      elim r [ err e ↦ (err (api e), w') | ok m ↦ (scaling_from m, w') ]

  unfoldable pub scaling_set : AppRef → ℤ → W → Result ApiError (Unit {0}) × W
  unfolding itoa
  scaling_set ref instances =
      update kube sha1_hex scaling ref (insert instance_key (itoa instances))

  -- `emit` creates an event, or fails to; both leave the outcome of the caller as it is.
  module _ (emit : ScalingEvent → W → W) where
    pub scaling_set_with_event : AppRef → ℤ → Text → W → Result ScaleError (Unit {0}) × W
    unfolding scaling_of scaling_set scaling_event eqb_int
    scaling_set_with_event ref instances username w =
        let (before, w1) = scaling_of ref w in
        elim before [
          | err e ↦ (err e, w1)
          | ok previous ↦
              let (done, w2) = scaling_set ref instances w1 in
              elim done [
                | err e ↦ (err (api e), w2)
                | ok _ ↦
                    if eqb_int previous instances
                    then (ok tt, w2)
                    else (ok tt, emit (scaling_event ref previous instances username) w2)
              ]
        ]

    pub scaling_set_with_event_on_create : AppRef → ℤ → Text → W → Result ScaleError (Unit {0}) × W
    unfolding scaling_of scaling_set scaling_event
    scaling_set_with_event_on_create ref instances username w =
        let (before, w1) = scaling_of ref w in
        elim before [
          | err e ↦ (err e, w1)
          | ok previous ↦
              let (done, w2) = scaling_set ref instances w1 in
              elim done [
                | err e ↦ (err (api e), w2)
                | ok _ ↦ (ok tt, emit (scaling_event ref previous instances username) w2)
              ]
        ]

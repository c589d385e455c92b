-- ===== src/Sd/Subscription.antt =====
-- paf/sd.py, `Subscription`, and the calls that are made to the owner's callback.
pub mod View
use paf.Prelude.{
  ℕ, Bool, true, false, Option, none, some, List, [], ◌∷◌, Text, nat_beq, if◌then◌else◌,
}
use paf.Prelude.Action.{Result, ok, raised, bind, permission_error}
use paf.Filter.Syntax.{Filter, Props}
use paf.Filter.Match.{matches}
use paf.Sd.Service.{Generation, Service, ChangeType, getter}

pub data MatchType : Type 0 where
  appeared modified disappeared : MatchType

pub record Subscription : Type 0 where
  pub sub_id : ℕ
  pub filter : Option Filter
  pub client_id : ℕ
  pub user_id : Text

unfoldable pub subscription_matches : Subscription → Props → Result Bool
subscription_matches sub props = elim (Subscription.filter sub) [
  | none ↦ ok true
  | some f ↦ matches f props
]

-- `self.matches(service.props())` and `self.matches(service.had_props())`.
unfoldable pub matches_generation : Subscription → Option Generation → Result Bool
matches_generation sub g =
    bind (getter Generation.props g) (λ props. subscription_matches sub props) (λ e. raised e)

-- The tests of `notify` for a modification, on whether the service matched before and matches now.
abbrev pub modified_type : Bool → Bool → Option MatchType
modified_type true true = some MatchType.modified
modified_type false true = some MatchType.appeared
modified_type true false = some MatchType.disappeared
modified_type false false = none

abbrev pub when_matched : MatchType → Bool → Option MatchType
when_matched t true = some t
when_matched t false = none

-- `notify`: the type that the callback is called with, if it is called. In Python both tests of a
-- modification are always made, since `before` alone decides no branch.
unfoldable pub notify : Subscription → ChangeType → Service → Result (Option MatchType)
notify sub ChangeType.added s =
    bind (matches_generation sub s.cur) (λ now. ok (when_matched MatchType.appeared now))
      (λ e. raised e)
notify sub ChangeType.modified s =
    bind (matches_generation sub s.prev)
      (λ before.
        bind (matches_generation sub s.cur) (λ after. ok (modified_type before after))
          (λ e. raised e))
      (λ e. raised e)
notify sub ChangeType.removed s =
    bind (matches_generation sub s.prev) (λ before. ok (when_matched MatchType.disappeared before))
      (λ e. raised e)

unfoldable pub subscription_check_access : ℕ → Subscription → Result (Unit {0})
subscription_check_access client sub =
    if nat_beq client sub.client_id then ok tt else raised permission_error

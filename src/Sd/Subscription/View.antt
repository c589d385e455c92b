-- ===== src/Sd/Subscription/View.antt =====
-- paf/sd.py, `Subscription.notify`: what a subscriber makes of the calls it gets.
use paf.Prelude.{◌≡◌, refl, Bool, true, false, ◌||◌, Option, none, some, arith}
use paf.Prelude.Dict.{is_some}
use paf.Prelude.Action.{Result, ok}
use paf.Sd.Service.{Service, ChangeType}
use paf.Sd.Subscription.{Subscription, MatchType, notify, matches_generation}

-- A subscriber that tracks whether it knows a service as a match: its knowledge after a call, or
-- `none` where the call makes no sense to it, such as a second appearance.
abbrev pub knows : Bool → Option MatchType → Option Bool
knows known none = some known
knows false (some MatchType.appeared) = some true
knows true (some MatchType.modified) = some true
knows true (some MatchType.disappeared) = some false
knows _ (some _) = none

-- Whether a service matched before a change, and whether it matches after.
abbrev pub matched_before : Subscription → ChangeType → Service → Result Bool
matched_before sub ChangeType.added s = ok false
matched_before sub ChangeType.modified s = matches_generation sub s.prev
matched_before sub ChangeType.removed s = matches_generation sub s.prev

abbrev pub matched_after : Subscription → ChangeType → Service → Result Bool
matched_after sub ChangeType.added s = matches_generation sub s.cur
matched_after sub ChangeType.modified s = matches_generation sub s.cur
matched_after sub ChangeType.removed s = ok false

-- Where both matches are decided, `notify` raises nothing; its call fits a subscriber that knew the
-- service exactly if it matched before, and leaves it knowing the service exactly if it matches now.
-- The subscriber is called exactly if the service matched before or matches now.
pub notify-knows :
    (sub : Subscription) (c : ChangeType) (s : Service) (before after : Bool)
    → matched_before sub c s ≡ ok before
    → matched_after sub c s ≡ ok after
    → (t : Option MatchType) × (notify sub c s ≡ ok t)
      × (knows before t ≡ some after)
      × (is_some t ≡ (before || after))
unfolding notify
notify-knows sub ChangeType.added s false true b a = (some MatchType.appeared, rw a, refl, refl)
notify-knows sub ChangeType.added s false false b a = (none, rw a, refl, refl)
notify-knows sub ChangeType.added s true after b a = absurd (ground arith)
notify-knows sub ChangeType.modified s true true b a =
    (some MatchType.modified, rw (b, a), refl, refl)
notify-knows sub ChangeType.modified s true false b a =
    (some MatchType.disappeared, rw (b, a), refl, refl)
notify-knows sub ChangeType.modified s false true b a =
    (some MatchType.appeared, rw (b, a), refl, refl)
notify-knows sub ChangeType.modified s false false b a = (none, rw (b, a), refl, refl)
notify-knows sub ChangeType.removed s true false b a =
    (some MatchType.disappeared, rw b, refl, refl)
notify-knows sub ChangeType.removed s false false b a = (none, rw b, refl, refl)
notify-knows sub ChangeType.removed s before true b a = absurd (ground arith)

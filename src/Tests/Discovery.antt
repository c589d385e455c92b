-- ===== src/Tests/Discovery.antt =====
-- Concrete states, queues and filters for paf/sd.py and paf/filter.py, and what the theorems say of them.
use paf.Prelude.{
  ℕ, if◌then◌else◌, text_beq, nat_eq, text_eq, ◌+◌, arith, ◌≡◌, refl, true, false, Option, none,
  some, [], ◌∷◌, Text,
}
use paf.Prelude.Dict.{lookup, sum_by, insert, erase, IsUnique, is_some}
use paf.Prelude.Action.{ok}
use paf.Prelude.Int.{pos, ltb_ℤ}
use paf.Filter.Syntax.{
  str, int, Props, Filter, equal, greater_than, and_filter, operand, no_operands,
}
use paf.Sd.Service
use paf.Sd.Service.{Generation, consistent}
use paf.Sd.Subscription.{Subscription, MatchType, notify, matches_generation, subscription_matches}
use paf.Sd.Resources.{
  shortfall, check_total, assure_consumer, consumer_allocate, deallocate, consumer_deallocate,
  drop_idle, has_allocations, ResourceType, ResourceManager, Limits, at, total, allocate, transfer,
}
use paf.Sd.Subscription.View.{knows, notify-knows}
use paf.Filter.Match.{matches, match_values, value_str, is_greater}
use paf.Filter.Print.{print}
use paf.Filter.Parse.{parse}
use paf.Filter.Fuel.{Leaves, parse-Leaves}
use paf.Sd.Resources.Ledger
use paf.Sd.Resources.Ledger.{used, IsBelow}
use paf.Sd.Resources.Allocate.{Allocates, allocate-Allocates}
use paf.Sd.Resources.Release.{Deallocates, deallocate-Deallocates}
use paf.Sd.Resources.Transfer.{Transfers, transfer-Transfers}
use paf.Sd.Timeouts
use paf.Sd.Timeouts.{Timeouts, add, timed_out}
use paf.Sd.Timeouts.Order.{IsSorted, Finds, mem, is_due, add-IsSorted, add-Finds, mem-timed_out}
use paf.Sd.Discovery.{
  Discovery, publish_new, commit_service, service_commit, notify_all, maintain_orphans,
  orphan_services, orphan_service, update_service, subscriptions_of, drop_subscriptions,
  drop_subscription, client_connect, client_disconnect, create_subscription, remove_subscription,
  publish, unpublish, purge_orphans,
}
use paf.Sd.Discovery.Invariant.{IsValid, nothing, count}
use paf.Sd.Discovery.Ensures.{Ensures}
use paf.Sd.Discovery.Orphans.{timeout_of}
use paf.Sd.Discovery.Commit.{resting, Commits, service_commit-Commits}
use paf.Sd.Discovery.Dropping.{Left}
use paf.Sd.Discovery.Publishing.{IsPublished, publish-Publishes}
use paf.Sd.Discovery.Subscribing.{
  Subscribes, create_subscription-Ensures, remove_subscription-Ensures,
}
use paf.Sd.Discovery.Again.{IsStopped, orphan_service-IsStopped}
use paf.Sd.Discovery.Disconnect
use paf.Sd.Discovery.Disconnect.{Gone, client_disconnect-Ensures}
use paf.Sd.Discovery.Removal.{Removed, unpublish-Removes}
use paf.Sd.Discovery.Purge.{purge_orphans-AllRemoved}
use paf.Sd.Discovery.Clients.{client_connect-Ensures, Connects, client_connect-Connects}

abbrev alice : Text
alice = b'a' ∷ []

abbrev bob : Text
bob = b'b' ∷ []

-- At most two clients for a user, and three clients and one service in all.
abbrev limits : Limits
limits = record { clients = some 2; subscriptions = none; services = none }

abbrev total_limits : Limits
total_limits = record { clients = some 3; subscriptions = none; services = some 1 }

abbrev manager : ResourceManager
manager = record { max_user_resources = limits; max_total_resources = total_limits; consumers = [] }

abbrev pub empty : Discovery
empty = record {
  manager = manager;
  services = [];
  subscriptions = [];
  clients = [];
  orphans = [];
  calls = [];
}

manager-IsValid : Ledger.IsValid manager
unfolding total sum_by lookup
manager-IsValid = record {
  unique = tt;
  within = λ u c e. ground arith;
  total_below = below;
  level = λ t. unfold shortfall in refl;
}
  where
    below : (t : ResourceType) → IsBelow (at t total_limits) (total t manager)
    below ResourceType.client = omega arith
    below ResourceType.subscription = tt
    below ResourceType.service = omega arith

pub empty-IsValid : IsValid empty
unfolding used sum_by lookup
empty-IsValid = record {
  timed = record {
    unique = tt;
    at_rest = λ id s e. ground arith;
    sorted = tt;
    once = tt;
    timed = λ id. refl;
  };
  balanced = record { valid = manager-IsValid; balance = balance };
  linked = record {
    clients = tt;
    subscriptions = tt;
    under_id = λ id s e. ground arith;
    owner = λ id s e. ground arith;
  };
}
  where
    balance :
        (u : Text) (t : ResourceType)
        → used u t manager + nothing u t ≡ count u t empty + nothing u t
    balance u ResourceType.client = refl
    balance u ResourceType.subscription = refl
    balance u ResourceType.service = refl

-- A client of alice's connects, publishes a service and subscribes to all services. It then disconnects,
-- and the service is purged 40 s later, since its time to live is 30 s.
unfoldable connected : Discovery
unfolding client_connect lookup insert erase sum_by text_beq allocate check_total total
    assure_consumer consumer_allocate
connected = (client_connect 7 alice empty).1

connected-IsValid : IsValid connected
unfolding client_connect lookup insert erase sum_by text_beq allocate check_total total
    assure_consumer consumer_allocate connected
connected-IsValid = (client_connect-Ensures 7 alice empty empty-IsValid).0

unfoldable published : Discovery
unfolding publish connected lookup insert erase sum_by text_beq allocate check_total total
    assure_consumer consumer_allocate publish_new Service.add commit_service Service.commit
    consistent service_commit notify_all maintain_orphans
published = (publish 3 1 [] 30 7 connected).1

published-IsValid : IsValid published
unfolding client_connect publish connected published lookup insert erase sum_by text_beq allocate
    check_total total assure_consumer consumer_allocate publish_new Service.add commit_service
    Service.commit consistent service_commit notify_all maintain_orphans
published-IsValid = IsPublished.valid (publish-Publishes 3 1 [] 30 7 connected connected-IsValid)

unfoldable watched : Discovery
unfolding create_subscription published
watched = (create_subscription 5 none 7 published).1

watched-IsValid : IsValid watched
unfolding client_connect publish connected published lookup insert erase sum_by text_beq allocate
    check_total total assure_consumer consumer_allocate publish_new Service.add commit_service
    Service.commit consistent service_commit notify_all maintain_orphans create_subscription watched
watched-IsValid = (create_subscription-Ensures 5 none 7 published published-IsValid).0

unfoldable orphaned : Discovery
unfolding client_disconnect watched
orphaned = (client_disconnect 1_000_000 7 watched).1

orphaned-IsValid : IsValid orphaned
unfolding client_connect publish connected published lookup insert erase sum_by text_beq allocate
    check_total total assure_consumer consumer_allocate publish_new Service.add commit_service
    Service.commit consistent service_commit notify_all maintain_orphans create_subscription watched
    orphaned client_disconnect deallocate consumer_deallocate drop_idle has_allocations
    orphan_services orphan_service update_service Service.modify notify matches_generation
    subscription_matches subscriptions_of drop_subscriptions drop_subscription Timeouts.add
    Timeouts.add_behind
orphaned-IsValid = (client_disconnect-Ensures 1_000_000 7 watched watched-IsValid).0

-- A filter on a text and a number, and properties that have both.
abbrev props : Props
props = (alice, str bob ∷ int (pos 5) ∷ []) ∷ []

abbrev both : Filter
both = and_filter (operand (equal alice bob) (operand (greater_than alice (pos 3)) no_operands))

abbrev of_props : Generation
of_props = record {
  generation = 1;
  props = props;
  ttl = 30;
  orphan_since = none;
  client_id = 7;
  user_id = alice;
}

abbrev watcher : Subscription
watcher = record { sub_id = 5; filter = some both; client_id = 7; user_id = alice }

-- A service that has gained its properties.
abbrev gained : Service.Service
gained = record {
  service_id = 3;
  prev = some (record of_props { props = [] });
  cur = some of_props;
  next = none;
  change = none;
}

-- What the theorems say of these states.
client_disconnect-Ensures_example :
    Ensures IsValid (λ _ st'. Gone 7 watched.clients st') (client_disconnect 1_000_000 7 watched)
client_disconnect-Ensures_example = client_disconnect-Ensures 1_000_000 7 watched watched-IsValid

publish-Publishes_example :
    Ensures IsValid (λ _ st'. IsPublished 3 1 [] 30 7 connected st') (publish 3 1 [] 30 7 connected)
publish-Publishes_example = publish-Publishes 3 1 [] 30 7 connected connected-IsValid

purge_orphans-AllRemoved_example :
    Ensures IsValid
      (λ ids st'.
        IsValid st'
        × ((j : ℕ) → mem j ids ≡ is_due 41_000_000 (timeout_of (lookup j orphaned.services)))
        × ((j : ℕ)
            → lookup j st'.services ≡ (
                if is_due 41_000_000 (timeout_of (lookup j orphaned.services))
                then none
                else lookup j orphaned.services)))
      (purge_orphans 41_000_000 orphaned)
purge_orphans-AllRemoved_example = purge_orphans-AllRemoved 41_000_000 orphaned orphaned-IsValid

unpublish-Removes_example : Ensures IsValid (λ _ st'. Removed 3 watched st') (unpublish 3 7 watched)
unpublish-Removes_example = unpublish-Removes 3 watched watched-IsValid 7

create_subscription-Ensures_example :
    Ensures IsValid
      (Subscribes 5 none 7 published published-IsValid)
      (create_subscription 5 none 7 published)
create_subscription-Ensures_example =
    create_subscription-Ensures 5 none 7 published published-IsValid

remove_subscription-Ensures_example :
    Ensures IsValid
      (λ _ st'. Left nothing watched (erase 5 watched.subscriptions) st')
      (remove_subscription 5 7 watched)
unfolding client_connect publish create_subscription connected published watched lookup insert
    text_beq allocate check_total total assure_consumer consumer_allocate sum_by publish_new
    Service.add commit_service Service.commit consistent service_commit notify_all maintain_orphans
remove_subscription-Ensures_example =
    remove_subscription-Ensures 5 7 alice watched watched-IsValid refl

client_connect-Connects_example : Connects 7 alice empty (client_connect 7 alice empty)
client_connect-Connects_example = client_connect-Connects 7 alice empty empty-IsValid

service_commit-Commits_example :
    Commits Service.ChangeType.modified gained empty
      (service_commit Service.ChangeType.modified gained empty)
service_commit-Commits_example = service_commit-Commits Service.ChangeType.modified gained empty

transfer-Transfers_example :
    Transfers alice bob ResourceType.service published.manager
      (transfer alice bob ResourceType.service published.manager)
transfer-Transfers_example =
    transfer-Transfers alice bob ResourceType.service published.manager
      published-IsValid.balanced.valid

allocate-Allocates_example :
    Allocates bob ResourceType.client published.manager
      (allocate bob ResourceType.client published.manager)
allocate-Allocates_example =
    allocate-Allocates bob ResourceType.client published.manager published-IsValid.balanced.valid

deallocate-Deallocates_example :
    Deallocates alice ResourceType.service published.manager
      (deallocate alice ResourceType.service published.manager)
deallocate-Deallocates_example =
    deallocate-Deallocates alice ResourceType.service published.manager
      published-IsValid.balanced.valid

abbrev queue : Timeouts
queue = (3, 40) ∷ (1, 50) ∷ (4, 60) ∷ []

queue-IsSorted : IsSorted queue
queue-IsSorted = ((omega arith, (omega arith, tt)), ((omega arith, tt), (tt, tt)))

queue-IsUnique : IsUnique queue
unfolding lookup
queue-IsUnique = (refl, (refl, (refl, tt)))

mem-timed_out_example : mem 1 (timed_out 55 queue) ≡ is_due 55 (lookup 1 queue)
mem-timed_out_example = mem-timed_out 55 1 queue queue-IsSorted queue-IsUnique

add-IsSorted_example : IsSorted (add 7 50 queue)
add-IsSorted_example = add-IsSorted 7 50 queue queue-IsSorted

add-Finds_example : Finds 7 50 queue (some (add 7 50 queue))
unfolding lookup
add-Finds_example = add-Finds 7 50 queue queue-IsUnique refl

notify-knows_example :
    (t : Option MatchType) × (notify watcher Service.ChangeType.modified gained ≡ ok t)
    × (knows false t ≡ some true)
    × (is_some t ≡ true)
unfolding matches_generation subscription_matches matches match_values lookup text_beq value_str
    is_greater ltb_ℤ
notify-knows_example = notify-knows watcher Service.ChangeType.modified gained false true refl refl

parse-Leaves_example : Leaves 0 (parse (print both))
parse-Leaves_example = parse-Leaves (print both)

abbrev left_behind : Discovery
left_behind = record empty { services = (3, resting 3 none (Disconnect.orphaned 5 of_props)) ∷ [] }

orphan_service-IsStopped_example : IsStopped (orphan_service 1_000_000 7 3 left_behind)
unfolding lookup
orphan_service-IsStopped_example =
    orphan_service-IsStopped 1_000_000 7 3 5 none of_props left_behind refl refl

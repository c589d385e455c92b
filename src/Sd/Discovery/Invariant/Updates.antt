-- ===== src/Sd/Discovery/Invariant/Updates.antt =====
-- How each update of the state moves the invariant.
use paf.Prelude.{
  ℕ, ◌+◌, ◌<◌, ◌≡◌, refl, none, some, Text, text_beq, text_beq_iff, text_eq, nat_eq, bit, arith,
}
use paf.Prelude.Dict.{lookup, insert, erase, sum_by-insert, sum_by-insert_new, sum_by-erase}
use paf.Prelude.Action.{Result, ok, raised, resource_error}
use paf.Sd.Resources.{ResourceType, ResourceManager, allocate, deallocate}
use paf.Sd.Resources.Ledger.{used, same}
use paf.Sd.Resources.Allocate.{Allocates, allocate-Allocates}
use paf.Sd.Resources.Release.{raised-used, Deallocates, deallocate-Deallocates}
use paf.Sd.Service.{Generation, Service}
use paf.Sd.Subscription.{Subscription}
use paf.Sd.Discovery.{Discovery, on_manager}
use paf.Sd.Discovery.Ensures.{Ensures}
use paf.Sd.Discovery.Invariant.{IsBalanced, IsValid, Offset, nothing, count, owned}

-- Only the manager has changed, and its counts are off by `debit` and `credit`.
abbrev pub OnlyManager : Offset → Offset → Discovery → Discovery → Type 0
OnlyManager debit credit st st' =
    (rm : ResourceManager) × (st' ≡ record st { manager = rm })
    × IsBalanced debit credit (record st { manager = rm })

abbrev with_manager :
    Discovery → Result (Unit {0}) × ResourceManager → Result (Unit {0}) × Discovery
with_manager st (r, rm) = (r, record st { manager = rm })

count-manager :
    (st : Discovery) (rm : ResourceManager) (u : Text) (t : ResourceType)
    → count u t (record st { manager = rm }) ≡ count u t st
count-manager st rm u ResourceType.client = refl
count-manager st rm u _ = refl

-- `allocate` puts the manager's count ahead by one, or raises `ResourceError` in a valid state.
pub allocate-Ensures :
    (u : Text) (t : ResourceType) (st : Discovery)
    → IsValid st
    → Ensures IsValid
        (λ _ st'. OnlyManager nothing (same u t) st st')
        (on_manager (allocate u t) st)
allocate-Ensures u t st valid =
    go (allocate u t st.manager) (allocate-Allocates u t st.manager valid.balanced.valid)
  where
    go :
        (x : Result (Unit {0}) × ResourceManager)
        → Allocates u t st.manager x
        → Ensures IsValid (λ _ st'. OnlyManager nothing (same u t) st st') (with_manager st x)
    go (ok _, rm) (v, keep, room, counts, totals) = (
      rm,
      refl,
      record {
        valid = v;
        balance =
            λ w s. omega (arith, count-manager st rm w s, counts w s, valid.balanced.balance w s);
      },
    )
    go (raised resource_error, rm) (v, full, (keep, counts, totals)) = record {
      timed = valid.timed;
      balanced = record {
        valid = v;
        balance =
            λ w s. omega (arith, count-manager st rm w s, counts w s, valid.balanced.balance w s);
      };
      linked = record {
        clients = valid.linked.clients;
        subscriptions = valid.linked.subscriptions;
        under_id = valid.linked.under_id;
        owner = valid.linked.owner;
      };
    }
    go (raised _, rm) h = absurd h

-- `deallocate` of what a user holds raises nothing, and shifts the offset of the counts.
pub deallocate-Ensures :
    (E : Discovery → Type 0) (u : Text) (t : ResourceType) (d c d' c' : Offset) (st : Discovery)
    → IsBalanced d c st
    → 0 < used u t st.manager
    → ((v : Text) (s : ResourceType) → d' v s + c v s ≡ d v s + c' v s + same u t v s)
    → Ensures E (λ _ st'. OnlyManager d' c' st st') (on_manager (deallocate u t) st)
deallocate-Ensures E u t d c d' c' st b pos shift =
    go (deallocate u t st.manager) (deallocate-Deallocates u t st.manager b.valid)
  where
    go :
        (x : Result (Unit {0}) × ResourceManager)
        → Deallocates u t st.manager x
        → Ensures E (λ _ st'. OnlyManager d' c' st st') (with_manager st x)
    go (ok _, rm) (v, keep, held, counts, totals) = (
      rm,
      refl,
      record {
        valid = v;
        balance =
            λ w s. omega (arith, count-manager st rm w s, counts w s, b.balance w s, shift w s);
      },
    )
    go (raised e, rm) h = absurd (omega (arith, raised-used u t st.manager rm e h))

module _ (d : Offset) (st : Discovery) where
  -- A client that enters the dict is what was allocated for it.
  pub insert_client-IsBalanced :
      (client : ℕ) (u : Text)
      → lookup client st.clients ≡ none
      → IsBalanced d (same u ResourceType.client) st
      → IsBalanced d nothing (record st { clients = insert client u st.clients })
  insert_client-IsBalanced client u h b = record {
    valid = b.valid;
    balance = λ w s. ground (
      arith,
      b.balance w s,
      text_beq_iff w u,
      text_beq_iff u w,
      sum_by-insert_new (λ (v : Text). bit (text_beq w v)) client u st.clients,
    );
  }

  pub insert_subscription-IsBalanced :
      (id : ℕ) (sub : Subscription)
      → lookup id st.subscriptions ≡ none
      → IsBalanced d (same sub.user_id ResourceType.subscription) st
      → IsBalanced d nothing (record st { subscriptions = insert id sub st.subscriptions })
  insert_subscription-IsBalanced id sub h b = record {
    valid = b.valid;
    balance = λ w s. ground (
      arith,
      b.balance w s,
      text_beq_iff w sub.user_id,
      text_beq_iff sub.user_id w,
      sum_by-insert_new (λ (x : Subscription). bit (text_beq w x.user_id)) id sub st.subscriptions,
    );
  }

  -- A subscription that leaves the dict is still counted.
  pub erase_subscription-IsBalanced :
      (id : ℕ) (sub : Subscription)
      → lookup id st.subscriptions ≡ some sub
      → IsBalanced d nothing st
      → IsBalanced d
          (same sub.user_id ResourceType.subscription)
          (record st { subscriptions = erase id st.subscriptions })
  erase_subscription-IsBalanced id sub h b = record {
    valid = b.valid;
    balance = λ w s. ground (
      arith,
      b.balance w s,
      text_beq_iff w sub.user_id,
      text_beq_iff sub.user_id w,
      sum_by-erase (λ (x : Subscription). bit (text_beq w x.user_id)) id sub st.subscriptions,
    );
  }

  pub erase_client-IsBalanced :
      (client : ℕ) (u : Text)
      → lookup client st.clients ≡ some u
      → IsBalanced (same u ResourceType.client) nothing st
      → IsBalanced nothing nothing (record st { clients = erase client st.clients })
  erase_client-IsBalanced client u h b = record {
    valid = b.valid;
    balance = λ w s. ground (
      arith,
      b.balance w s,
      text_beq_iff w u,
      text_beq_iff u w,
      sum_by-erase (λ (v : Text). bit (text_beq w v)) client u st.clients,
    );
  }

  -- A service that enters, that is changed, and that leaves; its user stays the same.
  pub insert_service-IsBalanced :
      (id : ℕ) (s : Service) (g : Generation)
      → s.cur ≡ some g
      → lookup id st.services ≡ none
      → IsBalanced d (same g.user_id ResourceType.service) st
      → IsBalanced d nothing (record st { services = insert id s st.services })
  insert_service-IsBalanced id s g e h b = record {
    valid = b.valid;
    balance = λ w t. ground (
      arith,
      b.balance w t,
      text_beq_iff w g.user_id,
      text_beq_iff g.user_id w,
      sum_by-insert_new (owned w) id s st.services,
    );
  }

  pub update_service-IsBalanced :
      (id : ℕ) (s s' : Service)
      → ((w : Text) → owned w s' ≡ owned w s)
      → lookup id st.services ≡ some s
      → (c : Offset) → IsBalanced d c st
      → IsBalanced d c (record st { services = insert id s' st.services })
  update_service-IsBalanced id s s' e h c b = record {
    valid = b.valid;
    balance =
        λ w t. ground (arith, b.balance w t, e w, sum_by-insert (owned w) id s' s st.services h);
  }

  pub erase_service-IsBalanced :
      (id : ℕ) (s : Service) (g : Generation)
      → s.cur ≡ some g
      → lookup id st.services ≡ some s
      → IsBalanced d nothing st
      → IsBalanced d
          (same g.user_id ResourceType.service)
          (record st { services = erase id st.services })
  erase_service-IsBalanced id s g e h b = record {
    valid = b.valid;
    balance = λ w t. ground (
      arith,
      b.balance w t,
      text_beq_iff w g.user_id,
      text_beq_iff g.user_id w,
      sum_by-erase (owned w) id s st.services h,
    );
  }

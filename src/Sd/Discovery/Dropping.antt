-- ===== src/Sd/Discovery/Dropping.antt =====
-- paf/sd.py, `_remove_subscription`, and the loop over a client's subscriptions.
use paf.Prelude.{
  ℕ, ◌≡◌, refl, subst, sym, ap, ◌∙◌, Bool, false, Option, none, some, List, [], ◌∷◌, Text,
  text_beq_iff, nat_eq, nat_beq, nat_beq_iff, ◌||◌, arith, inl, inr, Bool-cases, if◌then◌else◌,
}
use paf.Prelude.Dict.{
  Dict, lookup, erase, IsUnique, IsUnique-erase, lookup-erase_ne, lookup-erase_self,
}
use paf.Sd.Resources.{ResourceType, ResourceManager, deallocate}
use paf.Sd.Resources.Ledger.{same}
use paf.Sd.Subscription.{Subscription}
use paf.Sd.Discovery.{
  Discovery, on_manager, drop_subscription, drop_subscriptions, subscriptions_of,
}
use paf.Sd.Discovery.Ensures.{Ensures, mono-Ensures, >>=-Ensures}
use paf.Sd.Discovery.Invariant.{IsAhead, IsBalanced, IsLinked, Offset, nothing}
use paf.Sd.Discovery.Invariant.Updates.{
  OnlyManager, deallocate-Ensures, erase_subscription-IsBalanced,
}

-- The ids of a list of subscriptions.
abbrev pub listed : ℕ → List Subscription → Bool
listed id [] = false
listed id (sub ∷ subs) = nat_beq sub.sub_id id || listed id subs

abbrev pub owned_by : ℕ → Option Subscription → Bool
owned_by client none = false
owned_by client (some sub) = nat_beq (Subscription.client_id sub) client

abbrev Keyed : Dict ℕ Subscription → Type 0
Keyed [] = Unit
Keyed ((id, sub) ∷ subs) = (sub.sub_id ≡ id) × Keyed subs

-- Each stands in the dict under its id, and no id comes twice.
abbrev pub AllIn : Dict ℕ Subscription → List Subscription → Type 0
AllIn dict [] = Unit
AllIn dict (sub ∷ subs) =
    (lookup sub.sub_id dict ≡ some sub) × (listed sub.sub_id subs ≡ false) × AllIn dict subs

Keyed-of :
    (subs : Dict ℕ Subscription)
    → IsUnique subs
    → ((id : ℕ) (sub : Subscription) → lookup id subs ≡ some sub → sub.sub_id ≡ id)
    → Keyed subs
unfolding lookup
Keyed-of [] u h = tt
Keyed-of ((id, sub) ∷ subs) u h = (
  h id sub (ground (arith, nat_beq_iff id id)),
  Keyed-of subs u.1 (λ j x e. h j x (ground (arith, nat_beq_iff id j, u.0))),
)

-- The list holds a client's subscriptions, all of them, and nothing else.
pub listed-subscriptions_of :
    (client id : ℕ) (subs : Dict ℕ Subscription)
    → IsUnique subs
    → Keyed subs
    → listed id (subscriptions_of client subs) ≡ owned_by client (lookup id subs)
unfolding subscriptions_of lookup
listed-subscriptions_of client id [] u k = refl
listed-subscriptions_of client id ((j, sub) ∷ subs) u k = ground (
  arith,
  nat_beq_iff j id,
  nat_beq_iff sub.sub_id id,
  listed-subscriptions_of client id subs u.1 k.1,
)

AllIn-cons :
    (j : ℕ) (x : Subscription) (dict : Dict ℕ Subscription) (subs : List Subscription)
    → listed j subs ≡ false
    → AllIn dict subs
    → AllIn ((j, x) ∷ dict) subs
unfolding lookup
AllIn-cons j x dict [] h a = tt
AllIn-cons j x dict (sub ∷ subs) h a = (
  ground (arith, nat_beq_iff j sub.sub_id, nat_beq_iff sub.sub_id j),
  a.1,
  AllIn-cons j x dict subs (ground arith) a.2,
)

AllIn-erase :
    (id : ℕ) (dict : Dict ℕ Subscription) (subs : List Subscription)
    → listed id subs ≡ false
    → AllIn dict subs
    → AllIn (erase id dict) subs
AllIn-erase id dict [] h a = tt
AllIn-erase id dict (sub ∷ subs) h a = (
  ground (arith, nat_beq_iff sub.sub_id id, lookup-erase_ne id sub.sub_id dict),
  a.1,
  AllIn-erase id dict subs (ground arith) a.2,
)

subscriptions_of-AllIn :
    (client : ℕ) (subs : Dict ℕ Subscription)
    → IsUnique subs
    → Keyed subs
    → AllIn subs (subscriptions_of client subs)
unfolding subscriptions_of
subscriptions_of-AllIn client [] u k = tt
subscriptions_of-AllIn client ((j, sub) ∷ subs) u k =
    let fresh : listed j (subscriptions_of client subs) ≡ false =
      listed-subscriptions_of client j subs u.1 k.1 ∙ ap (owned_by client) u.0 in
    let rest : AllIn ((j, sub) ∷ subs) (subscriptions_of client subs) =
      AllIn-cons j sub subs (subscriptions_of client subs) fresh
        (subscriptions_of-AllIn client subs u.1 k.1) in
    elim (Bool-cases (nat_beq sub.client_id client)) [
      | inl mine ↦ rw mine (
        unfold lookup in ground (arith, nat_beq_iff j sub.sub_id),
        ap (λ x. listed x (subscriptions_of client subs)) k.0 ∙ fresh,
        rest,
      )
      | inr other ↦ rw other rest
    ]

pub subscriptions_of-linked :
    (client : ℕ) (st : Discovery)
    → IsLinked st
    → AllIn st.subscriptions (subscriptions_of client st.subscriptions)
      × ((id : ℕ)
          → listed id (subscriptions_of client st.subscriptions)
            ≡ owned_by client (lookup id st.subscriptions))
subscriptions_of-linked client st h =
    let keyed : Keyed st.subscriptions = Keyed-of st.subscriptions h.subscriptions h.under_id in
    (
      subscriptions_of-AllIn client st.subscriptions h.subscriptions keyed,
      λ id. listed-subscriptions_of client id st.subscriptions h.subscriptions keyed,
    )

-- Linked subscriptions stay linked when one leaves.
erase-IsLinked :
    (id : ℕ) (st : Discovery) (rm : ResourceManager)
    → IsLinked st
    → IsLinked (record st { subscriptions = erase id st.subscriptions; manager = rm })
erase-IsLinked id st rm h = record {
  clients = h.clients;
  subscriptions = IsUnique-erase id st.subscriptions h.subscriptions;
  under_id = λ j sub e. h.under_id j sub (kept j sub e);
  owner = λ j sub e. h.owner j sub (kept j sub e);
}
  where
    kept :
        (j : ℕ) (sub : Subscription)
        → lookup j (erase id st.subscriptions) ≡ some sub
        → lookup j st.subscriptions ≡ some sub
    kept j sub e = ground (
      arith,
      nat_beq_iff id j,
      lookup-erase_ne id j st.subscriptions,
      lookup-erase_self id st.subscriptions h.subscriptions,
    )

-- The invariant up to `d`, with the same clients, and these subscriptions.
abbrev pub Left : Offset → Discovery → Dict ℕ Subscription → Discovery → Type 0
Left d st subs st' = IsAhead d nothing st' × (st'.clients ≡ st.clients) × (st'.subscriptions ≡ subs)

module _ (E : Discovery → Type 0) (d : Offset)
    (none_owed : (u : Text) → d u ResourceType.subscription ≡ 0) where
  drop_subscription_eq :
      (sub : Subscription) (st : Discovery)
      → lookup sub.sub_id st.subscriptions ≡ some sub
      → drop_subscription sub st
        ≡ on_manager
            (deallocate sub.user_id ResourceType.subscription)
            (record st { subscriptions = erase sub.sub_id st.subscriptions })
  unfolding drop_subscription
  drop_subscription_eq sub st e = ground arith

  pub drop_subscription-Left :
      (sub : Subscription) (st : Discovery)
      → IsAhead d nothing st
      → lookup sub.sub_id st.subscriptions ≡ some sub
      → Ensures E
          (λ _ st'. Left d st (erase sub.sub_id st.subscriptions) st')
          (drop_subscription sub st)
  drop_subscription-Left sub st h e =
      let st₁ : Discovery = record st { subscriptions = erase sub.sub_id st.subscriptions } in
      let u : Text = sub.user_id in
      let b : IsBalanced d (same u ResourceType.subscription) st₁ =
        erase_subscription-IsBalanced d st sub.sub_id sub e h.balanced in
      subst (Ensures E (λ _ st'. Left d st (erase sub.sub_id st.subscriptions) st'))
        (sym (drop_subscription_eq sub st e))
        (mono-Ensures E (λ _ y. OnlyManager d nothing st₁ y)
          (λ _ y. Left d st (erase sub.sub_id st.subscriptions) y)
          (λ _ y (rm, eq, b'). subst (Left d st (erase sub.sub_id st.subscriptions)) (sym eq) (
            record {
              timed = h.timed;
              balanced = b';
              linked = erase-IsLinked sub.sub_id st rm h.linked;
            },
            refl,
            refl,
          ))
          (on_manager (deallocate u ResourceType.subscription) st₁)
          (deallocate-Ensures E u ResourceType.subscription d (same u ResourceType.subscription) d
            nothing st₁ b
            (ground (arith, b.balance u ResourceType.subscription, none_owed u, text_beq_iff u u))
            (λ v s. omega arith)))

  -- Dropping a list of subscriptions leaves the others as they are.
  pub drop_subscriptions-Left :
      (subs : List Subscription) (st : Discovery)
      → IsAhead d nothing st
      → AllIn st.subscriptions subs
      → Ensures E
          (λ _ st'.
            IsAhead d nothing st'
            × (st'.clients ≡ st.clients)
            × ((id : ℕ)
                → lookup id st'.subscriptions
                  ≡ (if listed id subs then none else lookup id st.subscriptions)))
          (drop_subscriptions subs st)
  unfolding drop_subscriptions
  drop_subscriptions-Left [] st h a = (h, refl, λ id. refl)
  drop_subscriptions-Left (sub ∷ subs) st h a =
      >>=-Ensures E (λ _ st'. Left d st (erase sub.sub_id st.subscriptions) st') _
        (drop_subscription sub) (λ _. drop_subscriptions subs) st
        (drop_subscription-Left sub st h a.0)
        (λ _ st' (v, c, s).
          mono-Ensures E
            (λ _ y.
              IsAhead d nothing y
              × (y.clients ≡ st'.clients)
              × ((id : ℕ)
                  → lookup id y.subscriptions
                    ≡ (if listed id subs then none else lookup id st'.subscriptions)))
            (λ _ y.
              IsAhead d nothing y
              × (y.clients ≡ st.clients)
              × ((id : ℕ)
                  → lookup id y.subscriptions
                    ≡ (if listed id (sub ∷ subs) then none else lookup id st.subscriptions)))
            (λ _ y (v', c', looks). (v', c' ∙ c, λ id. looks id ∙ left id st' s))
            (drop_subscriptions subs st')
            (drop_subscriptions-Left subs st' v (
              subst (λ x. AllIn x subs) (sym s)
                (AllIn-erase sub.sub_id st.subscriptions subs a.1 a.2))))
    where
      left :
          (id : ℕ) (x : Discovery)
          → x.subscriptions ≡ erase sub.sub_id st.subscriptions
          → (if listed id subs then none else lookup id x.subscriptions)
            ≡ (if listed id (sub ∷ subs) then none else lookup id st.subscriptions)
      left id x e = ground (
        arith,
        nat_beq_iff sub.sub_id id,
        lookup-erase_self sub.sub_id st.subscriptions h.linked.subscriptions,
        lookup-erase_ne sub.sub_id id st.subscriptions,
      )

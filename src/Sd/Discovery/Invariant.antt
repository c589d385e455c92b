-- ===== src/Sd/Discovery/Invariant.antt =====
-- paf/sd.py, `ServiceDiscovery`: the invariant of the whole state.
pub mod Updates
pub mod Commits
use paf.Prelude.{
  ℕ, ◌+◌, ◌≡◌, Bool, ◌&&◌, Option, none, some, List, [], ◌∷◌, Text, text_beq, nat_eq, bit,
}
use paf.Prelude.Dict.{Dict, lookup, IsUnique, sum_by}
use paf.Sd.Resources.{ResourceType, ResourceManager}
use paf.Sd.Resources.Ledger
use paf.Sd.Resources.Ledger.{used, same}
use paf.Sd.Service.{Generation, Service}
use paf.Sd.Subscription.{Subscription}
use paf.Sd.Discovery.{Discovery}
use paf.Sd.Discovery.Orphans.{IsTimed}

abbrev pub owned : Text → Service → ℕ
owned u s = elim (Service.cur s) [ none ↦ 0 | some g ↦ bit (text_beq u (Generation.user_id g)) ]

-- How many clients, subscriptions or services of a user there are.
abbrev pub count : Text → ResourceType → Discovery → ℕ
count u ResourceType.client st = sum_by (λ (v : Text). bit (text_beq u v)) st.clients
count u ResourceType.subscription st =
    sum_by (λ (sub : Subscription). bit (text_beq u sub.user_id)) st.subscriptions
count u ResourceType.service st = sum_by (owned u) st.services

abbrev pub Offset : Type 0
Offset = Text → ResourceType → ℕ

abbrev pub nothing : Offset
nothing u t = 0

-- The resource manager counts what there is. Within a method its count may be ahead by `credit` or
-- behind by `debit`.
pub record IsBalanced (debit credit : Offset) (st : Discovery) : Type 0 where
  pub valid : Ledger.IsValid st.manager
  pub balance :
      (u : Text) (t : ResourceType) → used u t st.manager + debit u t ≡ count u t st + credit u t

-- A subscription stands under its id and belongs to a connected client and to that client's user.
pub record IsLinked (st : Discovery) : Type 0 where
  pub clients : IsUnique st.clients
  pub subscriptions : IsUnique st.subscriptions
  pub under_id :
      (id : ℕ) (sub : Subscription) → lookup id st.subscriptions ≡ some sub → sub.sub_id ≡ id
  pub owner :
      (id : ℕ) (sub : Subscription)
      → lookup id st.subscriptions ≡ some sub
      → lookup sub.client_id st.clients ≡ some sub.user_id

-- The invariant with an offset of the counts, and the invariant between the methods.
pub record IsAhead (debit credit : Offset) (st : Discovery) : Type 0 where
  pub timed : IsTimed st.services st.orphans
  pub balanced : IsBalanced debit credit st
  pub linked : IsLinked st

abbrev pub IsValid : Discovery → Type 0
IsValid = IsAhead nothing nothing

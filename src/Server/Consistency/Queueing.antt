-- ===== src/Server/Consistency/Queueing.antt =====
-- paf/server.py: `respond` and the callbacks keep the badges of the connections.
use paf.Prelude.{ℕ, refl, Option, none, some, List, [], ◌∷◌, nat_eq, arith}
use paf.Prelude.Dict.{lookup}
use paf.Prelude.Action.{Result, ok, raised, Error, ◌>>=◌, ◌>>◌, lift, or_raise, OnlyFatal}
use paf.Proto.Fields.{Message}
use paf.Sd.Service.{Service}
use paf.Sd.Subscription.{MatchType}
use paf.Sd.Discovery
use paf.Sd.Discovery.{Discovery, Call, match_cb, service_change_cb}
use paf.Server.Transaction.{Transaction}
use paf.Server.State.{
  Server, set_connection, queued, respond, notification, subscription_triggered, check_orphans,
  deliver, deliver_all, on_sd,
}
use paf.Server.Consistency.{
  badge_of, IsFramed, refl-IsFramed, trans-IsFramed, set_connection-IsFramed,
}
use paf.Server.Consistency.Leaves.{
  Leaves, >>=-Leaves, mono-Leaves, or_raise-Leaves, fatal-Leaves, connection-Leaves,
}

notification-OnlyFatal :
    (ta : Transaction) (t : MatchType) (s : Service) → OnlyFatal (notification ta t s)
unfolding notification
notification-OnlyFatal ta t s = ground arith

module _ (E : Server → Type 0) where
  abbrev pub Frames : Server → Result (Unit {0}) × Server → Type 0
  Frames st = Leaves E (λ _ st'. IsFramed st st')

  pub respond-Frames : (c : ℕ) (o : Option Message) (st : Server) → Frames st (respond c o st)
  unfolding respond
  respond-Frames c none st = tt
  respond-Frames c (some msg) st =
      connection-Leaves E (λ _ st'. IsFramed st st') c
        (λ conn. λ st'. (ok tt, set_connection c (queued msg conn) st')) st
        (λ conn e. set_connection-IsFramed c conn (queued msg conn) st e refl)

  notified-Frames :
      (c : ℕ) (r : Result (Option Message)) (st : Server)
      → OnlyFatal r
      → Frames st ((lift r >>= respond c) st)
  notified-Frames c (raised e) st h = fatal-Leaves (Unit {0}) E (λ _ st'. IsFramed st st') e st h
  notified-Frames c (ok msg) st h = respond-Frames c msg st

  subscription_triggered-Frames :
      (c sub_id : ℕ) (t : MatchType) (s : Service) (st : Server)
      → Frames st (subscription_triggered c sub_id t s st)
  unfolding subscription_triggered
  subscription_triggered-Frames c sub_id t s st =
      connection-Leaves E (λ _ st'. IsFramed st st') c
        (λ conn. or_raise (lookup sub_id conn.sub_tas) Error.key_error >>= λ ta.
          lift (notification ta t s) >>= respond c)
        st
        (λ conn _.
          or_raise-Leaves E (λ _ st'. IsFramed st st') (lookup sub_id conn.sub_tas) Error.key_error
            (λ ta. lift (notification ta t s) >>= respond c) st tt
            (λ ta _. notified-Frames c (notification ta t s) st (notification-OnlyFatal ta t s)))

  deliver-Frames : (call : Call) (st : Server) → Frames st (deliver call st)
  unfolding deliver check_orphans badge_of
  deliver-Frames (service_change_cb change s) st = record {
    badges = λ c. refl;
    unique = λ u. u;
    next = refl;
    sd_eq = refl;
  }
  deliver-Frames (match_cb sub_id t s) st =
      or_raise-Leaves E (λ _ st'. IsFramed st st') (lookup sub_id (Server.callbacks st))
        Error.key_error (λ c. subscription_triggered c sub_id t s) st tt
        (λ c _. subscription_triggered-Frames c sub_id t s st)

  pub deliver_all-Frames : (calls : List Call) (st : Server) → Frames st (deliver_all calls st)
  unfolding deliver_all
  deliver_all-Frames [] st = refl-IsFramed st
  deliver_all-Frames (call ∷ calls) st =
      >>=-Leaves E (λ _ st'. IsFramed st st') (λ _ st'. IsFramed st st') (deliver call)
        (λ _. deliver_all calls) st (deliver-Frames call st)
        (λ _ st₁ f.
          mono-Leaves E (λ _ st₂. IsFramed st₁ st₂) (λ _ st₂. IsFramed st st₂)
            (λ _ st₂ g. trans-IsFramed st st₁ st₂ f g) (deliver_all calls st₁)
            (deliver_all-Frames calls st₁))

  -- A call of a method of `ServiceDiscovery` leaves what the method leaves, where that does not depend on
  -- what the callbacks change.
  pub on_sd-Leaves :
      {A : Type 0} (P : A → Server → Type 0) (m : Discovery.Method A) (st : Server)
      → ((st₁ st₂ : Server) → IsFramed st₁ st₂ → E st₁ → E st₂)
      → ((a : A) (st₁ st₂ : Server) → IsFramed st₁ st₂ → P a st₁ → P a st₂)
      → (let (r, sd) = m (record st.sd { calls = [] }) in
          Leaves E P (r, record st { sd = record sd { calls = [] } }))
      → Leaves E P (on_sd m st)
  unfolding on_sd
  on_sd-Leaves {A} P m st closed_E closed_P = go (m (record st.sd { calls = [] }))
    where
      raised-closed :
          (e : Error) (st₁ st₂ : Server)
          → IsFramed st₁ st₂
          → Leaves E P (raised e, st₁)
          → Leaves E P (raised e, st₂)
      raised-closed Error.key_error st₁ st₂ f h = tt
      raised-closed Error.assertion_error st₁ st₂ f h = tt
      raised-closed Error.attribute_error st₁ st₂ f h = tt
      raised-closed Error.type_error st₁ st₂ f h = tt
      raised-closed Error.index_error st₁ st₂ f h = tt
      raised-closed _ st₁ st₂ f h = closed_E st₁ st₂ f h

      closed :
          (r : Result A) (st₁ st₂ : Server)
          → IsFramed st₁ st₂
          → Leaves E P (r, st₁)
          → Leaves E P (r, st₂)
      closed (ok a) st₁ st₂ f h = closed_P a st₁ st₂ f h
      closed (raised e) st₁ st₂ f h = raised-closed e st₁ st₂ f h

      go :
          (x : Result A × Discovery)
          → Leaves E P (x.0, record st { sd = record x.1 { calls = [] } })
          → Leaves E P
              ((deliver_all x.1.calls >> lift x.0) (record st { sd = record x.1 { calls = [] } }))
      go (r, sd) h =
          let st₁ : Server = record st { sd = record sd { calls = [] } } in
          >>=-Leaves E (λ _ st₂. IsFramed st₁ st₂) P (deliver_all sd.calls) (λ _. lift r) st₁
            (deliver_all-Frames sd.calls st₁) (λ _ st₂ f. closed r st₁ st₂ f h)

-- ===== src/Server/Consistency/Rules.antt =====
-- The rules by which a step of a handler keeps the invariant.
use paf.Prelude.{ℕ, ◌+◌, ◌≡◌, refl, sym, ap, subst, ◌∙◌, Option, none, some, List, [], Text, nat_eq}
use paf.Prelude.Dict.{lookup}
use paf.Prelude.Action.{Result, ok, raised, Error, ◌>>=◌, ◌>>◌}
use paf.Proto.Fields.{Message}
use paf.Sd.Resources.{ResourceType}
use paf.Sd.Discovery
use paf.Sd.Discovery.{Discovery, Call}
use paf.Sd.Discovery.Invariant.{IsValid, count}
use paf.Sd.Discovery.Ensures.{Ensures}
use paf.Sd.Discovery.Bystanders.{HasClients}
use paf.Server.Transaction.{Transaction}
use paf.Server.State.{connection, Connection, Server, Method, set_connection, respond, on_sd}
use paf.Server.Handlers.{client_of, failing, respond_failure}
use paf.Server.Consistency.{
  badge_of, badge_of_connection, IsConsistent, IsFramed, keep-IsConsistent, framed-IsConsistent,
  set_connection-IsFramed,
}
use paf.Server.Consistency.Leaves.{
  connection-Leaves, or_raise-Leaves, Preserves, >>=-Preserves, raised-Preserves, mono-Leaves,
}
use paf.Server.Consistency.Queueing.{respond-Frames, on_sd-Leaves}

pub any-Preserves : {A : Type 0} (r : Result A) (st : Server) → IsConsistent st → Preserves (r, st)
any-Preserves (ok a) st h = h
any-Preserves {A} (raised e) st h = raised-Preserves A e st h

pub respond-Preserves :
    (c : ℕ) (o : Option Message) (st : Server) → IsConsistent st → Preserves (respond c o st)
respond-Preserves c o st h =
    mono-Leaves IsConsistent (λ _ st'. IsFramed st st') (λ _ st'. IsConsistent st')
      (λ _ st' f. framed-IsConsistent st st' h f) (respond c o st)
      (respond-Frames IsConsistent c o st)

-- A response, and then the rest of the handler.
pub respond_then-Preserves :
    {B : Type 0} (c : ℕ) (o : Option Message) (m : Method B) (st : Server)
    → IsConsistent st
    → ((st' : Server) → IsConsistent st' → Preserves (m st'))
    → Preserves ((respond c o >> m) st)
respond_then-Preserves c o m st h k =
    >>=-Preserves (respond c o) (λ _. m) st (respond-Preserves c o st h) (λ _ st' h'. k st' h')

pub set_connection-IsConsistent :
    (c : ℕ) (conn conn' : Connection) (st : Server)
    → IsConsistent st
    → lookup c st.connections ≡ some conn
    → badge_of_connection conn' ≡ badge_of_connection conn
    → IsConsistent (set_connection c conn' st)
set_connection-IsConsistent c conn conn' st h e same =
    framed-IsConsistent st (set_connection c conn' st) h
      (set_connection-IsFramed c conn conn' st e same)

-- The history of calls is no part of what is valid.
pub calls-IsValid :
    (cs : List Call) (sd : Discovery) → IsValid sd → IsValid (record sd { calls = cs })
calls-IsValid cs sd h = record {
  timed = h.timed;
  balanced = record {
    valid = h.balanced.valid;
    balance = λ u t. h.balanced.balance u t ∙ ap (λ n. n + 0) (sym (uncalled u t));
  };
  linked = record {
    clients = h.linked.clients;
    subscriptions = h.linked.subscriptions;
    under_id = h.linked.under_id;
    owner = h.linked.owner;
  };
}
  where
    uncalled : (u : Text) (t : ResourceType) → count u t (record sd { calls = cs }) ≡ count u t sd
    uncalled u ResourceType.client = refl
    uncalled u ResourceType.subscription = refl
    uncalled u ResourceType.service = refl

-- `ServiceDiscovery` as a method left it, when the callbacks are still to be made.
abbrev pub with_sd : Discovery → Server → Server
with_sd sd st = record st { sd = record sd { calls = [] } }

pub with_sd-IsConsistent :
    (sd : Discovery) (st : Server)
    → IsConsistent st
    → IsValid sd
    → sd.clients ≡ st.sd.clients
    → IsConsistent (with_sd sd st)
unfolding badge_of
with_sd-IsConsistent sd st h valid clients =
    keep-IsConsistent st (with_sd sd st) h (calls-IsValid [] sd valid) clients (λ c. refl) h.unique
      refl

pub on_sd-Preserves :
    {A : Type 0} (m : Discovery.Method A) (st : Server)
    → (let (r, sd) = m (record st.sd { calls = [] }) in Preserves (r, with_sd sd st))
    → Preserves (on_sd m st)
on_sd-Preserves m st h =
    on_sd-Leaves IsConsistent (λ _ st'. IsConsistent st') m st
      (λ st₁ st₂ f h₁. framed-IsConsistent st₁ st₂ h₁ f)
      (λ a st₁ st₂ f h₁. framed-IsConsistent st₁ st₂ h₁ f) h

-- A method that keeps the invariant of `ServiceDiscovery` and its clients.
pub keeping-Preserves :
    {A : Type 0} (m : Discovery.Method A) (st : Server)
    → IsConsistent st
    → ((sd : Discovery)
        → IsValid sd
        → sd.clients ≡ st.sd.clients
        → Ensures IsValid (λ _ sd'. IsValid sd') (m sd))
    → ((sd : Discovery) → HasClients sd.clients (m sd))
    → Preserves (on_sd m st)
keeping-Preserves {A} m st h ensures clients =
    let sd₀ : Discovery = record st.sd { calls = [] } in
    on_sd-Preserves m st
      (go (m sd₀) (ensures sd₀ (calls-IsValid [] st.sd h.valid) refl) (clients sd₀))
  where
    go :
        (x : Result A × Discovery)
        → Ensures IsValid (λ _ sd. IsValid sd) x
        → HasClients st.sd.clients x
        → Preserves (x.0, with_sd x.1 st)
    go (ok a, sd) e c = with_sd-IsConsistent sd st h e c
    go (raised Error.key_error, sd) e c = tt
    go (raised Error.assertion_error, sd) e c = tt
    go (raised Error.attribute_error, sd) e c = tt
    go (raised Error.type_error, sd) e c = tt
    go (raised Error.index_error, sd) e c = tt
    go (raised _, sd) e c = with_sd-IsConsistent sd st h e c

-- The clauses of a handler let through the exceptions that stop the server.
abbrev pub IsModest : (Error → Option Text) → Type 0
IsModest reason =
    (reason Error.key_error ≡ none)
    × (reason Error.assertion_error ≡ none)
    × (reason Error.attribute_error ≡ none)
    × (reason Error.type_error ≡ none)
    × (reason Error.index_error ≡ none)

module _ (c : ℕ) (ta : Transaction) (reason : Error → Option Text) where
  abbrev handle : Error → Server → Option Text → Result (Unit {0}) × Server
  handle e st o = elim o [ none ↦ (raised e, st) | some text ↦ respond_failure c ta text st ]

  handle-Preserves :
      (e : Error) (st : Server) (o : Option Text) → IsConsistent st → Preserves (handle e st o)
  handle-Preserves e st none h = raised-Preserves (Unit {0}) e st h
  handle-Preserves e st (some text) h = respond-Preserves c _ st h

  pub failing-Preserves :
      (m : Method (Unit {0})) (st : Server)
      → IsModest reason
      → Preserves (m st)
      → Preserves (failing c ta reason m st)
  unfolding failing
  failing-Preserves m st (key, assertion, attribute, type, index) = go (m st)
    where
      let_through :
          (e : Error) (st' : Server)
          → Preserves {A = Unit {0}} (raised e, st')
          → reason e ≡ none
          → Preserves (handle e st' (reason e))
      let_through e st' h no_reason = subst (λ o. Preserves (handle e st' o)) (sym no_reason) h

      go :
          (x : Result (Unit {0}) × Server)
          → Preserves {A = Unit {0}} x
          → Preserves {A = Unit {0}}
              (elim x.0 [ ok a ↦ (ok a, x.1) | raised e ↦ handle e x.1 (reason e) ])
      go (ok a, st') h = h
      go (raised Error.key_error, st') h = let_through Error.key_error st' h key
      go (raised Error.assertion_error, st') h = let_through Error.assertion_error st' h assertion
      go (raised Error.attribute_error, st') h = let_through Error.attribute_error st' h attribute
      go (raised Error.type_error, st') h = let_through Error.type_error st' h type
      go (raised Error.index_error, st') h = let_through Error.index_error st' h index
      go (raised e, st') h = handle-Preserves e st' (reason e) h

abbrev pub Always : {B : Type 0} → B → Server → Type 0
Always _ st = IsConsistent st

-- A method that begins with the client of its connection.
pub client-Preserves :
    (c : ℕ) (f : ℕ → Method (Unit {0})) (st : Server)
    → IsConsistent st
    → ((client : ℕ) → Preserves (f client st))
    → Preserves ((connection c >>= λ conn. client_of conn >>= f) st)
client-Preserves c f st h k =
    connection-Leaves IsConsistent Always c (λ conn. client_of conn >>= f) st
      (λ conn _.
        or_raise-Leaves IsConsistent Always conn.client_id Error.not_found_error f st h
          (λ client _. k client))

-- ===== src/Server/Consistency.antt =====
-- paf/server.py: the invariant that ties the connections to the clients of `ServiceDiscovery`.
pub mod Leaves
pub mod Queueing
pub mod Rules
pub mod Subscribing
pub mod Publishing
pub mod Listing
pub mod Handshake
pub mod Dispatch
pub mod Turn
pub mod Ending
pub mod Runs
use paf.Prelude.{
  ℕ, ◌<◌, ◌≡◌, refl, sym, ap, subst, ◌∙◌, ◌≢◌, ◌⊎◌, inl, inr, Bool, true, false, Option, none, some,
  List, [], ◌∷◌, Text, nat_eq, nat_beq, nat_beq_iff, arith, if◌then◌else◌,
}
use paf.Prelude.Dict.{Dict, lookup, insert, IsUnique, IsUnique-insert, lookup-insert}
use paf.Prelude.Action.{
  Action, Result, ok, raised, Error, key_error, assertion_error, attribute_error, type_error,
  index_error, ◌>>=◌,
}
use paf.Sd.Discovery.{Discovery}
use paf.Sd.Discovery.Invariant
use paf.Server.State.{Connection, Server, set_connection}

-- What a connection is to `ServiceDiscovery`: its client id, and whether it has shaken hands.
abbrev pub Badge : Type 0
Badge = Option ℕ × Bool

abbrev pub badge_of_connection : Connection → Badge
badge_of_connection conn = (conn.client_id, conn.handshaked)

abbrev pub badge : Option Connection → Option Badge
badge none = none
badge (some conn) = some (badge_of_connection conn)

unfoldable pub badge_of : ℕ → Server → Option Badge
badge_of c st = badge (lookup c (Server.connections st))

-- `ServiceDiscovery` is valid. A connection that has shaken hands has a client id, under which a client
-- is connected, and no other such connection has that id. The numbers of connections are below the
-- next one.
pub record IsConsistent (st : Server) : Type 0 where
  pub valid : Invariant.IsValid st.sd
  pub unique : IsUnique st.connections
  pub connected :
      (c : ℕ) (client : Option ℕ)
      → badge_of c st ≡ some (client, true)
      → (k : ℕ) × (user : Text) × (client ≡ some k) × (lookup k st.sd.clients ≡ some user)
  pub alone :
      (c d : ℕ) (client : Option ℕ)
      → badge_of c st ≡ some (client, true)
      → badge_of d st ≡ some (client, true)
      → c ≡ d
  pub numbered : (c : ℕ) (b : Badge) → badge_of c st ≡ some b → c < st.next_connection

-- The connections have the same badges, and `ServiceDiscovery` is untouched.
pub record IsFramed (st st' : Server) : Type 0 where
  pub badges : (c : ℕ) → badge_of c st' ≡ badge_of c st
  pub unique : IsUnique st.connections → IsUnique st'.connections
  pub next : st'.next_connection ≡ st.next_connection
  pub sd_eq : st'.sd ≡ st.sd

pub refl-IsFramed : (st : Server) → IsFramed st st
refl-IsFramed st = record { badges = λ c. refl; unique = λ u. u; next = refl; sd_eq = refl }

pub trans-IsFramed : (st st' st'' : Server) → IsFramed st st' → IsFramed st' st'' → IsFramed st st''
trans-IsFramed st st' st'' f g = record {
  badges = λ c. g.badges c ∙ f.badges c;
  unique = λ u. g.unique (f.unique u);
  next = g.next ∙ f.next;
  sd_eq = g.sd_eq ∙ f.sd_eq;
}

-- Every badge of the later state was there before, and its client, if it is connected, still is.
pub less-IsConsistent :
    (st st' : Server)
    → IsConsistent st
    → Invariant.IsValid st'.sd
    → IsUnique st'.connections
    → ((c : ℕ) (b : Badge) → badge_of c st' ≡ some b → badge_of c st ≡ some b)
    → ((c k : ℕ) (user : Text)
        → badge_of c st' ≡ some (some k, true)
        → lookup k st.sd.clients ≡ some user
        → lookup k st'.sd.clients ≡ some user)
    → st'.next_connection ≡ st.next_connection
    → IsConsistent st'
less-IsConsistent st st' h valid unique badges clients next = record {
  valid = valid;
  unique = unique;
  connected = λ c client e.
      let (k, user, known, there) = h.connected c client (badges c _ e) in
      (k, user, known, clients c k user (e ∙ ap (λ o. some (o, true)) known) there);
  alone = λ c d client e e'. h.alone c d client (badges c _ e) (badges d _ e');
  numbered = λ c b e. subst (λ n. c < n) (sym next) (h.numbered c b (badges c b e));
}

-- A step that keeps the badges and the clients, and leaves `ServiceDiscovery` valid.
pub keep-IsConsistent :
    (st st' : Server)
    → IsConsistent st
    → Invariant.IsValid st'.sd
    → st'.sd.clients ≡ st.sd.clients
    → ((c : ℕ) → badge_of c st' ≡ badge_of c st)
    → IsUnique st'.connections
    → st'.next_connection ≡ st.next_connection
    → IsConsistent st'
keep-IsConsistent st st' h valid clients badges unique next =
    less-IsConsistent st st' h valid unique (λ c b e. sym (badges c) ∙ e)
      (λ c k user e there. ap (lookup k) clients ∙ there) next

pub framed-IsConsistent : (st st' : Server) → IsConsistent st → IsFramed st st' → IsConsistent st'
framed-IsConsistent st st' h f =
    keep-IsConsistent st st' h (subst Invariant.IsValid (sym f.sd_eq) h.valid)
      (ap (λ (d : Discovery). d.clients) f.sd_eq) f.badges (f.unique h.unique) f.next

-- The badges behind a change of one connection.
pub set_connection-badge :
    (c d : ℕ) (conn : Connection) (st : Server)
    → badge_of d (set_connection c conn st)
      ≡ (if nat_beq c d then some (badge_of_connection conn) else badge_of d st)
unfolding badge_of
set_connection-badge c d conn st =
    ap badge (lookup-insert c d conn st.connections) ∙ commute (nat_beq c d)
  where
    commute :
        (b : Bool)
        → badge (if b then some conn else lookup d st.connections)
          ≡ (if b then some (badge_of_connection conn) else badge (lookup d st.connections))
    commute true = refl
    commute false = refl

-- A connection is replaced by one with the same badge.
pub set_connection-IsFramed :
    (c : ℕ) (conn conn' : Connection) (st : Server)
    → lookup c st.connections ≡ some conn
    → badge_of_connection conn' ≡ badge_of_connection conn
    → IsFramed st (set_connection c conn' st)
unfolding badge_of
set_connection-IsFramed c conn conn' st e same = record {
  badges =
      λ d. set_connection-badge c d conn' st ∙ ground (arith, ap badge e, same, nat_beq_iff c d);
  unique = λ u. IsUnique-insert c conn' st.connections u;
  next = refl;
  sd_eq = refl;
}

-- Where a badge comes from that is there behind the change.
pub set_connection-cases :
    (c d : ℕ) (conn : Connection) (b : Badge) (st : Server)
    → badge_of d (set_connection c conn st) ≡ some b
    → ((c ≡ d) × (conn.client_id ≡ b.0) × (conn.handshaked ≡ b.1)) ⊎ (badge_of d st ≡ some b)
set_connection-cases c d conn (client, hands) st e =
    go (nat_beq c d) refl (sym (set_connection-badge c d conn st) ∙ e)
  where
    go :
        (t : Bool)
        → nat_beq c d ≡ t
        → (if t then some (badge_of_connection conn) else badge_of d st) ≡ some (client, hands)
        → ((c ≡ d) × (conn.client_id ≡ client) × (conn.handshaked ≡ hands))
          ⊎ (badge_of d st ≡ some (client, hands))
    go true same e' = inl (ground (arith, nat_beq_iff c d), cc, cc)
    go false other e' = inr e'

-- A connection gets a new badge: one without a handshake, or one with the id of a client that is
-- connected and that no other connection has.
pub put-IsConsistent :
    (c : ℕ) (conn : Connection) (b : Badge) (st : Server)
    → IsConsistent st
    → badge_of c st ≡ some b
    → (conn.handshaked ≡ true
        → (k : ℕ) × (user : Text) × (conn.client_id ≡ some k)
          × (lookup k st.sd.clients ≡ some user)
          × ((d : ℕ) → badge_of d st ≢ some (some k, true)))
    → IsConsistent (set_connection c conn st)
put-IsConsistent c conn b st h there fresh = record {
  valid = h.valid;
  unique = IsUnique-insert c conn st.connections h.unique;
  connected = λ d client e. elim (set_connection-cases c d conn (client, true) st e) [
    | inl (_, id, hands) ↦
        let (k, user, known, there', _) = fresh hands in (k, user, sym id ∙ known, there')
    | inr before ↦ h.connected d client before
  ];
  alone = λ d d' client e e'. elim (set_connection-cases c d conn (client, true) st e) [
    | inl (same, id, hands) ↦ elim (set_connection-cases c d' conn (client, true) st e') [
      | inl (same', _, _) ↦ sym same ∙ same'
      | inr before ↦ absurd (others d' client id hands before)
    ]
    | inr before ↦ elim (set_connection-cases c d' conn (client, true) st e') [
      | inl (_, id, hands) ↦ absurd (others d client id hands before)
      | inr before' ↦ h.alone d d' client before before'
    ]
  ];
  numbered = λ d b' e. elim (set_connection-cases c d conn b' st e) [
    | inl (same, _, _) ↦ subst (λ n. n < st.next_connection) same (h.numbered c b there)
    | inr before ↦ h.numbered d b' before
  ];
}
  where
    others :
        (d : ℕ) (client : Option ℕ)
        → conn.client_id ≡ client
        → conn.handshaked ≡ true
        → badge_of d st ≢ some (client, true)
    others d client id hands before =
        let (k, user, known, _, none_other) = fresh hands in
        none_other d (before ∙ ap (λ o. some (o, true)) (sym id ∙ known))

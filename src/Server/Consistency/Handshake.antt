-- ===== src/Server/Consistency/Handshake.antt =====
-- paf/server.py: a hello keeps the invariant.
use paf.Prelude.{
  ℕ, ◌≡◌, ◌≢◌, refl, sym, ap, ◌∙◌, Bool, true, false, not, ◌&&◌, Option, none, some, [], ◌∷◌, Text,
  nat_eq, nat_beq, nat_beq_iff, arith, leb, if◌then◌else◌, Bool-cases, inl, inr,
}
use paf.Prelude.Dict.{lookup, insert, lookup-insert_ne}
use paf.Prelude.Action.{Result, ok, raised, Error, ◌>>=◌, ◌>>◌, lift, modify, raise_if, raise}
use paf.Sd.Discovery
use paf.Sd.Discovery.{Discovery}
use paf.Sd.Discovery.Invariant.{IsValid}
use paf.Sd.Discovery.Ensures.{Ensures}
use paf.Sd.Discovery.Clients.{Connects, client_connect-Connects, client_connect-Ensures}
use paf.Server.Transaction.{Transaction, complete}
use paf.Server.UserId.{determine_user_id}
use paf.Server.State.{
  Connection, Server, Method, connection, set_connection, respond, nat_value, on_sd,
}
use paf.Server.Handlers.{
  version, respond_failure, failing, hello_reason, has_number, without, conn_handshake_completed,
  connect_client, shake_hands, hello_request,
}
use paf.Server.Consistency.{
  badge, badge_of, IsConsistent, IsFramed, less-IsConsistent, keep-IsConsistent,
  framed-IsConsistent, put-IsConsistent, set_connection-badge,
}
use paf.Server.Consistency.Leaves.{
  Leaves, Preserves, >>=-Leaves, raised-Preserves, lift-Leaves, connection-Leaves,
}
use paf.Server.Consistency.Queueing.{on_sd-Leaves}
use paf.Server.Consistency.Rules.{
  Always, respond-Preserves, failing-Preserves, calls-IsValid, with_sd, with_sd-IsConsistent,
}

-- The client is connected, this connection has its id, and none has shaken hands for it.
record IsKnown (c client : ℕ) (st : Server) : Type 0 where
  sound : IsConsistent st
  user : Text
  known : lookup client st.sd.clients ≡ some user
  nobody : (d : ℕ) → badge_of d st ≢ some (some client, true)
  mine : badge_of c st ≡ some (some client, false)

framed-IsKnown :
    (c client : ℕ) (st st' : Server) → IsFramed st st' → IsKnown c client st → IsKnown c client st'
framed-IsKnown c client st st' f h = record {
  sound = framed-IsConsistent st st' h.sound f;
  user = h.user;
  known = ap (λ (d : Discovery). lookup client d.clients) f.sd_eq ∙ h.known;
  nobody = λ d e. h.nobody d (sym (f.badges d) ∙ e);
  mine = f.badges c ∙ h.mine;
}

module _ (c client : ℕ) (user : Text) (st : Server) (h : IsConsistent st)
    (mine : badge_of c st ≡ some (some client, false)) where
  entered :
      (sd : Discovery)
      → IsValid sd
      → lookup client sd.clients ≡ some user
      → lookup client st.sd.clients ≡ none
      → sd.clients ≡ insert client user st.sd.clients
      → IsKnown c client (with_sd sd st)
  unfolding badge_of
  entered sd valid known new clients = record {
    sound =
        less-IsConsistent st (with_sd sd st) h (calls-IsValid [] sd valid) h.unique (λ d b e. e)
          (λ d k other e there.
            ap (lookup k) clients
            ∙ lookup-insert_ne client k user st.sd.clients (λ same. cc)
            ∙ there)
          refl;
    user = user;
    known = known;
    nobody = λ d e. let (k, other, same, there) = h.connected d (some client) e in cc;
    mine = mine;
  }

  client_connect-Leaves :
      Leaves IsConsistent
        (λ _ st'. IsKnown c client st')
        (on_sd (Discovery.client_connect client user) st)
  client_connect-Leaves =
      let sd₀ : Discovery = record st.sd { calls = [] } in
      on_sd-Leaves IsConsistent (λ _ st'. IsKnown c client st')
        (Discovery.client_connect client user) st (λ st₁ st₂ f h₁. framed-IsConsistent st₁ st₂ h₁ f)
        (λ _ st₁ st₂ f k. framed-IsKnown c client st₁ st₂ f k)
        (go (Discovery.client_connect client user sd₀)
          (client_connect-Ensures client user sd₀ (calls-IsValid [] st.sd h.valid))
          (client_connect-Connects client user sd₀ (calls-IsValid [] st.sd h.valid)))
    where
      go :
          (x : Result (Unit {0}) × Discovery)
          → Ensures IsValid (λ _ sd. IsValid sd × (lookup client sd.clients ≡ some user)) x
          → Connects client user (record st.sd { calls = [] }) x
          → Leaves IsConsistent (λ _ st'. IsKnown c client st') (x.0, with_sd x.1 st)
      go (ok a, sd) (valid, known) (_, new, clients) = entered sd valid known new clients
      go (raised Error.already_exists_error, sd) valid (same, _) =
          with_sd-IsConsistent sd st h valid (ap (λ (d : Discovery). d.clients) same)
      go (raised Error.resource_error, sd) valid (_, _, same) =
          with_sd-IsConsistent sd st h valid same
      go (raised _, sd) valid impossible = absurd impossible

completed-Preserves :
    (c : ℕ) (m : Method (Unit {0})) (st : Server)
    → IsConsistent st
    → ((st' : Server) → IsConsistent st' → Preserves (m st'))
    → Preserves ((conn_handshake_completed c >> m) st)
unfolding conn_handshake_completed badge_of
completed-Preserves c m st h k = go (not (has_number c st.clientless_connections))
  where
    go :
        (b : Bool)
        → Preserves (
            ((raise_if b Error.key_error
                  >> modify (λ (x : Server). record x {
                    clientless_connections = without c x.clientless_connections;
                    client_connections = c ∷ without c x.client_connections;
                  }))
                >> m)
              st)
    go true = tt
    go false = k _ (keep-IsConsistent st _ h h.valid refl (λ d. refl) h.unique refl)

abbrev shaken : ℕ → Transaction → Connection → Method (Unit {0})
shaken c ta conn = do
  modify (set_connection c (record conn { handshaked = true }))
  conn_handshake_completed c
  respond c (complete (nat_value version ∷ []) [] ta)

known_id :
    {client : Option ℕ} {hands : Bool} (conn : Connection)
    → badge (some conn) ≡ some (client, hands)
    → conn.client_id ≡ client
known_id conn e = cc

connect_client-Preserves :
    (c : ℕ) (ta : Transaction) (client : ℕ) (user : Text) (st : Server)
    → IsConsistent st
    → badge_of c st ≡ some (some client, false)
    → Preserves (connect_client c ta client user st)
unfolding connect_client badge_of
connect_client-Preserves c ta client user st h mine =
    >>=-Leaves IsConsistent (λ _ st'. IsKnown c client st') Always
      (on_sd (Discovery.client_connect client user)) (λ _. connection c >>= shaken c ta) st
      (client_connect-Leaves c client user st h mine)
      (λ _ st₁ known. connection-Leaves IsConsistent Always c (shaken c ta) st₁ (λ conn e.
        completed-Preserves c (respond c (complete (nat_value version ∷ []) [] ta))
          (set_connection c (record conn { handshaked = true }) st₁)
          (put-IsConsistent c (record conn { handshaked = true }) (some client, false) st₁
            known.sound known.mine
            (λ _. (
              client,
              known.user,
              known_id conn (sym (ap badge e) ∙ known.mine),
              known.known,
              known.nobody,
            )))
          (λ st₂ h₂. respond-Preserves c (complete (nat_value version ∷ []) [] ta) st₂ h₂)))

abbrev unsupported : Text
unsupported =
    b'u' ∷ b'n' ∷ b's' ∷ b'u' ∷ b'p' ∷ b'p' ∷ b'o' ∷ b'r' ∷ b't' ∷ b'e' ∷ b'd' ∷ b'-' ∷ b'p' ∷ b'r'
    ∷ b'o' ∷ b't' ∷ b'o' ∷ b'c' ∷ b'o' ∷ b'l' ∷ b'-' ∷ b'v' ∷ b'e' ∷ b'r' ∷ b's' ∷ b'i' ∷ b'o'
    ∷ b'n' ∷ []

abbrev greeted : ℕ → Transaction → ℕ → ℕ → ℕ → Connection → Option ℕ → Bool → Method (Unit {0})
greeted c ta client low high conn id hands = elim id [
  | none ↦
      modify (set_connection c (record conn { client_id = some client }))
      >> shake_hands c ta client low high
  | some known ↦
      if nat_beq known client
      then (if hands
          then respond c (complete (nat_value version ∷ []) [] ta)
          else shake_hands c ta client low high)
      else raise Error.attribute_error
]

shake_hands-Preserves :
    (c : ℕ) (ta : Transaction) (client low high : ℕ) (st : Server)
    → IsConsistent st
    → badge_of c st ≡ some (some client, false)
    → Preserves (shake_hands c ta client low high st)
unfolding shake_hands
shake_hands-Preserves c ta client low high st h mine =
    let rest : Text → Method (Unit {0}) = λ user.
      if leb low version && leb version high
      then failing c ta hello_reason (connect_client c ta client user)
      else respond_failure c ta unsupported in
    connection-Leaves IsConsistent Always c
      (λ conn. lift (determine_user_id conn.conn_addr conn.subject_key_id) >>= rest) st
      (λ conn _.
        lift-Leaves IsConsistent Always (determine_user_id conn.conn_addr conn.subject_key_id) rest
          st (λ e _. raised-Preserves (Unit {0}) e st h)
          (λ user _. shaking (leb low version && leb version high) user))
  where
    shaking :
        (b : Bool) (user : Text)
        → Preserves (
            (if b
                then failing c ta hello_reason (connect_client c ta client user)
                else respond_failure c ta unsupported)
              st)
    shaking true user =
        failing-Preserves c ta hello_reason (connect_client c ta client user) st
          (refl, refl, refl, refl, refl) (connect_client-Preserves c ta client user st h mine)
    shaking false user = respond-Preserves c _ st h

-- The reaction to a hello of a connection: the first one, one again, or one with another client id.
greeted-Preserves :
    (c : ℕ) (ta : Transaction) (client low high : ℕ) (conn : Connection) (st : Server)
    → IsConsistent st
    → lookup c st.connections ≡ some conn
    → Preserves (greeted c ta client low high conn conn.client_id conn.handshaked st)
unfolding badge_of
greeted-Preserves c ta client low high conn st h e = go conn.client_id conn.handshaked refl refl
  where
    there : badge_of c st ≡ some (conn.client_id, conn.handshaked)
    there = ap badge e

    unshaken : conn.client_id ≡ none → conn.handshaked ≢ true
    unshaken e₁ hand = let (k, user, known, _) = h.connected c none (there ∙ cc) in cc

    not_hands : conn.client_id ≡ none → conn.handshaked ≡ false
    not_hands e₁ = elim (Bool-cases conn.handshaked) [
      | inl hand ↦ absurd (unshaken e₁ hand)
      | inr no_hand ↦ no_hand
    ]

    go :
        (id : Option ℕ) (hands : Bool)
        → conn.client_id ≡ id
        → conn.handshaked ≡ hands
        → Preserves (greeted c ta client low high conn id hands st)
    go none hands e₁ e₂ =
        let conn' : Connection = record conn { client_id = some client } in
        shake_hands-Preserves c ta client low high (set_connection c conn' st)
          (put-IsConsistent c conn' (conn.client_id, conn.handshaked) st h there
            (λ hand. absurd (unshaken e₁ hand)))
          (set_connection-badge c c conn' st ∙ ground (arith, nat_beq_iff c c, not_hands e₁))
    go (some known) hands e₁ e₂ =
        again (nat_beq known client) (λ b. (nat_beq_iff known client).0 b) hands (there ∙ cc)
      where
        again :
            (b : Bool)
            → (b ≡ true → known ≡ client)
            → (hands' : Bool) → badge_of c st ≡ some (some known, hands')
            → Preserves (
                (if b
                    then (if hands'
                        then respond c (complete (nat_value version ∷ []) [] ta)
                        else shake_hands c ta client low high)
                    else raise Error.attribute_error)
                  st)
        again false same hands' mine = tt
        again true same true mine =
            respond-Preserves c (complete (nat_value version ∷ []) [] ta) st h
        again true same false mine =
            shake_hands-Preserves c ta client low high st h
              (mine ∙ ap (λ k. some (some k, false)) (same refl))

pub hello_request-Preserves :
    (c : ℕ) (ta : Transaction) (client low high : ℕ) (st : Server)
    → IsConsistent st
    → Preserves (hello_request c ta client low high st)
unfolding hello_request
hello_request-Preserves c ta client low high st h =
    connection-Leaves IsConsistent Always c
      (λ conn. greeted c ta client low high conn conn.client_id conn.handshaked) st
      (λ conn e. greeted-Preserves c ta client low high conn st h e)

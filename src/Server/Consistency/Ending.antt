-- ===== src/Server/Consistency/Ending.antt =====
-- paf/server.py: the end of a connection, and a whole activation of one, keep the invariant.
use paf.Prelude.{
  ℕ, ◌≡◌, ◌≢◌, refl, sym, ap, subst, ◌∙◌, Bool, true, false, none, some, List, [], nat_eq, nat_beq,
  nat_beq_iff, arith, inl, inr, Bool-cases, if◌then◌else◌,
}
use paf.Prelude.Dict.{lookup, erase, IsUnique, IsUnique-erase, lookup-erase_ne, lookup-erase_self}
use paf.Prelude.Action.{
  Result, ok, raised, Error, key_error, assertion_error, attribute_error, type_error, index_error,
  ◌>>=◌, ◌>>◌, pure, modify,
}
use paf.Sd.Discovery
use paf.Sd.Discovery.{Discovery}
use paf.Sd.Discovery.Invariant.{IsValid}
use paf.Sd.Discovery.Ensures.{Ensures}
use paf.Sd.Discovery.Disconnect.{Gone, client_disconnect-Ensures}
use paf.Server.State.{Connection, Server, Method, on_sd}
use paf.Server.Handlers.{client_of}
use paf.Server.Connection.{Received, Sent, Round, goes_on, ends}
use paf.Server.Listener.{conn_terminated, terminate, turn, close_or, activate}
use paf.Server.Consistency.{
  Badge, badge, badge_of, IsConsistent, IsFramed, less-IsConsistent, keep-IsConsistent,
  framed-IsConsistent,
}
use paf.Server.Consistency.Leaves.{
  Leaves, Preserves, >>=-Leaves, or_raise-Leaves, connection-Leaves,
}
use paf.Server.Consistency.Queueing.{on_sd-Leaves}
use paf.Server.Consistency.Rules.{Always, calls-IsValid, with_sd}
use paf.Server.Consistency.Turn.{turn-Preserves}

-- An exception that leaves `activate` or a timer's callback stops the server.
abbrev pub Whatever : Server → Type 0
Whatever st = Unit

abbrev pub Survives : {A : Type 0} → Result A × Server → Type 0
Survives = Leaves Whatever (λ _ st'. IsConsistent st')

pub raised-Leaves :
    (A : Type 0) (P : A → Server → Type 0) (e : Error) (st : Server)
    → Leaves {A = A} Whatever P (raised e, st)
raised-Leaves A P key_error st = tt
raised-Leaves A P assertion_error st = tt
raised-Leaves A P attribute_error st = tt
raised-Leaves A P type_error st = tt
raised-Leaves A P index_error st = tt
raised-Leaves A P _ st = tt

abbrev dropped : ℕ → Server → Server
dropped c st = record st { connections = erase c st.connections }

dropped-badge :
    (c d : ℕ) (st : Server)
    → IsUnique st.connections
    → badge_of d (dropped c st) ≡ (if nat_beq c d then none else badge_of d st)
unfolding badge_of
dropped-badge c d st u = elim (Bool-cases (nat_beq c d)) [
  | inl same ↦ rw same (
      subst (λ k. badge (lookup k (erase c st.connections)) ≡ none) ((nat_beq_iff c d).0 same)
        (ap badge (lookup-erase_self c st.connections u)))
  | inr other ↦
      rw other
        (ap badge (lookup-erase_ne c d st.connections (λ same. ground (arith, nat_beq_iff c d))))
]

dropped-keeps :
    (c d : ℕ) (b : Badge) (st : Server)
    → IsUnique st.connections
    → badge_of d (dropped c st) ≡ some b
    → (c ≢ d) × (badge_of d st ≡ some b)
dropped-keeps c d b st u e = ground (arith, dropped-badge c d st u, nat_beq_iff c d)

-- Everything is consistent but for this connection.
abbrev IsLeaving : ℕ → Server → Type 0
IsLeaving c st = IsConsistent (dropped c st) × IsUnique st.connections

framed-IsLeaving : (c : ℕ) (st st' : Server) → IsFramed st st' → IsLeaving c st → IsLeaving c st'
framed-IsLeaving c st st' f (h, u) = (
  framed-IsConsistent (dropped c st) (dropped c st') h (record {
    badges = λ d.
        dropped-badge c d st' (f.unique u)
        ∙ ap (λ b. if nat_beq c d then none else b) (f.badges d)
        ∙ sym (dropped-badge c d st u);
    unique = λ _. IsUnique-erase c st'.connections (f.unique u);
    next = f.next;
    sd_eq = f.sd_eq;
  }),
  f.unique u,
)

module _ (c : ℕ) (st : Server) (h : IsConsistent st) where
  idle-IsLeaving : IsLeaving c st
  idle-IsLeaving = (
    less-IsConsistent st (dropped c st) h h.valid (IsUnique-erase c st.connections h.unique)
        (λ d b e. (dropped-keeps c d b st h.unique e).1) (λ d k user e there. there) refl,
    h.unique,
  )

  with_sd-IsLeaving :
      (client : ℕ) (sd : Discovery)
      → badge_of c st ≡ some (some client, true)
      → Gone client st.sd.clients sd
      → IsLeaving c (with_sd sd st)
  unfolding badge_of
  with_sd-IsLeaving client sd mine (valid, gone, clients) = (
    less-IsConsistent st (dropped c (with_sd sd st)) h (calls-IsValid [] sd valid)
        (IsUnique-erase c st.connections h.unique) (λ d b e. (dropped-keeps c d b st h.unique e).1)
        (λ d k user e there.
          let (other, still) = dropped-keeps c d (some k, true) st h.unique e in
          ap (lookup k) clients
          ∙ lookup-erase_ne client k st.sd.clients (λ same.
            other
              (h.alone c d (some client) mine (still ∙ ap (λ j. some (some j, true)) (sym same))))
          ∙ there)
        refl,
    h.unique,
  )

  client_disconnect-Leaves :
      (now client : ℕ)
      → badge_of c st ≡ some (some client, true)
      → Leaves Whatever
          (λ _ st'. IsLeaving c st')
          (on_sd (Discovery.client_disconnect now client) st)
  client_disconnect-Leaves now client mine =
      let sd₀ : Discovery = record st.sd { calls = [] } in
      on_sd-Leaves Whatever (λ _ st'. IsLeaving c st') (Discovery.client_disconnect now client) st
        (λ _ _ _ _. tt) (λ _ st₁ st₂ f k. framed-IsLeaving c st₁ st₂ f k)
        (go (Discovery.client_disconnect now client sd₀)
          (client_disconnect-Ensures now client sd₀ (calls-IsValid [] st.sd h.valid)))
    where
      go :
          (x : Result (Unit {0}) × Discovery)
          → Ensures IsValid (λ _ sd. Gone client st.sd.clients sd) x
          → Leaves Whatever (λ _ st'. IsLeaving c st') (x.0, with_sd x.1 st)
      go (ok a, sd) gone = with_sd-IsLeaving client sd mine gone
      go (raised e, sd) _ = raised-Leaves (Unit {0}) (λ _ st'. IsLeaving c st') e (with_sd sd st)

abbrev disconnect : ℕ → Connection → Method (Unit {0})
disconnect now conn = client_of conn >>= λ client. on_sd (Discovery.client_disconnect now client)

disconnect-Leaves :
    (now c : ℕ) (conn : Connection) (st : Server)
    → IsConsistent st
    → lookup c st.connections ≡ some conn
    → Leaves Whatever
        (λ _ st'. IsLeaving c st')
        ((if conn.handshaked then disconnect now conn else pure tt) st)
unfolding badge_of
disconnect-Leaves now c conn st h e = go conn.handshaked refl
  where
    go :
        (b : Bool)
        → conn.handshaked ≡ b
        → Leaves Whatever
            (λ _ st'. IsLeaving c st')
            ((if b then disconnect now conn else pure tt) st)
    go false _ = idle-IsLeaving c st h
    go true hands =
        or_raise-Leaves Whatever (λ _ st'. IsLeaving c st') conn.client_id Error.not_found_error
          (λ client. on_sd (Discovery.client_disconnect now client)) st tt
          (λ client known. client_disconnect-Leaves c st h now client (ap badge e ∙ cc))

-- The end of a connection, where it returns, leaves the others and the clients consistent.
pub terminate-Survives : (now c : ℕ) (st : Server) → IsConsistent st → Survives (terminate now c st)
unfolding terminate conn_terminated badge_of
terminate-Survives now c st h =
    let end : Method (Unit {0}) = modify (λ (x : Server). conn_terminated c (dropped c x)) in
    connection-Leaves Whatever Always c
      (λ conn. (if conn.handshaked then disconnect now conn else pure tt) >> end) st
      (λ conn e.
        >>=-Leaves Whatever (λ _ st'. IsLeaving c st') Always
          (if conn.handshaked then disconnect now conn else pure tt) (λ _. end) st
          (disconnect-Leaves now c conn st h e)
          (λ _ st' (left, _).
            keep-IsConsistent (dropped c st') (conn_terminated c (dropped c st')) left left.valid
              refl (λ d. refl) left.unique refl))

pub activate-Survives :
    (now c : ℕ) (received : Received) (outcomes : List Sent) (st : Server)
    → IsConsistent st
    → Survives (activate now c received outcomes st)
unfolding activate
activate-Survives now c received outcomes st h =
    go (turn c received outcomes st) (turn-Preserves c received outcomes st h)
  where
    go : (x : Result Round × Server) → Preserves x → Survives (close_or (terminate now c) x.0 x.1)
    go (ok goes_on, st') h' = h'
    go (ok ends, st') h' = terminate-Survives now c st' h'
    go (raised Error.protocol_error, st') h' = terminate-Survives now c st' h'
    go (raised key_error, st') h' = tt
    go (raised assertion_error, st') h' = tt
    go (raised attribute_error, st') h' = tt
    go (raised type_error, st') h' = tt
    go (raised index_error, st') h' = tt
    go (raised _, st') h' = tt

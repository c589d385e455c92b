-- ===== src/Sd/Discovery/Removal.antt =====
-- paf/sd.py, `ServiceDiscovery`: `unpublish` and `purge_orphans` keep the invariant.
use paf.Prelude.{
  ℕ, ◌≡◌, refl, subst, sym, ap, ◌∙◌, Option, none, some, Text, text_beq, text_beq_iff, nat_eq,
  arith, inl, inr, Bool-cases, Option-cases,
}
use paf.Prelude.Dict.{lookup, erase}
use paf.Prelude.Action.{Result, raised, Error, bind, ◌>>◌}
use paf.Sd.Resources.{ResourceType, deallocate}
use paf.Sd.Resources.Ledger.{same}
use paf.Sd.Service
use paf.Sd.Service.{Generation, Service, ChangeType, check_access}
use paf.Sd.Discovery.{
  Discovery, unpublish, unpublish_service, commit_service, on_manager, service_commit,
}
use paf.Sd.Discovery.Commit.{resting}
use paf.Sd.Discovery.Ensures.{Ensures, mono-Ensures, >>=-Ensures}
use paf.Sd.Discovery.Invariant.{IsAhead, IsValid, IsBalanced, nothing}
use paf.Sd.Discovery.Invariant.Updates.{OnlyManager, deallocate-Ensures, erase_service-IsBalanced}
use paf.Sd.Discovery.Invariant.Commits.{Kept, removed-Ensures}

-- The state is valid, and the service is all that has gone.
abbrev pub Removed : ℕ → Discovery → Discovery → Type 0
Removed id st st' = IsValid st' × (st'.services ≡ erase id st.services)

module _ (id : ℕ) (prev : Option Generation) (g : Generation) (st : Discovery) (h : IsValid st)
    (e : lookup id st.services ≡ some (resting id prev g)) where
  abbrev erased : Discovery
  erased = record st { services = erase id st.services }

  still_counted : IsBalanced nothing (same g.user_id ResourceType.service) erased
  still_counted = erase_service-IsBalanced nothing st id (resting id prev g) g refl e h.balanced

  unpublish_resting_eq :
      unpublish_service id st
      ≡ (on_manager (deallocate g.user_id ResourceType.service)
            >> service_commit ChangeType.removed
                (record { service_id = id; prev = some g; cur = none; next = none; change = none }))
          erased
  unfolding unpublish_service Service.remove commit_service Service.commit
  unpublish_resting_eq = ground arith

  unpublish_resting : Ensures IsValid (λ _ st'. Removed id st st') (unpublish_service id st)
  unpublish_resting =
      subst (Ensures IsValid (λ _ st'. Removed id st st')) (sym unpublish_resting_eq) (
        >>=-Ensures IsValid (λ _ st'. OnlyManager nothing nothing erased st')
          (λ _ st'. Removed id st st') (on_manager (deallocate g.user_id ResourceType.service)) _
          erased
          (deallocate-Ensures IsValid g.user_id ResourceType.service nothing
            (same g.user_id ResourceType.service) nothing nothing erased still_counted
            (ground (
              arith,
              still_counted.balance g.user_id ResourceType.service,
              text_beq_iff g.user_id g.user_id,
            ))
            (λ v s. omega arith))
          (λ _ st' (rm, eq, b).
            subst
              (λ (x : Discovery).
                Ensures IsValid (λ _ y. Removed id st y)
                  (service_commit ChangeType.removed
                    (record {
                      service_id = id;
                      prev = some g;
                      cur = none;
                      next = none;
                      change = none;
                    })
                    x))
              (sym eq)
              (mono-Ensures IsValid
                (λ _ y.
                  IsAhead nothing nothing y
                  × Kept (record st { manager = rm; services = erase id st.services }) y)
                (λ _ y. Removed id st y) (λ _ y (v, (_, _, _, gone)). (v, gone)) _
                (removed-Ensures IsValid st rm id prev g h.timed h.linked e b))))

module _ (id : ℕ) (st : Discovery) (h : IsValid st) where
  pub unpublish_service-Removed :
      (s : Service)
      → lookup id st.services ≡ some s
      → Ensures IsValid (λ _ st'. Removed id st st') (unpublish_service id st)
  unpublish_service-Removed s e =
      let (g, rest) = h.timed.at_rest id s e in
      unpublish_resting id s.prev g st h (e ∙ ap some rest)

  abbrev Removes : Result (Unit {0}) × Discovery → Type 0
  Removes = Ensures IsValid (λ _ st'. Removed id st st')

  unpublish_unknown :
      (client : ℕ)
      → lookup client st.clients ≡ none
      → unpublish id client st ≡ (raised Error.not_found_error, st)
  unfolding unpublish
  unpublish_unknown client e = ground arith

  unpublish_missing :
      (client : ℕ) (user : Text)
      → lookup client st.clients ≡ some user
      → lookup id st.services ≡ none
      → unpublish id client st ≡ (raised Error.not_found_error, st)
  unfolding unpublish
  unpublish_missing client user e e' = ground arith

  unpublish_eq :
      (client : ℕ) (user : Text) (s : Service)
      → lookup client st.clients ≡ some user
      → lookup id st.services ≡ some s
      → unpublish id client st
        ≡ bind (check_access user s) (λ _. unpublish_service id st) (λ err. (raised err, st))
  unfolding unpublish
  unpublish_eq client user s e e' = ground arith

  access-Removes :
      (user : Text) (s : Service) (x : Result (Unit {0}) × Discovery)
      → lookup id st.services ≡ some s
      → Removes x
      → Removes (bind (check_access user s) (λ _. x) (λ err. (raised err, st)))
  unfolding check_access
  access-Removes user s x e k =
      let (g, rest) = h.timed.at_rest id s e in
      subst
        (λ (y : Service). Removes (bind (check_access user y) (λ _. x) (λ err. (raised err, st))))
        (sym rest)
        (elim (Bool-cases (text_beq user g.user_id)) [
          | inl owner ↦ rw owner k
          | inr other ↦ rw other h
        ])

  -- Unpublishing removes the service from the dict, and no other, and keeps the invariant. An error of
  -- sd.py leaves a valid state; a `TypeError` or an `AttributeError` stops the server.
  pub unpublish-Removes : (client : ℕ) → Removes (unpublish id client st)
  unpublish-Removes client = elim (Option-cases (lookup client st.clients)) [
    | inl e ↦ subst Removes (sym (unpublish_unknown client e)) h
    | inr (user, e) ↦ elim (Option-cases (lookup id st.services)) [
      | inl missing ↦ subst Removes (sym (unpublish_missing client user e missing)) h
      | inr (s, there) ↦ subst Removes (sym (unpublish_eq client user s e there)) (
          access-Removes user s (unpublish_service id st) there (unpublish_service-Removed s there))
    ]
  ]

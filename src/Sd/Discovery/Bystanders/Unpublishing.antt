-- ===== src/Sd/Discovery/Bystanders/Unpublishing.antt =====
-- paf/sd.py, `ServiceDiscovery`: to unpublish and to purge leave the clients alone.
use paf.Prelude.{ℕ, refl, List, [], ◌∷◌, nat_eq}
use paf.Prelude.Dict.{lookup, erase}
use paf.Prelude.Action.{Error, ◌>>=◌, ◌>>◌, or_raise, lift, pure, modify as modify_state}
use paf.Sd.Resources.{ResourceType, deallocate}
use paf.Sd.Service
use paf.Sd.Timeouts
use paf.Sd.Service.{Generation, Service, ChangeType, new_service, check_access, getter, is_orphan}
use paf.Sd.Discovery.{
  Discovery, Method, on_manager, commit_service, unpublish_service, unpublish, get_user_id,
  unpublish_services, purge_orphans,
}
use paf.Sd.Discovery.Bystanders.{
  >>=-LeavesClients, LeavesClients, commit_service-HasClients, get_user_id-LeavesClients,
  or_raise-LeavesClients,
}

-- What is left of `_unpublish` behind the removal from the dict.
abbrev unpublish_rest : Service → Method (Unit {0})
unpublish_rest s = lift (Service.remove s) >>= λ s₁.
    lift (getter Generation.user_id s₁.cur) >>= λ user.
    on_manager (deallocate user ResourceType.service) >>= λ _. commit_service (λ _ st. st) s₁

unpublish_rest-LeavesClients : (s : Service) → LeavesClients (unpublish_rest s)
unpublish_rest-LeavesClients s =
    >>=-LeavesClients (lift (Service.remove s))
      (λ s₁. lift (getter Generation.user_id s₁.cur) >>= λ user.
        on_manager (deallocate user ResourceType.service) >>= λ _. commit_service (λ _ st. st) s₁)
      (λ st. refl)
      (λ s₁.
        >>=-LeavesClients (lift (getter Generation.user_id s₁.cur))
          (λ user. on_manager (deallocate user ResourceType.service) >>= λ _.
            commit_service (λ _ st. st) s₁)
          (λ st. refl)
          (λ user.
            >>=-LeavesClients (on_manager (deallocate user ResourceType.service))
              (λ _. commit_service (λ _ st. st) s₁) (λ st. refl)
              (λ _ st. commit_service-HasClients (λ _ st'. st') s₁ st (λ s'. refl))))

unpublish_service-LeavesClients : (id : ℕ) → LeavesClients (unpublish_service id)
unfolding unpublish_service
unpublish_service-LeavesClients id =
    >>=-LeavesClients (λ st. or_raise (lookup id (Discovery.services st)) Error.key_error st)
      (λ s.
        modify_state (λ (st : Discovery). record st { services = erase id st.services })
        >> unpublish_rest s)
      (λ st. or_raise-LeavesClients (lookup id st.services) Error.key_error st)
      (λ s.
        >>=-LeavesClients
          (modify_state (λ (st : Discovery). record st { services = erase id st.services }))
          (λ _. unpublish_rest s) (λ st. refl) (λ _. unpublish_rest-LeavesClients s))

pub unpublish-LeavesClients : (id client : ℕ) → LeavesClients (unpublish id client)
unfolding unpublish
unpublish-LeavesClients id client =
    >>=-LeavesClients (get_user_id client)
      (λ user.
        (λ st. or_raise (lookup id (Discovery.services st)) Error.not_found_error st) >>= λ s.
        lift (check_access user s) >> unpublish_service id)
      (get_user_id-LeavesClients client)
      (λ user.
        >>=-LeavesClients
          (λ st. or_raise (lookup id (Discovery.services st)) Error.not_found_error st)
          (λ s. lift (check_access user s) >> unpublish_service id)
          (λ st. or_raise-LeavesClients (lookup id st.services) Error.not_found_error st)
          (λ s.
            >>=-LeavesClients (lift (check_access user s)) (λ _. unpublish_service id) (λ st. refl)
              (λ _. unpublish_service-LeavesClients id)))

unpublish_services-LeavesClients : (ids : List ℕ) → LeavesClients (unpublish_services ids)
unfolding unpublish_services
unpublish_services-LeavesClients [] st = refl
unpublish_services-LeavesClients (id ∷ ids) st =
    >>=-LeavesClients (unpublish_service id) (λ _. unpublish_services ids)
      (unpublish_service-LeavesClients id) (λ _. unpublish_services-LeavesClients ids) st

pub purge_orphans-LeavesClients : (now : ℕ) → LeavesClients (purge_orphans now)
unfolding purge_orphans
purge_orphans-LeavesClients now st =
    let ids : List ℕ = Timeouts.timed_out now st.orphans in
    >>=-LeavesClients (unpublish_services ids) (λ _. pure ids)
      (unpublish_services-LeavesClients ids) (λ _ st'. refl) st

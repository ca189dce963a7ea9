-- ===== src/ReleaseGate/Submit.antt =====
-- web/src/components/new-release-modal.tsx: what the form does when it is sent.
use meergate.Base.{◌≡◌, ◌↔◌, refl, String, true, false, str_eq}
use meergate.Base.Outcome.{Outcome, resolved, thrown}
use meergate.Api.{Browser}
use meergate.Api.Calls.{Server}
use meergate.Api.Calls.Catalog.{create_candidate}
use meergate.ReleaseGate.{ReleaseModal, handle_submit, after_create}

-- The candidate was created.
abbrev pub IsCreated : {V : Type 0} → Outcome V → Type 0
IsCreated (resolved candidate) = Unit
IsCreated (thrown msg) = ⊥

module _ {V : Type 0} (s : Server V) (id_of : V → Outcome String) (hint : String) where
  after_create_lem :
      (r : Outcome V × Browser) (m : ReleaseModal V)
      → m.closed ≡ false
      → (((after_create s id_of hint r m).0.closed ≡ true) ↔ IsCreated r.0)
        × ((msg : String)
            → r.0 ≡ thrown msg
            → ((after_create s id_of hint r m).0.error ≡ msg)
              × ((after_create s id_of hint r m).0.busy ≡ false)
              × ((after_create s id_of hint r m).0.route ≡ m.route))
  after_create_lem (resolved candidate, b) m h = ((λ e. tt, λ u. refl), λ msg e. cc)
  after_create_lem (thrown msg, b) m h =
      ((λ e. cc (h, e), λ u. elim u [ ]), λ other e. (cc e, refl, refl))

  -- Where a service is chosen, the form closes exactly when the candidate is created, whatever
  -- becomes of its evaluation; otherwise the form shows the error, can be sent again, and the page
  -- stays.
  pub handle_submit_iff :
      (m : ReleaseModal V) (b : Browser)
      → str_eq m.service_id "" ≡ false
      → m.closed ≡ false
      → (((handle_submit s id_of hint m b).0.closed ≡ true)
          ↔ IsCreated (create_candidate s m.service_id m.form b).0)
        × ((msg : String)
            → (create_candidate s m.service_id m.form b).0 ≡ thrown msg
            → ((handle_submit s id_of hint m b).0.error ≡ msg)
              × ((handle_submit s id_of hint m b).0.busy ≡ false)
              × ((handle_submit s id_of hint m b).0.route ≡ m.route))
  unfolding handle_submit
  handle_submit_iff m b h k = rw h (
      after_create_lem (create_candidate s m.service_id m.form b)
        (record m { busy = true; error = "" }) k)

-- ===== src/Router/Invariant.antt =====
-- The routes of src/router.cpp stay sorted, and what a block leaves of them.
use synthizer.Base.{ℕ, ◌≡◌, some}
use synthizer.Float.{Float}
use synthizer.Router.{
  Biquad, Router, configure_route, remove_route, remove_all_output_routes, remove_all_input_routes,
  finish_block, unregister_output_handle, unregister_input_handle,
}

module _ (fl : Float) (bq : Biquad fl) where
  -- A call of the router's public interface that changes it.
  pub data Step : Router fl bq → Router fl bq → Type 0 where
    configures :
        (o i : ℕ) (gain : fl.Real) (fade : ℕ) (cfg : bq.Config) (r : Router fl bq)
        → Step r (configure_route fl bq o i gain fade cfg r)
    removes : (o i fade : ℕ) (r : Router fl bq) → Step r (remove_route fl bq o i fade r)
    removes_output :
        (o fade : ℕ) (r : Router fl bq) → Step r (remove_all_output_routes fl bq o fade r)
    removes_input :
        (i fade : ℕ) (r : Router fl bq) → Step r (remove_all_input_routes fl bq i fade r)
    finishes : {r r' : Router fl bq} → finish_block fl bq r ≡ some r' → Step r r'
    drops_output :
        (o : ℕ) {r r' : Router fl bq} → unregister_output_handle fl bq o r ≡ some r' → Step r r'
    drops_input :
        (i : ℕ) {r r' : Router fl bq} → unregister_input_handle fl bq i r ≡ some r' → Step r r'

  pub data Reach (r : Router fl bq) : Router fl bq → Type 0 where
    here : Reach r r
    next : {s t : Router fl bq} → Reach r s → Step s t → Reach r t

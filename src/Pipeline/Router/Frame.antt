-- ===== src/Pipeline/Router/Frame.antt =====
-- What the supervisor's branches leave alone.
use backend_pae_account_mult.Prelude.{arith}
use backend_pae_account_mult.Pipeline.State.{AgentState}
use backend_pae_account_mult.Pipeline.Validator.{Schemas}
use backend_pae_account_mult.Pipeline.Puc.{PucDb}
use backend_pae_account_mult.Pipeline.Nodes.{validate_contador_output_node}
use backend_pae_account_mult.Pipeline.Nodes.Frame.{Kept, Kept-trans, validate_contador-Kept}
use backend_pae_account_mult.Pipeline.Router.{after_contador, route_contador}

after_contador-Kept : (s : AgentState) → Kept s (after_contador s)
unfolding after_contador
after_contador-Kept s = ground arith

pub route_contador-Kept :
    (schemas : Schemas) (db : PucDb) (s : AgentState) → Kept s (route_contador schemas db s)
unfolding route_contador
route_contador-Kept schemas db s =
    Kept-trans (validate_contador-Kept schemas db s)
      (after_contador-Kept (validate_contador_output_node schemas db s))

-- ===== src/Hub/Store.antt =====
-- contracts/cavern-lsd-hub/src/state.rs: the three items, each absent until it is saved.
use cavern_lsd_wrapper.Base.{Option}
use cavern_lsd_wrapper.Basset.Hub.{Config, Parameters, State}

pub record Store : Type 0 where
  pub config : Option Config
  pub parameters : Option Parameters
  pub state : Option State

-- ===== src/Deployment.antt =====
-- What a wrapper runs on: its host, the token that it wraps, and the token library, as the section
-- parameter of both wrapper packages.
use cavern_lsd_wrapper.Host.{Host}
use cavern_lsd_wrapper.LsdHub.Trait.{LsdHub}
use cavern_lsd_wrapper.Cw20.{Cw20}

pub record Deployment (I T S : Type 0) : Type 0 where
  pub host : Host
  pub hub : LsdHub I T
  pub cw20 : Cw20 S

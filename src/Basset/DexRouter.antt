-- ===== src/Basset/DexRouter.antt =====
-- packages/basset/src/dex_router.rs: the messages of the three swap routers.
use cavern_lsd_wrapper.Base.{String, Bool, Option, List, [], ◌∷◌}
use cavern_lsd_wrapper.Std.{Uint128, Decimal, Addr, Opaque}

pub data AssetInfo : Type 0 where
  token : Addr → AssetInfo
  native_token : String → AssetInfo

pub data SwapOperation : Type 0 where
  native_swap : String → String → SwapOperation
  astro_swap terra_swap token_swap : AssetInfo → AssetInfo → SwapOperation

-- `receive` carries a message of the cw20 library. The contracts build `execute_swap_operations`: the
-- operations, the minimum to receive, the receiver and the maximal spread.
pub data ExecuteMsg : Type 0 where
  receive : Opaque → ExecuteMsg
  execute_swap_operations :
      List SwapOperation → Option Uint128 → Option String → Option Decimal → ExecuteMsg
  execute_swap_operation : SwapOperation → Option String → Option Decimal → Bool → ExecuteMsg
  assert_minimum_receive : AssetInfo → Uint128 → Uint128 → String → ExecuteMsg

pub data QueryMsg : Type 0 where
  config : QueryMsg
  simulate_swap_operations : Uint128 → List SwapOperation → QueryMsg

pub record ConfigResponse : Type 0 where
  pub astroport_factory : String

pub record SimulateSwapOperationsResponse : Type 0 where
  pub amount : Uint128

pub data SwapMessageType : Type 0 where
  astroport phoenix terra_swap_router : SwapMessageType

-- `SwapMessageType::iter()`, the variants in the order of their declaration.
abbrev pub swap_message_types : List SwapMessageType
swap_message_types = astroport ∷ phoenix ∷ terra_swap_router ∷ []

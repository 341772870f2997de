-- ===== src/Update.antt =====
-- The global update across the contracts: the hub (contracts/cavern-lsd-hub) sends the wrapper
-- a decompounding, then the reward contract its swap, and the chain delivers both in this order with
-- the hub as the sender, to whichever of the wrappers and of the reward contracts is deployed.
pub mod Delivery
pub mod Safety
pub mod Lp
use cavern_lsd_wrapper.Base.{
  String, Option, none, some, List, [], ◌∷◌, ◌++◌, ◌==◌, string_eq, if◌then◌else◌, ok, err, panic,
  Outcome, ContractResult, StdResult,
}
use cavern_lsd_wrapper.Std.{
  Addr, Binary, Coin, CosmosMsg, wasm_execute, bank_send, MessageInfo, Response, SubMsg,
}
use cavern_lsd_wrapper.Basset.Wrapper
use cavern_lsd_wrapper.Basset.Reward
use cavern_lsd_wrapper.Basset.Payload.{Payload, wrapper_execute, reward_execute}

-- The storages of the wrapper and of the reward contract, and the messages that each has sent.
pub record Parties (W Q : Type 0) : Type 0 where
  pub wrapper : W
  pub rewards : Q
  pub payments : List SubMsg
  pub swaps : List SubMsg

-- The addresses, and the deserialization.
pub record Routes : Type 0 where
  pub decode : Binary → Option Payload
  pub hub_addr : Addr
  pub token_addr : Addr
  pub reward_addr : Addr

-- What the chain adds: where a message goes, and the two contracts with what each call is given.
pub record Chain (W Q : Type 0) : Type 0 where
  pub routes : Routes
  pub open routes use *
  pub run_wrapper : W → MessageInfo → Wrapper.ExecuteMsg → ContractResult (W × Response)
  pub run_rewards : Q → MessageInfo → Reward.ExecuteMsg → StdResult (Q × Response)

-- A call that does not succeed aborts the transaction.
abbrev pub succeeded {ℓ κ} : {E : Type ℓ} {A : Type κ} → Outcome E A → Option A
succeeded (ok a) = some a
succeeded (err e) = none
succeeded panic = none

abbrev pub then_some {κ μ} : {A : Type κ} {B : Type μ} → Option A → (A → Option B) → Option B
then_some none k = none
then_some (some a) k = k a

module _ {W Q : Type 0} (c : Chain W Q) where
  abbrev pub to_wrapper : Option Payload → List Coin → Parties W Q → Option (Parties W Q)
  to_wrapper (some (wrapper_execute m)) coins st =
      then_some
        (succeeded (c.run_wrapper st.wrapper (record { sender = c.hub_addr; funds = coins }) m))
        (λ (s, r). some (record st { wrapper = s; payments = st.payments ++ r.messages }))
  to_wrapper _ coins st = none

  abbrev pub to_rewards : Option Payload → List Coin → Parties W Q → Option (Parties W Q)
  to_rewards (some (reward_execute m)) coins st =
      then_some
        (succeeded (c.run_rewards st.rewards (record { sender = c.hub_addr; funds = coins }) m))
        (λ (s, r). some (record st { rewards = s; swaps = st.swaps ++ r.messages }))
  to_rewards _ coins st = none

  -- The delivery of one message of the hub, and of all in their order.
  unfoldable pub deliver : CosmosMsg → Parties W Q → Option (Parties W Q)
  deliver (wasm_execute target b coins) st =
      if target == c.token_addr
      then to_wrapper (c.decode b) coins st
      else if target == c.reward_addr
      then to_rewards (c.decode b) coins st
      else none
  deliver (bank_send to coins) st = none

  unfoldable pub deliver_all : List SubMsg → Parties W Q → Option (Parties W Q)
  deliver_all [] st = some st
  deliver_all (m ∷ ms) st = then_some (deliver m.msg st) (λ st'. deliver_all ms st')

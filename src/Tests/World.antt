-- ===== src/Tests/World.antt =====
-- A concrete chain: decimals of 18 digits in 128 bits, a wrapped amp[LP] token, and a token library
-- that keeps the supply alone.
use cavern_lsd_wrapper.Base.{
  ℕ, ◌+◌, ◌-◌, String, none, some, [], ◌∷◌, leb, if◌then◌else◌, ok, err, not_found, other_cw20,
  arith,
}
use cavern_lsd_wrapper.Std.{Env, MessageInfo, empty_response}
use cavern_lsd_wrapper.Std.Decimals.{Documented, rounding_down, rounding_down-Documented}
use cavern_lsd_wrapper.Host.{Host}
use cavern_lsd_wrapper.Cw20.{Cw20, TokenInfo}
use cavern_lsd_wrapper.Deployment.{Deployment}
use cavern_lsd_wrapper.LsdHub.Amp.{ContractsRaw, AmphHub, amp_hub}
use cavern_lsd_wrapper.Token.Store
use cavern_lsd_wrapper.Token.Deployed.{total}

abbrev pub one : ℕ
one = 1000000000000000000

abbrev pub capacity : ℕ
capacity = 340282366920938463463374607431768211456

-- The host of a wrapper that holds `held` tokens at the rate `rate`.
abbrev pub host : ℕ → ℕ → Host
host rate held = record {
  decimals = rounding_down one capacity;
  try_into_uint128 = λ n. ok n;
  decimal_places = 18;
  from_atomics = λ n places. ok n;
  uint_to_string = λ n. "a number";
  coin_to_string = λ c. c.denom;
  coins_to_debug = λ cs. "coins";
  error_to_string = λ e. "an error";
  addr_validate = λ a. ok a;
  to_binary = λ m. ok "a message";
  query_balance = λ a denom. ok (record { denom = denom; amount = held });
  query_all_balances = λ a. ok (record { denom = "uluna"; amount = held } ∷ []);
  smart_cw20_balance = λ a q. ok held;
  smart_price = λ a q. err not_found;
  smart_simulation = λ a q. err not_found;
  smart_ctoken_state = λ a q. err not_found;
  smart_user_info = λ a q. err not_found;
  smart_reward_info = λ a q. err not_found;
  smart_eris_state = λ a q. ok (record {
    total_lp = 0;
    total_amp_lp = 0;
    exchange_rate = rate;
    pair_contract = "pair";
    locked_assets = [];
    user_info = none;
  });
  smart_liquidity_token = λ a q. ok "lp";
}

abbrev pub supply_info : ℕ → TokenInfo
supply_info supply = record { name = "wrapped"; symbol = "W"; decimals = 6; total_supply = supply }

abbrev pub supply_library : Cw20 ℕ
supply_library = record {
  instantiate = λ s env info msg. ok (total msg.initial_balances, empty_response);
  transfer = λ s env info to amount. ok (s, empty_response);
  burn = λ s env info amount.
      if leb amount s then ok (s - amount, empty_response) else err (other_cw20 "too much");
  mint = λ s env info to amount. ok (s + amount, empty_response);
  send = λ s env info to amount msg. ok (s, empty_response);
  increase_allowance = λ s env info to amount expires. ok (s, empty_response);
  decrease_allowance = λ s env info to amount expires. ok (s, empty_response);
  transfer_from = λ s env info owner to amount. ok (s, empty_response);
  burn_from = λ s env info owner amount.
      if leb amount s then ok (s - amount, empty_response) else err (other_cw20 "too much");
  send_from = λ s env info owner to amount msg. ok (s, empty_response);
  update_minter = λ s env info minter. ok (s, empty_response);
  update_marketing = λ s env info a b c. ok (s, empty_response);
  upload_logo = λ s env info logo. ok (s, empty_response);
  query = λ s env q. ok "a reply";
  query_token_info = λ s. ok (supply_info s);
  query_balance = λ s a. ok s;
}

abbrev pub deployment : ℕ → ℕ → Deployment ContractsRaw AmphHub ℕ
deployment rate held = record { host = host rate held; hub = amp_hub; cw20 = supply_library }

abbrev pub config : AmphHub
config = record { contracts = record { token = "amp"; hub = "eris" } }

abbrev pub store : ℕ → Store.Store AmphHub ℕ
store supply = record { lsd_config = some config; hub_contract = some "hub"; cw20 = supply }

abbrev pub env : Env
env = record { nanos = 1700000000000000000; contract = "wrapper" }

abbrev pub info : String → MessageInfo
info sender = record { sender = sender; funds = [] }

pub documented : Documented (rounding_down one capacity) capacity
documented = rounding_down-Documented one capacity (omega arith)

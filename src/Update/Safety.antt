-- ===== src/Update/Safety.antt =====
-- What a global update that goes through has done to the wrapper and to the reward contract.
use cavern_lsd_wrapper.Base.{ℕ, ◌*◌, ◌≤◌, ◌≡◌, ◌≢◌, subst, ap, some, List, [], ok, string_eq}
use cavern_lsd_wrapper.Base.Each.{Each}
use cavern_lsd_wrapper.Std.{Binary, Env, seconds_of, MessageInfo, Response, SubMsg}
use cavern_lsd_wrapper.Std.Decimals.{Documented}
use cavern_lsd_wrapper.Basset.Hub
use cavern_lsd_wrapper.Basset.Wrapper
use cavern_lsd_wrapper.Basset.Reward
use cavern_lsd_wrapper.Basset.Payload.{wrapper_execute, reward_execute}
use cavern_lsd_wrapper.Host.{Host}
use cavern_lsd_wrapper.Deployment.{Deployment}
use cavern_lsd_wrapper.Cw20.{TokenInfo}
use cavern_lsd_wrapper.Custody.{Custody}
use cavern_lsd_wrapper.Custody.Tokens.{Decodes}
use cavern_lsd_wrapper.Hub.Store.{Store as HubStore}
use cavern_lsd_wrapper.Hub.Contract.{execute as hub_execute}
use cavern_lsd_wrapper.Token.Store.{Store}
use cavern_lsd_wrapper.Token.Contract.{execute}
use cavern_lsd_wrapper.Token.Solvency.Payout.{decompound_backed}
use cavern_lsd_wrapper.Reward.Store.{Store as RewardStore, Config}
use cavern_lsd_wrapper.Reward.Contract.{execute as reward_contract_execute}
use cavern_lsd_wrapper.Reward.Swapped.{KeepsDenom, swap-KeepsDenom}
use cavern_lsd_wrapper.Update.{Parties, Routes, Chain, deliver_all}
use cavern_lsd_wrapper.Update.Delivery.{two_calls, update_delivered}

-- The wrapper without a limit, and the reward contract.
abbrev pub plain :
    {I T S : Type 0} → Routes → Deployment I T S → Env → Host → Env → Chain (Store T S) RewardStore
plain routes p env h reward_env = record {
  routes = routes;
  run_wrapper = λ s info msg. execute p s env info msg;
  run_rewards = λ q info msg. reward_contract_execute h q reward_env info msg;
}

module _ {I T S : Type 0} (c : Routes) (p : Deployment I T S) (wrapper_env : Env)
    (reward_host : Host) (reward_env : Env) (cap : ℕ) (doc : Documented p.host.decimals cap)
    (supply : S → ℕ) (cfg : T) (custody : Custody p.hub cfg) where
  -- The call by the hub, which sends no funds.
  abbrev by_hub : MessageInfo
  by_hub = record { sender = c.hub_addr; funds = [] }

  -- A global update, whoever asks for it, that goes through and whose payments are executed: the
  -- hub records the time and sends two calls, the decompounding to the reward contract and then the
  -- swap, and both contracts have executed theirs and sent their messages. It keeps the storage
  -- of the wrapper and leaves its supply backed, where it was, and keeps the storage
  -- of the reward contract, whose messages send none of the reward denomination.
  pub update_global-backed :
      (h : Host) (hs hs' : HubStore) (env : Env) (info : MessageInfo) (conf : Hub.Config)
      (state : Hub.State) (decompound swap : Binary) (sent : Response) (w : Store T S)
      (q : RewardStore) (rc : Config) (st' : Parties (Store T S) RewardStore) (rate held held' : ℕ)
      → Decodes c.decode h
      → hs.config ≡ some conf
      → hs.state ≡ some state
      → conf.reward_contract ≡ some c.reward_addr
      → conf.token_contract ≡ some c.token_addr
      → c.reward_addr ≢ c.token_addr
      → h.to_binary (wrapper_execute (Wrapper.ExecuteMsg.decompound (some c.reward_addr)))
        ≡ ok decompound
      → h.to_binary (reward_execute Reward.ExecuteMsg.swap_to_reward_denom) ≡ ok swap
      → w.lsd_config ≡ some cfg
      → q.config ≡ some rc
      → custody.Runs p.host
      → p.hub.query_exchange_rate cfg p.host wrapper_env ≡ ok rate
      → p.hub.get_balance cfg p.host wrapper_env wrapper_env.contract ≡ ok held
      → ((i : TokenInfo) → p.cw20.query_token_info w.cw20 ≡ ok i → i.total_supply ≡ supply w.cw20)
      → supply w.cw20 * p.host.one ≤ held * rate
      → hub_execute h hs env info Hub.ExecuteMsg.update_global_index ≡ ok (hs', sent)
      → deliver_all
          (plain c p wrapper_env reward_host reward_env)
          sent.messages
          (record { wrapper = w; rewards = q; payments = []; swaps = [] })
        ≡ some st'
      → custody.After wrapper_env by_hub st'.payments held held'
      → (hs' ≡ record hs {
        state = some (record state { last_index_modification = seconds_of env.nanos });
      })
        × (sent.messages ≡ two_calls c decompound swap)
        × ((r : Response) × (v : Response) × (execute p w wrapper_env by_hub
                (Wrapper.ExecuteMsg.decompound (some c.reward_addr))
              ≡ ok (st'.wrapper, r))
            × (reward_contract_execute reward_host q reward_env by_hub
                  Reward.ExecuteMsg.swap_to_reward_denom
                ≡ ok (st'.rewards, v))
            × (st'.payments ≡ r.messages)
            × (st'.swaps ≡ v.messages))
        × (st'.wrapper ≡ w)
        × (supply st'.wrapper.cw20 * p.host.one ≤ held' * rate)
        × (st'.rewards ≡ q)
        × Each (λ (m : SubMsg). KeepsDenom rc.reward_denom m.msg) st'.swaps
  unfolding execute
  update_global-backed h hs hs' env info conf state decompound swap sent w q rc st' rate held held'
        decodes has_conf has_state has_reward has_token apart written asked configured rewarded runs
        rated holds supplied backed updated done after =
      let (recorded, calls, (s, r, q', v, paid, swapped, reached)) =
        update_delivered (plain c p wrapper_env reward_host reward_env) h hs hs' env info conf state
          decompound swap sent (record { wrapper = w; rewards = q; payments = []; swaps = [] }) st'
          decodes has_conf has_state has_reward has_token apart written asked updated done in
      let (kept, now) =
        decompound_backed p cap doc w wrapper_env cfg rate held supply configured rated holds
          supplied custody runs by_hub (some c.reward_addr) s r held' paid
          (subst (λ (l : List SubMsg). custody.After wrapper_env by_hub l held held')
            (ap (λ (z : Parties (Store T S) RewardStore). z.payments) reached) after)
          backed in
      let (asker, held_store, quiet) =
        swap-KeepsDenom reward_host q q' reward_env by_hub rc v rewarded swapped in
      (
        recorded,
        calls,
        (r, v, rw reached paid, rw reached swapped, rw reached, rw reached),
        rw reached kept,
        rw (reached, kept) now,
        rw reached held_store,
        rw reached quiet,
      )

-- ===== src/Update/Delivery.antt =====
-- The delivery of the two messages of a global update.
use cavern_lsd_wrapper.Base.{
  ◌≡◌, ◌≢◌, some, List, [], ◌∷◌, ◌++◌, map, ok, arith, eq_self, ne→eq_false, Outcome-cases, inl,
  inr, subst, string_eq,
}
use cavern_lsd_wrapper.Std.{
  Binary, Env, seconds_of, MessageInfo, Response, SubMsg, sub_msg, wasm_execute,
}
use cavern_lsd_wrapper.Basset.Hub
use cavern_lsd_wrapper.Basset.Wrapper
use cavern_lsd_wrapper.Basset.Reward
use cavern_lsd_wrapper.Basset.Payload.{wrapper_execute, reward_execute}
use cavern_lsd_wrapper.Host.{Host}
use cavern_lsd_wrapper.Custody.Tokens.{Decodes}
use cavern_lsd_wrapper.Hub.Store.{Store as HubStore}
use cavern_lsd_wrapper.Hub.Contract.{execute as hub_execute}
use cavern_lsd_wrapper.Hub.Authority.{update_global-sends}
use cavern_lsd_wrapper.Update.{Parties, Routes, Chain, deliver, deliver_all}

-- The two calls of the hub: the decompounding of the wrapper, and then the swap.
abbrev pub two_calls : Routes → Binary → Binary → List SubMsg
two_calls c decompound swap =
    map sub_msg (wasm_execute c.token_addr decompound [] ∷ wasm_execute c.reward_addr swap [] ∷ [])

module _ {W Q : Type 0} (c : Chain W Q) where
  -- The call by the hub, which sends no funds.
  abbrev pub by_hub : MessageInfo
  by_hub = record { sender = c.hub_addr; funds = [] }

  -- Two calls that are delivered are executed in their order, each with the hub as the sender.
  both_delivered :
      (st st' : Parties W Q) (b d : Binary) (m : Wrapper.ExecuteMsg) (n : Reward.ExecuteMsg)
      → c.reward_addr ≢ c.token_addr
      → c.decode b ≡ some (wrapper_execute m)
      → c.decode d ≡ some (reward_execute n)
      → deliver_all c
          (map sub_msg (wasm_execute c.token_addr b [] ∷ wasm_execute c.reward_addr d [] ∷ []))
          st
        ≡ some st'
      → (s : W) × (r : Response) × (q : Q) × (v : Response) × (c.run_wrapper st.wrapper by_hub m
          ≡ ok (s, r))
        × (c.run_rewards st.rewards by_hub n ≡ ok (q, v))
        × (st' ≡ record {
          wrapper = s;
          rewards = q;
          payments = st.payments ++ r.messages;
          swaps = st.swaps ++ v.messages;
        })
  unfolding deliver deliver_all
  both_delivered st st' b d m n apart first second done =
      elim (Outcome-cases (c.run_wrapper st.wrapper by_hub m)) [
        | inr fails ↦ ground (
          arith,
          first,
          second,
          eq_self c.token_addr,
          eq_self c.reward_addr,
          ne→eq_false c.reward_addr c.token_addr apart,
        )
        | inl ((s, r), paid) ↦ elim (Outcome-cases (c.run_rewards st.rewards by_hub n)) [
          | inr fails ↦ ground (
            arith,
            first,
            second,
            eq_self c.token_addr,
            eq_self c.reward_addr,
            ne→eq_false c.reward_addr c.token_addr apart,
          )
          | inl ((q, v), swapped) ↦ (
            s,
            r,
            q,
            v,
            paid,
            swapped,
            ground (
              arith,
              first,
              second,
              eq_self c.token_addr,
              eq_self c.reward_addr,
              ne→eq_false c.reward_addr c.token_addr apart,
            ),
          )
        ]
      ]

  -- A global update of the hub that goes through: both calls have succeeded, in this order.
  pub update_delivered :
      (h : Host) (hs hs' : HubStore) (env : Env) (info : MessageInfo) (conf : Hub.Config)
      (state : Hub.State) (decompound swap : Binary) (sent : Response) (st st' : Parties W Q)
      → Decodes c.decode h
      → hs.config ≡ some conf
      → hs.state ≡ some state
      → conf.reward_contract ≡ some c.reward_addr
      → conf.token_contract ≡ some c.token_addr
      → c.reward_addr ≢ c.token_addr
      → h.to_binary (wrapper_execute (Wrapper.ExecuteMsg.decompound (some c.reward_addr)))
        ≡ ok decompound
      → h.to_binary (reward_execute Reward.ExecuteMsg.swap_to_reward_denom) ≡ ok swap
      → hub_execute h hs env info Hub.ExecuteMsg.update_global_index ≡ ok (hs', sent)
      → deliver_all c sent.messages st ≡ some st'
      → (hs' ≡ record hs {
        state = some (record state { last_index_modification = seconds_of env.nanos });
      })
        × (sent.messages ≡ two_calls c.routes decompound swap)
        × ((s : W) × (r : Response) × (q : Q) × (v : Response) × (c.run_wrapper st.wrapper by_hub
                (Wrapper.ExecuteMsg.decompound (some c.reward_addr))
              ≡ ok (s, r))
            × (c.run_rewards st.rewards by_hub Reward.ExecuteMsg.swap_to_reward_denom ≡ ok (q, v))
            × (st' ≡ record {
              wrapper = s;
              rewards = q;
              payments = st.payments ++ r.messages;
              swaps = st.swaps ++ v.messages;
            }))
  unfolding Decodes
  update_delivered h hs hs' env info conf state decompound swap sent st st' decodes has_conf
        has_state has_reward has_token apart written asked updated done =
      let sends =
        update_global-sends h hs env info conf state c.reward_addr c.token_addr decompound swap
          has_conf has_state has_reward has_token written asked in
      let same : sent.messages ≡ two_calls c.routes decompound swap =
        ground (arith, updated, sends) in
      (
        ground (arith, updated, sends),
        same,
        both_delivered st st' decompound swap (Wrapper.ExecuteMsg.decompound (some c.reward_addr))
            Reward.ExecuteMsg.swap_to_reward_denom apart (decodes _ decompound written)
            (decodes _ swap asked)
            (subst (λ (l : List SubMsg). deliver_all c l st ≡ some st') same done),
      )

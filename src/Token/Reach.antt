-- ===== src/Token/Reach.antt =====
-- The wrapper over time: its storage, what it holds, and the rate of what it holds, as calls,
-- rewards and gifts change them.
use native.Mathlib.Nat.{mul-le-mul_left, mul-le-mul_right}
use cavern_lsd_wrapper.Base.{
  ℕ, ◌*◌, ◌≤◌, ◌≡◌, ◌≢◌, some, [], ok, false, arith, String, Option, subst, ap, ◌∙◌,
}
use cavern_lsd_wrapper.Std.{Env, MessageInfo, Response}
use cavern_lsd_wrapper.Std.Decimals.{Decimals, Documented}
use cavern_lsd_wrapper.Basset.Wrapper
use cavern_lsd_wrapper.Basset.Wrapper.{ExecuteMsg, is_decompound}
use cavern_lsd_wrapper.Host.{Host}
use cavern_lsd_wrapper.Cw20.{Cw20}
use cavern_lsd_wrapper.Cw20.Supply.{Supplies}
use cavern_lsd_wrapper.LsdHub.Trait.{LsdHub}
use cavern_lsd_wrapper.Custody.{Custody}
use cavern_lsd_wrapper.Deployment.{Deployment}
use cavern_lsd_wrapper.Token.Store.{Store}
use cavern_lsd_wrapper.Token.Contract.{execute}
use cavern_lsd_wrapper.Token.Decompound.{execute_decompound}
use cavern_lsd_wrapper.Token.Solvency.Payout.{decompound_backed}
use cavern_lsd_wrapper.Token.Solvency.Messages.{message_backed, config_kept}

pub record World (T S : Type 0) : Type 0 where
  pub store : Store T S
  pub held : ℕ
  pub rate : ℕ

module _ {I T S : Type 0} (hub : LsdHub I T) (cw20 : Cw20 S) (cfg : T) (custody : Custody hub cfg)
    (d : Decimals) where
  abbrev pub on : Host → Deployment I T S
  on h = record { host = h; hub = hub; cw20 = cw20 }

  -- A change of the world. The host of a call answers with the rate, and a decompounding also with
  -- the holdings; the call's messages are executed. Between calls the rate may grow, and anyone may
  -- send the wrapper more of the token.
  pub data Step : World T S → World T S → Type 0 where
    called :
        (w : World T S) (h : Host) (env : Env) (info : MessageInfo) (msg : ExecuteMsg)
        (s' : Store T S) (r : Response) (held' : ℕ)
        → h.decimals ≡ d
        → custody.Runs h
        → hub.query_exchange_rate cfg h env ≡ ok w.rate
        → info.sender ≢ env.contract
        → is_decompound msg ≡ false
        → execute (on h) w.store env info msg ≡ ok (s', r)
        → custody.After env info r.messages w.held held'
        → Step w (record { store = s'; held = held'; rate = w.rate })
    decompounded :
        (w : World T S) (h : Host) (env : Env) (info : MessageInfo) (recipient : Option String)
        (s' : Store T S) (r : Response) (held' : ℕ)
        → h.decimals ≡ d
        → custody.Runs h
        → hub.query_exchange_rate cfg h env ≡ ok w.rate
        → hub.get_balance cfg h env env.contract ≡ ok w.held
        → info.funds ≡ []
        → execute (on h) w.store env info (Wrapper.ExecuteMsg.decompound recipient) ≡ ok (s', r)
        → custody.After env info r.messages w.held held'
        → Step w (record { store = s'; held = held'; rate = w.rate })
    earned : (w : World T S) (rate' : ℕ) → w.rate ≤ rate' → Step w (record w { rate = rate' })
    donated : (w : World T S) (held' : ℕ) → w.held ≤ held' → Step w (record w { held = held' })

  pub data Run (w : World T S) : World T S → Type 0 where
    here : Run w w
    next : {u v : World T S} → Run w u → Step u v → Run w v

  module _ (supply : S → ℕ) where
    -- The configuration is stored, and the supply is worth at most what the wrapper holds.
    pub record IsSolvent (w : World T S) : Type 0 where
      pub configured : w.store.lsd_config ≡ some cfg
      pub backed : supply w.store.cw20 * d.one ≤ w.held * w.rate

    module _ (cap : ℕ) (doc : Documented d cap) (laws : Supplies cw20 supply custody.Quiet) where
      Step-IsSolvent : {w v : World T S} → Step w v → IsSolvent w → IsSolvent v
      unfolding execute execute_decompound
      Step-IsSolvent (called w h env info msg s' r held' same runs rated stranger other done after)
            i =
          let doc' : Documented h.decimals cap = rw same doc in
          let scale : h.one ≡ d.one = ap (λ (z : Decimals). z.one) same in
          let backed' : supply w.store.cw20 * h.one ≤ w.held * w.rate = rw scale i.backed in
          let now =
            message_backed (on h) cap doc' w.store env info cfg w.rate i.configured rated supply
              custody laws runs stranger w.held held' s' r after backed' msg other done in
          record {
            configured = config_kept (on h) w.store s' env info msg r other done ∙ i.configured;
            backed = subst (λ (o : ℕ). supply s'.cw20 * o ≤ held' * w.rate) scale now;
          }
      Step-IsSolvent
            (decompounded w h env info recipient s' r held' same runs rated holds unpaid done after)
            i =
          let doc' : Documented h.decimals cap = rw same doc in
          let scale : h.one ≡ d.one = ap (λ (z : Decimals). z.one) same in
          let backed' : supply w.store.cw20 * h.one ≤ w.held * w.rate = rw scale i.backed in
          let (kept, now) =
            decompound_backed (on h) cap doc' w.store env cfg w.rate w.held supply i.configured
              rated holds (laws.info_law w.store.cw20) custody runs info recipient s' r held' done
              after backed' in
          record {
            configured = ap (λ (z : Store T S). z.lsd_config) kept ∙ i.configured;
            backed =
                rw kept (subst (λ (o : ℕ). supply w.store.cw20 * o ≤ held' * w.rate) scale now);
          }
      Step-IsSolvent (earned w rate' grown) i = record {
        configured = i.configured;
        backed = omega (arith, i.backed, mul-le-mul_left w.held grown);
      }
      Step-IsSolvent (donated w held' grown) i = record {
        configured = i.configured;
        backed = omega (arith, i.backed, mul-le-mul_right w.rate grown);
      }

      -- A wrapper that is solvent stays solvent, whatever calls succeed, as long as the rate of
      -- what it holds does not fall.
      pub Run-IsSolvent : {w v : World T S} → Run w v → IsSolvent w → IsSolvent v
      Run-IsSolvent here i = i
      Run-IsSolvent (next r s) i = Step-IsSolvent s (Run-IsSolvent r i)

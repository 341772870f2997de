-- ===== src/Custody/Implementations.antt =====
-- The four implementations of LSDHub keep what the trait promises of the holdings
-- (contracts/amp-lp-wrapper, contracts/spectrum-wrapper, packages/wrapper_implementations/src).
use cavern_lsd_wrapper.Base.{
  ℕ, ◌≡◌, Option, some, List, [], ◌∷◌, ◌++◌, map, ok, string_eq, eq_self, StdResult, ◌>>=◌,
  bind_succeeded, subst, String,
}
use cavern_lsd_wrapper.Std.{Addr, Binary, CosmosMsg, wasm_execute, Env, MessageInfo, sub_msg}
use cavern_lsd_wrapper.Basset.Payload.{Payload, cw20_transfer, cw20_transfer_from}
use cavern_lsd_wrapper.Basset.External.{LsdStateResponseTrait}
use cavern_lsd_wrapper.Host.{Host}
use cavern_lsd_wrapper.Custody.{Custody}
use cavern_lsd_wrapper.Custody.Tokens.{
  token_custody, CallsToken, Decodes, message_moves, payload_moves,
}
use cavern_lsd_wrapper.Custody.Moves.{Move, moves_of}
use cavern_lsd_wrapper.LsdHub.Amp
use cavern_lsd_wrapper.LsdHub.Spectrum
use cavern_lsd_wrapper.LsdHub.Steak

module _ (decode : Binary → Option Payload) (self : Addr) where
  module _ (h : Host) (token : Addr) (m : Payload) (ms : List CosmosMsg) where
    -- A body that serializes `m` and calls the token.
    pub calls_token :
        (h.to_binary m >>= λ b. ok (wasm_execute token b [] ∷ [])) ≡ ok ms
        → CallsToken decode self token h m ms
    calls_token made =
        let (b, e, same) =
          bind_succeeded (h.to_binary m) (λ b. ok (wasm_execute token b [] ∷ [])) made in
        (b, e, cc)

  -- The call succeeds, and its messages make exactly the given transfers of `token`.
  abbrev pub MovesOnly : Addr → StdResult (List CosmosMsg) → List Move → Type 0
  MovesOnly token made moves =
      (ms : List CosmosMsg) × (made ≡ ok ms)
      × (moves_of (message_moves decode self token) (map sub_msg ms) ≡ moves)

  calls-MovesOnly :
      (h : Host) (token : Addr) (m : Payload) (b : Binary)
      → Decodes decode h
      → h.to_binary m ≡ ok b
      → MovesOnly token
          (h.to_binary m >>= λ b. ok (wasm_execute token b [] ∷ []))
          (payload_moves decode self token (some m) ++ [])
  unfolding Decodes
  calls-MovesOnly h token m b serial made =
      (wasm_execute token b [] ∷ [], rw made, simp (eq_self token, serial m b made))

  unfoldable pub amp_custody : (cfg : Amp.AmphHub) → Custody Amp.amp_hub cfg
  unfolding Amp.deposit_funds Amp.send_funds token_custody
  amp_custody cfg =
      token_custody decode self cfg.contracts.token Amp.amp_hub cfg
        (λ h env info n from ms made.
          calls_token h cfg.contracts.token (cw20_transfer_from from env.contract n) ms made)
        (λ h env n to ms made. calls_token h cfg.contracts.token (cw20_transfer to n) ms made)

  unfoldable pub spectrum_custody : (cfg : Spectrum.SpectrumHub) → Custody Spectrum.spectrum_hub cfg
  unfolding Spectrum.deposit_funds Spectrum.send_funds token_custody
  spectrum_custody cfg =
      token_custody decode self cfg.contracts.token Spectrum.spectrum_hub cfg
        (λ h env info n from ms made.
          calls_token h cfg.contracts.token (cw20_transfer_from from env.contract n) ms made)
        (λ h env n to ms made. calls_token h cfg.contracts.token (cw20_transfer to n) ms made)

  module _ {T : Type 0} (query_state : String → Binary → StdResult T)
      (t : LsdStateResponseTrait T) where
    unfoldable pub steak_custody :
        (cfg : Steak.SteakLsdHub) → Custody (Steak.steak_hub query_state t) cfg
    unfolding Steak.deposit_funds Steak.send_funds token_custody
    steak_custody cfg =
        token_custody decode self cfg.lsd_contracts.token (Steak.steak_hub query_state t) cfg
          (λ h env info n from ms made.
            calls_token h cfg.lsd_contracts.token (cw20_transfer_from from env.contract n) ms made)
          (λ h env n to ms made. calls_token h cfg.lsd_contracts.token (cw20_transfer to n) ms made)

  -- One transfer, from `from` to `to`.
  abbrev pub only_move : Addr → Addr → ℕ → List Move
  only_move from to n = record { payer = from; payee = to; amount = n } ∷ []

  -- The messages of each implementation over a cw20 token exist, and move exactly what is asked:
  -- those of a deposit move the amount from the depositor to the wrapper, those of a payment move
  -- it from the wrapper to the recipient, and nothing else of the token moves.
  pub deposit-send_moves :
      (h : Host) (env : Env) (info : MessageInfo) (n : ℕ) (other : Addr) (b c : Binary)
      (a : Amp.AmphHub) (s : Spectrum.SpectrumHub) (l : Steak.SteakLsdHub)
      → Decodes decode h
      → env.contract ≡ self
      → h.to_binary (cw20_transfer_from other env.contract n) ≡ ok b
      → h.to_binary (cw20_transfer other n) ≡ ok c
      → MovesOnly a.contracts.token
          (Amp.deposit_funds a h env info n other)
          (only_move other self n)
        × MovesOnly a.contracts.token (Amp.send_funds a h env n other) (only_move self other n)
        × MovesOnly s.contracts.token
            (Spectrum.deposit_funds s h env info n other)
            (only_move other self n)
        × MovesOnly s.contracts.token (Spectrum.send_funds s h env n other) (only_move self other n)
        × MovesOnly l.lsd_contracts.token
            (Steak.deposit_funds l h env info n other)
            (only_move other self n)
        × MovesOnly l.lsd_contracts.token
            (Steak.send_funds l h env n other)
            (only_move self other n)
  unfolding Amp.deposit_funds Amp.send_funds Spectrum.deposit_funds Spectrum.send_funds
      Steak.deposit_funds Steak.send_funds
  deposit-send_moves h env info n other b c a s l serial here made paid = (
    deposit a.contracts.token,
    payment a.contracts.token,
    deposit s.contracts.token,
    payment s.contracts.token,
    deposit l.lsd_contracts.token,
    payment l.lsd_contracts.token,
  )
    where
      deposit :
          (token : Addr)
          → MovesOnly token
              (h.to_binary (cw20_transfer_from other env.contract n) >>= λ b.
                ok (wasm_execute token b [] ∷ []))
              (only_move other self n)
      deposit token =
          subst
            (λ (to : Addr).
              MovesOnly token
                (h.to_binary (cw20_transfer_from other env.contract n) >>= λ b.
                  ok (wasm_execute token b [] ∷ []))
                (only_move other to n))
            here (calls-MovesOnly h token (cw20_transfer_from other env.contract n) b serial made)

      payment :
          (token : Addr)
          → MovesOnly token
              (h.to_binary (cw20_transfer other n) >>= λ b. ok (wasm_execute token b [] ∷ []))
              (only_move self other n)
      payment token = calls-MovesOnly h token (cw20_transfer other n) c serial paid

-- ===== src/Custody/Tokens.antt =====
-- The implementations of LSDHub over a cw20 token (contracts/amp-lp-wrapper,
-- contracts/spectrum-wrapper, packages/wrapper_implementations/src/steak.rs): what their messages
-- move. `decode` is the deserialization of the chain, `self` the wrapper's address.
use cavern_lsd_wrapper.Base.{
  ℕ, ◌+◌, ◌≤◌, ◌≡◌, ◌≢◌, refl, Option, some, List, [], ◌∷◌, ◌++◌, map, ok, ◌==◌, string_eq,
  if◌then◌else◌, eq_self, arith, subst, ◌∙◌,
}
use cavern_lsd_wrapper.Std.{
  Addr, Binary, CosmosMsg, wasm_execute, bank_send, Env, MessageInfo, SubMsg, sub_msg,
}
use cavern_lsd_wrapper.Basset.Payload.{Payload, cw20_transfer, cw20_transfer_from, cw20_send}
use cavern_lsd_wrapper.Host.{Host}
use cavern_lsd_wrapper.Custody.{Custody}
use cavern_lsd_wrapper.Custody.Moves.{
  Move, move_all, moves_of, moves_of-append, move_all-deposit, move_all-pay,
}
use cavern_lsd_wrapper.LsdHub.Trait.{LsdHub}

-- Deserialization gives back what a host of the chain serialized.
unfoldable pub Decodes : (Binary → Option Payload) → Host → Type 0
Decodes decode h = (m : Payload) (b : Binary) → h.to_binary m ≡ ok b → decode b ≡ some m

module _ (decode : Binary → Option Payload) (self token : Addr) where
  abbrev pub payload_moves : Option Payload → List Move
  payload_moves (some (cw20_transfer to n)) = record { payer = self; payee = to; amount = n } ∷ []
  payload_moves (some (cw20_transfer_from owner to n)) =
      record { payer = owner; payee = to; amount = n } ∷ []
  payload_moves (some (cw20_send to n b)) = record { payer = self; payee = to; amount = n } ∷ []
  payload_moves _ = []

  -- The transfers of the token that a message of `self` makes.
  abbrev pub message_moves : CosmosMsg → List Move
  message_moves (wasm_execute target b coins) =
      if target == token then payload_moves (decode b) else []
  message_moves (bank_send to coins) = []

  -- The call of the token with `m`, and nothing else.
  abbrev pub CallsToken : Host → Payload → List CosmosMsg → Type 0
  CallsToken h m ms = (b : Binary) × (h.to_binary m ≡ ok b) × (ms ≡ wasm_execute token b [] ∷ [])

  call_moves :
      (h : Host) (m : Payload) (ms : List CosmosMsg) (qs : List SubMsg)
      → Decodes decode h
      → moves_of message_moves qs ≡ []
      → CallsToken h m ms
      → moves_of message_moves (qs ++ map sub_msg ms) ≡ payload_moves (some m) ++ []
  unfolding Decodes
  call_moves h m ms qs serial quiet (b, made, called) =
      let decoded : decode b ≡ some m = serial m b made in
      rw called (
        moves_of-append message_moves qs (sub_msg (wasm_execute token b []) ∷ []) quiet
        ∙ rw (eq_self token, decoded))

  -- The holdings after a call: those of `self` after the transfers.
  abbrev pub AfterMoves : Env → MessageInfo → List SubMsg → ℕ → ℕ → Type 0
  AfterMoves env info ms a b =
      (env.contract ≡ self) × (move_all self (moves_of message_moves ms) a ≡ some b)

  pub quiet_keeps :
      (env : Env) (info : MessageInfo) (qs : List SubMsg) (a b : ℕ)
      → moves_of message_moves qs ≡ []
      → AfterMoves env info qs a b
      → a ≤ b
  quiet_keeps env info qs a b quiet (here, moved) =
      let same : some a ≡ some b =
        subst (λ (l : List Move). move_all self l a ≡ some b) quiet moved in
      ground arith

  pub deposit_grows :
      (h : Host) (env : Env) (info : MessageInfo) (n : ℕ) (ms : List CosmosMsg) (qs : List SubMsg)
      (a b : ℕ)
      → Decodes decode h
      → info.sender ≢ env.contract
      → moves_of message_moves qs ≡ []
      → CallsToken h (cw20_transfer_from info.sender env.contract n) ms
      → AfterMoves env info (qs ++ map sub_msg ms) a b
      → a + n ≤ b
  deposit_grows h env info n ms qs a b serial ne quiet called (here, moved) =
      let single =
        call_moves h (cw20_transfer_from info.sender env.contract n) ms qs serial quiet called in
      let moved' : move_all self
            (record { payer = info.sender; payee = env.contract; amount = n } ∷ []) a
          ≡ some b =
        subst (λ (l : List Move). move_all self l a ≡ some b) single moved in
      let moved'' : move_all self (record { payer = info.sender; payee = self; amount = n } ∷ []) a
          ≡ some b =
        subst
          (λ (c : Addr).
            move_all self (record { payer = info.sender; payee = c; amount = n } ∷ []) a ≡ some b)
          here moved' in
      let ne' : info.sender ≢ self = subst (λ (c : Addr). info.sender ≢ c) here ne in
      omega (arith, move_all-deposit self info.sender n a b ne' moved'')

  pub payment_bounded :
      (h : Host) (env : Env) (info : MessageInfo) (n : ℕ) (to : Addr) (ms : List CosmosMsg)
      (qs : List SubMsg) (a b : ℕ)
      → Decodes decode h
      → moves_of message_moves qs ≡ []
      → CallsToken h (cw20_transfer to n) ms
      → AfterMoves env info (qs ++ map sub_msg ms) a b
      → a ≤ b + n
  payment_bounded h env info n to ms qs a b serial quiet called (here, moved) =
      move_all-pay self to n a b (
        subst (λ (l : List Move). move_all self l a ≡ some b)
          (call_moves h (cw20_transfer to n) ms qs serial quiet called) moved)

  -- An implementation whose deposit and payment are calls of the token, as a custody.
  unfoldable pub token_custody :
      {I T : Type 0} (hub : LsdHub I T) (cfg : T)
      → ((h : Host) (env : Env) (info : MessageInfo) (n : ℕ) (from : Addr) (ms : List CosmosMsg)
          → hub.deposit_funds cfg h env info n from ≡ ok ms
          → CallsToken h (cw20_transfer_from from env.contract n) ms)
      → ((h : Host) (env : Env) (n : ℕ) (to : Addr) (ms : List CosmosMsg)
          → hub.send_funds cfg h env n to ≡ ok ms
          → CallsToken h (cw20_transfer to n) ms)
      → Custody hub cfg
  token_custody hub cfg deposit pay = record {
    Runs = Decodes decode;
    Quiet = λ qs. moves_of message_moves qs ≡ [];
    After = AfterMoves;
    quiet_none = refl;
    keeps = quiet_keeps;
    deposits = λ h env info n ms qs a b serial ne quiet made after.
        deposit_grows h env info n ms qs a b serial ne quiet
          (deposit h env info n info.sender ms made) after;
    pays = λ h env info n to ms qs a b serial quiet made after.
        payment_bounded h env info n to ms qs a b serial quiet (pay h env n to ms made) after;
  }

-- ===== src/Cw20/Supply.antt =====
-- What the wrappers rely on of `cw20_base`: how each call changes the total supply, and that no
-- call's own messages move the wrapped token (`Quiet`).
use cavern_lsd_wrapper.Base.{ℕ, ◌+◌, ◌≡◌, String, Option, List, ok}
use cavern_lsd_wrapper.Std.{Binary, Opaque, Env, MessageInfo, Response, SubMsg}
use cavern_lsd_wrapper.Cw20.{Cw20, TokenInfo}

-- A call that leaves the supply `n` as it is.
abbrev pub Keeps : {S : Type 0} → (S → ℕ) → (List SubMsg → Type 0) → ℕ → S × Response → Type 0
Keeps supply Quiet n r = (supply r.0 ≡ n) × Quiet r.1.messages

pub record Supplies {S : Type 0} (c : Cw20 S) (supply : S → ℕ) (Quiet : List SubMsg → Type 0)
    : Type 0 where
  pub info_law : (s : S) (i : TokenInfo) → c.query_token_info s ≡ ok i → i.total_supply ≡ supply s
  pub mint_law :
      (s : S) (env : Env) (info : MessageInfo) (to : String) (n : ℕ) (r : S × Response)
      → c.mint s env info to n ≡ ok r
      → Keeps supply Quiet (supply s + n) r
  pub burn_law :
      (s : S) (env : Env) (info : MessageInfo) (n : ℕ) (r : S × Response)
      → c.burn s env info n ≡ ok r
      → (supply r.0 + n ≡ supply s) × Quiet r.1.messages
  pub burn_from_law :
      (s : S) (env : Env) (info : MessageInfo) (owner : String) (n : ℕ) (r : S × Response)
      → c.burn_from s env info owner n ≡ ok r
      → (supply r.0 + n ≡ supply s) × Quiet r.1.messages
  pub transfer_law :
      (s : S) (env : Env) (info : MessageInfo) (to : String) (n : ℕ) (r : S × Response)
      → c.transfer s env info to n ≡ ok r
      → Keeps supply Quiet (supply s) r
  pub send_law :
      (s : S) (env : Env) (info : MessageInfo) (to : String) (n : ℕ) (m : Binary) (r : S × Response)
      → c.send s env info to n m ≡ ok r
      → Keeps supply Quiet (supply s) r
  pub increase_allowance_law :
      (s : S) (env : Env) (info : MessageInfo) (to : String) (n : ℕ) (e : Option Opaque)
      (r : S × Response)
      → c.increase_allowance s env info to n e ≡ ok r
      → Keeps supply Quiet (supply s) r
  pub decrease_allowance_law :
      (s : S) (env : Env) (info : MessageInfo) (to : String) (n : ℕ) (e : Option Opaque)
      (r : S × Response)
      → c.decrease_allowance s env info to n e ≡ ok r
      → Keeps supply Quiet (supply s) r
  pub transfer_from_law :
      (s : S) (env : Env) (info : MessageInfo) (owner to : String) (n : ℕ) (r : S × Response)
      → c.transfer_from s env info owner to n ≡ ok r
      → Keeps supply Quiet (supply s) r
  pub send_from_law :
      (s : S) (env : Env) (info : MessageInfo) (owner to : String) (n : ℕ) (m : Binary)
      (r : S × Response)
      → c.send_from s env info owner to n m ≡ ok r
      → Keeps supply Quiet (supply s) r
  pub update_minter_law :
      (s : S) (env : Env) (info : MessageInfo) (minter : Option String) (r : S × Response)
      → c.update_minter s env info minter ≡ ok r
      → Keeps supply Quiet (supply s) r
  pub update_marketing_law :
      (s : S) (env : Env) (info : MessageInfo) (x y z : Option String) (r : S × Response)
      → c.update_marketing s env info x y z ≡ ok r
      → Keeps supply Quiet (supply s) r
  pub upload_logo_law :
      (s : S) (env : Env) (info : MessageInfo) (logo : Opaque) (r : S × Response)
      → c.upload_logo s env info logo ≡ ok r
      → Keeps supply Quiet (supply s) r

-- ===== src/Tests/Payments.antt =====
-- Deposits and payments over cw20 tokens, on a chain that serializes the two messages of "bob" and
-- the query of a staking hub.
use cavern_lsd_wrapper.Base.{
  ◌≡◌, refl, Option, some, none, ok, err, not_found, arith, if◌then◌else◌, ◌==◌, string_eq, nat_eq,
  StdResult, ◌&&◌, Bool-cases, inl, inr,
}
use cavern_lsd_wrapper.Std.{Binary}
use cavern_lsd_wrapper.Host.{Host}
use cavern_lsd_wrapper.Basset.External.{LsdQueryMsg}
use cavern_lsd_wrapper.Basset.Payload.{Payload, cw20_transfer, cw20_transfer_from, lsd_query}
use cavern_lsd_wrapper.Custody.Tokens.{Decodes}
use cavern_lsd_wrapper.Custody.Implementations.{MovesOnly, only_move, deposit-send_moves}
use cavern_lsd_wrapper.LsdHub.Amp
use cavern_lsd_wrapper.LsdHub.Spectrum
use cavern_lsd_wrapper.LsdHub.Steak
use cavern_lsd_wrapper.Tests.World.{one, host, config, env, info}

abbrev pub read : Binary → Option Payload
read b =
    if b == "pull"
    then some (cw20_transfer_from "bob" "wrapper" 10)
    else if b == "push"
    then some (cw20_transfer "bob" 10)
    else if b == "state"
    then some (lsd_query LsdQueryMsg.state)
    else none

abbrev pub written : Payload → StdResult Binary
written (cw20_transfer to n) = if (to == "bob") && (n == 10) then ok "push" else err not_found
written (cw20_transfer_from owner to n) =
    if (owner == "bob") && ((to == "wrapper") && (n == 10)) then ok "pull" else err not_found
written (lsd_query LsdQueryMsg.state) = ok "state"
written _ = err not_found

abbrev pub cw20_host : Host
cw20_host = record (host one 900) { to_binary = written }

pub decodes : Decodes read cw20_host
unfolding Decodes
decodes (cw20_transfer to n) b h = elim (Bool-cases (to == "bob")) [
  | inr other ↦ let refused = rw other at h in ground arith
  | inl bob ↦ elim (Bool-cases (n == 10)) [
    | inr other ↦ let refused = rw (bob, other) at h in ground arith
    | inl ten ↦
        let same : to ≡ "bob" = (string_eq.decides to "bob").0 bob in
        let amount : n ≡ 10 = (nat_eq.decides n 10).0 ten in
        let text : "push" ≡ b = let made = rw (bob, ten) at h in ground arith in
        rw (← text, same, amount)
  ]
]
decodes (cw20_transfer_from owner to n) b h = elim (Bool-cases (owner == "bob")) [
  | inr other ↦ let refused = rw other at h in ground arith
  | inl bob ↦ elim (Bool-cases (to == "wrapper")) [
    | inr other ↦ let refused = rw (bob, other) at h in ground arith
    | inl wrapper ↦ elim (Bool-cases (n == 10)) [
      | inr other ↦ let refused = rw (bob, wrapper, other) at h in ground arith
      | inl ten ↦
          let payer : owner ≡ "bob" = (string_eq.decides owner "bob").0 bob in
          let payee : to ≡ "wrapper" = (string_eq.decides to "wrapper").0 wrapper in
          let amount : n ≡ 10 = (nat_eq.decides n 10).0 ten in
          let text : "pull" ≡ b = let made = rw (bob, wrapper, ten) at h in ground arith in
          rw (← text, payer, payee, amount)
    ]
  ]
]
decodes (lsd_query LsdQueryMsg.state) b h = let text : "state" ≡ b = ground arith in rw (← text)
decodes m b h = cc

abbrev amp : Amp.AmphHub
amp = config

abbrev spectrum : Spectrum.SpectrumHub
spectrum = record {
  contracts = record { token = "ctoken"; underlying_token = "lp"; generator = "generator" };
}

abbrev steak : Steak.SteakLsdHub
steak = record { lsd_contracts = record { hub = "steak hub"; token = "steak" } }

deposit-send_moves_example :
    MovesOnly read "wrapper" "amp"
      (Amp.deposit_funds amp cw20_host env (info "bob") 10 "bob")
      (only_move read "wrapper" "bob" "wrapper" 10)
    × MovesOnly read "wrapper" "amp"
        (Amp.send_funds amp cw20_host env 10 "bob")
        (only_move read "wrapper" "wrapper" "bob" 10)
    × MovesOnly read "wrapper" "ctoken"
        (Spectrum.deposit_funds spectrum cw20_host env (info "bob") 10 "bob")
        (only_move read "wrapper" "bob" "wrapper" 10)
    × MovesOnly read "wrapper" "ctoken"
        (Spectrum.send_funds spectrum cw20_host env 10 "bob")
        (only_move read "wrapper" "wrapper" "bob" 10)
    × MovesOnly read "wrapper" "steak"
        (Steak.deposit_funds steak cw20_host env (info "bob") 10 "bob")
        (only_move read "wrapper" "bob" "wrapper" 10)
    × MovesOnly read "wrapper" "steak"
        (Steak.send_funds steak cw20_host env 10 "bob")
        (only_move read "wrapper" "wrapper" "bob" 10)
deposit-send_moves_example =
    deposit-send_moves read "wrapper" cw20_host env (info "bob") 10 "bob" "pull" "push" amp spectrum
      steak decodes refl refl refl

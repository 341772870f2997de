-- ===== src/Reward/Best.antt =====
-- contracts/cavern-lsd-reward/src/swap.rs: which router an asset is swapped at.
use cavern_lsd_wrapper.Base.{
  ℕ, ◌+◌, ◌≤◌, ◌≡◌, refl, String, some, List, [], ◌∷◌, leb, ok, err, arith, inl, inr, ◌⊎◌, ◌∙◌, ap,
  sym, subst, suc, ◌<◌, StdError, Option, Outcome-cases, Bool-cases, StdResult,
}
use cavern_lsd_wrapper.Std.{CosmosMsg}
use cavern_lsd_wrapper.Host.{Host}
use cavern_lsd_wrapper.Reward.Store.{SwapConfig}
use cavern_lsd_wrapper.Basset.DexRouter.{
  SwapMessageType, astroport, phoenix, terra_swap_router, swap_message_types,
}
use cavern_lsd_wrapper.Reward.Swap.{
  Asset, nth, later_max, max_by_price_from, max_by_price, get_swap_result_for, quotes,
  create_swap_message_for, create_swap_msgs,
}

-- No quote is above `n`.
abbrev pub NoneAbove : ℕ → List (ℕ × ℕ) → Type 0
NoneAbove n [] = Unit {0}
NoneAbove n (q ∷ qs) = (q.1 ≤ n) × NoneAbove n qs

-- `P` holds of every quote.
abbrev pub EachQuote : (ℕ × ℕ → Type 0) → List (ℕ × ℕ) → Type 0
EachQuote P [] = Unit {0}
EachQuote P (q ∷ qs) = P q × EachQuote P qs

later_max-le : (p q : ℕ × ℕ) → (p.1 ≤ (later_max p q).1) × (q.1 ≤ (later_max p q).1)
later_max-le p q = elim (Bool-cases (leb p.1 q.1)) [
  | inl later ↦ rw later (ground arith, omega arith)
  | inr earlier ↦ rw earlier (omega arith, ground arith)
]

pub max_by_price_from-NoneAbove :
    (best : ℕ × ℕ) (rest : List (ℕ × ℕ))
    → (best.1 ≤ (max_by_price_from best rest).1) × NoneAbove (max_by_price_from best rest).1 rest
unfolding max_by_price_from
max_by_price_from-NoneAbove best [] = (omega arith, tt)
max_by_price_from-NoneAbove best (q ∷ rest) =
    let (low, others) = max_by_price_from-NoneAbove (later_max best q) rest in
    let (first, second) = later_max-le best q in
    (omega (arith, first, low), (omega (arith, second, low), others))

pub max_by_price_from-EachQuote :
    (P : ℕ × ℕ → Type 0) (best : ℕ × ℕ) (rest : List (ℕ × ℕ))
    → P best
    → EachQuote P rest
    → P (max_by_price_from best rest)
unfolding max_by_price_from
max_by_price_from-EachQuote P best [] p ps = p
max_by_price_from-EachQuote P best (q ∷ rest) p ps = elim (Bool-cases (leb best.1 q.1)) [
  | inl later ↦ rw later (max_by_price_from-EachQuote P q rest ps.0 ps.1)
  | inr earlier ↦ rw earlier (max_by_price_from-EachQuote P best rest p ps.1)
]

module _ (h : Host) (stored : Option SwapConfig) (asset : Asset) (denom : String) where
  abbrev quote : SwapMessageType → StdResult ℕ
  quote = get_swap_result_for h stored asset denom

  -- The quotes of the routers `t ∷ ts`, from those of `ts`.
  quotes_step :
      (i : ℕ) (t : SwapMessageType) (ts : List SwapMessageType) (ps : List (ℕ × ℕ))
      → quotes h stored asset denom i (t ∷ ts) ≡ ok ps
      → (qs : List (ℕ × ℕ)) × (quotes h stored asset denom (i + 1) ts ≡ ok qs)
        × (((q : ℕ) × (quote t ≡ ok q) × (ps ≡ (i, q) ∷ qs))
            ⊎ ((e : StdError) × (quote t ≡ err e) × (ps ≡ qs)))
  unfolding quotes
  quotes_step i t ts ps made = elim (Outcome-cases (quotes h stored asset denom (i + 1) ts)) [
    | inr fails ↦ elim (Outcome-cases (quote t)) [
      | inl (q, e) ↦ ground arith
      | inr unquoted ↦ ground arith
    ]
    | inl (qs, f) ↦ elim (Outcome-cases (quote t)) [
      | inl (q, e) ↦ (qs, f, inl (q, e, ground arith))
      | inr (inl (e, failed)) ↦ (qs, f, inr (e, failed, ground arith))
      | inr (inr aborted) ↦ ground arith
    ]
  ]

  -- No router of the list quotes more than `n`.
  abbrev QuotesAtMost : ℕ → List SwapMessageType → Type 0
  QuotesAtMost n [] = Unit {0}
  QuotesAtMost n (t ∷ ts) = ((q : ℕ) → quote t ≡ ok q → q ≤ n) × QuotesAtMost n ts

  quotes_at_most :
      (n i : ℕ) (ts : List SwapMessageType) (ps : List (ℕ × ℕ))
      → quotes h stored asset denom i ts ≡ ok ps
      → NoneAbove n ps
      → QuotesAtMost n ts
  quotes_at_most n i [] ps made low = tt
  quotes_at_most n i (t ∷ ts) ps made low =
      let (qs, f, cases) = quotes_step i t ts ps made in
      elim cases [
        | inl (q, e, split) ↦
            let low' : NoneAbove n ((i, q) ∷ qs) =
              subst (λ (z : List (ℕ × ℕ)). NoneAbove n z) split low in
            (
              (λ q' e'. let same : q' ≡ q = cc in omega (arith, same, low'.0)),
              quotes_at_most n (i + 1) ts qs f low'.1,
            )
        | inr (e, failed, same) ↦ (
          (λ q' e'. cc),
          quotes_at_most n (i + 1) ts qs f (subst (λ (z : List (ℕ × ℕ)). NoneAbove n z) same low),
        )
      ]

  -- A quote stands with the index of its router.
  abbrev Indexed : ℕ × ℕ → Type 0
  Indexed x = (t : SwapMessageType) × (nth swap_message_types x.0 ≡ some t) × (quote t ≡ ok x.1)

  quotes-Indexed :
      (i : ℕ) (ts : List SwapMessageType) (ps : List (ℕ × ℕ))
      → ((j : ℕ) → nth ts j ≡ nth swap_message_types (i + j))
      → quotes h stored asset denom i ts ≡ ok ps
      → EachQuote Indexed ps
  unfolding quotes
  quotes-Indexed i [] ps suffix made =
      let empty : [] ≡ ps = cc in subst (λ (z : List (ℕ × ℕ)). EachQuote Indexed z) empty tt
  quotes-Indexed i (t ∷ ts) ps suffix made =
      let (qs, f, cases) = quotes_step i t ts ps made in
      let tail : EachQuote Indexed qs =
        quotes-Indexed (i + 1) ts qs
          (λ j.
            suffix (suc j)
            ∙ ap (λ (k : ℕ). nth swap_message_types k) {x = i + suc j} {y = i + 1 + j}
                (omega arith))
          f in
      elim cases [
        | inl (q, e, split) ↦
            let here : nth swap_message_types i ≡ some t =
              ap (λ (k : ℕ). nth swap_message_types k) {x = i} {y = i + 0} (omega arith)
              ∙ sym (suffix 0) in
            subst (λ (z : List (ℕ × ℕ)). EachQuote Indexed z) (sym split) ((t, here, e), tail)
        | inr (e, failed, same) ↦ subst (λ (z : List (ℕ × ℕ)). EachQuote Indexed z) (sym same) tail
      ]

  quote_at_most :
      (n : ℕ) (other : SwapMessageType) (q : ℕ)
      → QuotesAtMost n swap_message_types
      → quote other ≡ ok q
      → q ≤ n
  quote_at_most n astroport q low e = low.0 q e
  quote_at_most n phoenix q low e = low.1.0 q e
  quote_at_most n terra_swap_router q low e = low.1.1.0 q e

  -- The messages are one swap, at a router that quotes more than zero and at least `q`.
  abbrev pub SentToBest : CosmosMsg → List CosmosMsg → ℕ → Type 0
  SentToBest msg rest q =
      (t : SwapMessageType) × (best : ℕ) × (quote t ≡ ok best)
      × (q ≤ best)
      × (0 < best)
      × (create_swap_message_for h stored asset denom t ≡ ok msg)
      × (rest ≡ [])

  module _ (msg : CosmosMsg) (rest : List CosmosMsg) (other : SwapMessageType) (q : ℕ)
      (quoted : quote other ≡ ok q)
      (sent : create_swap_msgs h stored asset denom ≡ ok (msg ∷ rest)) where
    chosen_is_sent :
        (ps : List (ℕ × ℕ)) (m : ℕ × ℕ) (t : SwapMessageType)
        → quotes h stored asset denom 0 swap_message_types ≡ ok ps
        → max_by_price ps ≡ some m
        → nth swap_message_types m.0 ≡ some t
        → (0 < m.1) × (create_swap_message_for h stored asset denom t ≡ ok msg) × (rest ≡ [])
    unfolding create_swap_msgs
    chosen_is_sent ps m t made best at =
        elim (Outcome-cases (create_swap_message_for h stored asset denom t)) [
          | inl (sending, e) ↦ (ground arith, ground arith, ground arith)
          | inr fails ↦ ground arith
        ]

    sent_to_best :
        (ps : List (ℕ × ℕ))
        → quotes h stored asset denom 0 swap_message_types ≡ ok ps
        → SentToBest msg rest q
    unfolding create_swap_msgs max_by_price
    sent_to_best [] made = ground arith
    sent_to_best (first ∷ tail) made =
        let m : ℕ × ℕ = max_by_price_from first tail in
        let each : EachQuote Indexed (first ∷ tail) =
          quotes-Indexed 0 swap_message_types (first ∷ tail) suffix made in
        let (t, at, price) = max_by_price_from-EachQuote Indexed first tail each.0 each.1 in
        let low = max_by_price_from-NoneAbove first tail in
        let bound : q ≤ m.1 =
          quote_at_most m.1 other q
            (quotes_at_most m.1 0 swap_message_types (first ∷ tail) made low) quoted in
        let (pos, sending, alone) = chosen_is_sent (first ∷ tail) m t made refl at in
        (t, m.1, price, bound, pos, sending, alone)
      where
        suffix : (j : ℕ) → nth swap_message_types j ≡ nth swap_message_types (0 + j)
        suffix j = ap (λ (k : ℕ). nth swap_message_types k) {x = j} {y = 0 + j} (omega arith)

    -- Where an asset is swapped, the one message is the swap at a router whose quote is not zero,
    -- and no router quotes more: `other` is any that quotes anything.
    pub swap-SentToBest : SentToBest msg rest q
    unfolding create_swap_msgs
    swap-SentToBest = elim (Outcome-cases (quotes h stored asset denom 0 swap_message_types)) [
      | inl (ps, made) ↦ sent_to_best ps made
      | inr fails ↦ ground arith
    ]

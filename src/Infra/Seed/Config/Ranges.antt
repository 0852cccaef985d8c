-- ===== src/Infra/Seed/Config/Ranges.antt =====
-- The ranges of a configuration that the overrides resolve to.
use money_across_borders.Base.{
  ℤ, pos, ◌≤ℤ◌, true, Option, none, some, List, [], ◌∷◌, length, ◌≡◌, refl, ◌≢◌, sym, ap, ◌∙◌,
  arith,
}
use mathlib.Core.Path.{subst}
use money_across_borders.Domain.Errors.{ok}
use money_across_borders.Domain.Numbers.{Number, integer, fractional, Floats}
use money_across_borders.Infra.Seed.Arithmetic.{Arithmetic}
use money_across_borders.Infra.Seed.Types.{SeedConfig, Range, ScenarioName, plain, high_contention}
use money_across_borders.Infra.Seed.Wallets.{max_ℤ, active_currencies}
use money_across_borders.Infra.Seed.Config.{
  SeedConfigOverrides, is_whole, whole, or_else, clamp, scale_to, average, with_overrides,
  with_wallets, with_remittances, default_seed_config, with_scenario, scale_range,
  scale_wallets_target, scale_remittances_target, merge_config, resolve_seed_config,
}
use money_across_borders.Infra.Seed.Config.Valid.{resolve_seed_config_valid}

-- A range from a bound up that is not empty.
abbrev pub IsRange : ℤ → Range → Type 0
IsRange least r = (least ≤ℤ r.min) × (r.min ≤ℤ r.max)

-- Every profile sends a number of remittances from a range of numbers of zero or more.
abbrev pub HasRanges : {Float : Type 0} → SeedConfig Float → Type 0
HasRanges c =
    IsRange (pos 0) c.heavy_remittances
    × IsRange (pos 0) c.normal_remittances
    × IsRange (pos 0) c.low_remittances

max_above : (a b : ℤ) → a ≤ℤ max_ℤ a b
max_above a b = ground arith

clamp-IsRange :
    (n m active : ℤ)
    → pos 1 ≤ℤ active
    → let least = clamp n (pos 1) active in
      let most = clamp m least active in (pos 1 ≤ℤ least) × (least ≤ℤ most) × (most ≤ℤ active)
unfolding clamp
clamp-IsRange n m active h = ground arith

some_active {ℓ} : {A : Type ℓ} (xs : List A) → xs ≢ [] → pos 1 ≤ℤ pos (length xs)
some_active [] h = absurd (h refl)
some_active (x ∷ xs) h = omega arith

module _ (F : Floats) (M : Arithmetic F) where
  open F use {Float, of_ℤ, mul, round}

  scale_range-IsRange : (scale : Float) (r : Range) → IsRange (pos 0) (scale_range F M scale r)
  unfolding scale_range
  scale_range-IsRange scale r = (
    max_above (pos 0) (round (mul (of_ℤ r.min) scale)),
    max_above (scale_range F M scale r).min (round (mul (of_ℤ r.max) scale)),
  )

  with_remittances-HasRanges :
      (target : Option ℤ) (c : SeedConfig Float)
      → HasRanges c
      → HasRanges (with_remittances F M target c)
  unfolding scale_remittances_target
  with_remittances-HasRanges none c h = h
  with_remittances-HasRanges (some target) c h =
      (scale_range-IsRange _ _, scale_range-IsRange _ _, scale_range-IsRange _ _)

  -- The range of wallets, and that a target keeps it to the currencies there are.
  abbrev IsCovered : Option ℤ → SeedConfig Float → Type 0
  IsCovered target c =
      IsRange (pos 1) c.wallets_per_customer
      × (target ≢ none → c.wallets_per_customer.max ≤ℤ pos (length (active_currencies F M c)))

  with_wallets-IsCovered :
      (target : Option ℤ) (c : SeedConfig Float)
      → IsRange (pos 1) c.wallets_per_customer
      → active_currencies F M c ≢ []
      → IsCovered target (with_wallets F M target c)
  unfolding scale_wallets_target active_currencies
  with_wallets-IsCovered none c h active = (h, λ given. absurd (given refl))
  with_wallets-IsCovered (some target) c h active =
      let scale =
        scale_to F M target (mul (of_ℤ c.customers) (average F M c.wallets_per_customer)) in
      let (least, most, top) =
        clamp-IsRange (round (mul (of_ℤ c.wallets_per_customer.min) scale))
          (round (mul (of_ℤ c.wallets_per_customer.max) scale))
          (pos (length (active_currencies F M c))) (some_active (active_currencies F M c) active) in
      ((least, most), λ given. top)

  with_remittances-IsCovered :
      (target wallets : Option ℤ) (c : SeedConfig Float)
      → IsCovered wallets c
      → IsCovered wallets (with_remittances F M target c)
  unfolding scale_remittances_target active_currencies
  with_remittances-IsCovered none wallets c h = h
  with_remittances-IsCovered (some target) wallets c h = h

  -- The scalings leave the currencies alone.
  merge_config-active :
      (remittances wallets : Option ℤ) (c : SeedConfig Float)
      → active_currencies F M (with_remittances F M remittances (with_wallets F M wallets c))
        ≡ active_currencies F M c
  unfolding scale_remittances_target active_currencies
  merge_config-active none none c = refl
  merge_config-active none (some w) c = refl
  merge_config-active (some r) none c = refl
  merge_config-active (some r) (some w) c = refl

  scenario-HasRanges :
      (k : ScenarioName)
      → let c = with_scenario F k (default_seed_config F) in
        HasRanges c × IsRange (pos 1) c.wallets_per_customer
  unfolding with_scenario default_seed_config
  scenario-HasRanges plain = omega arith
  scenario-HasRanges high_contention = omega arith

  merge_config-HasRanges :
      (o : SeedConfigOverrides)
      → active_currencies F M (merge_config F M o) ≢ []
      → HasRanges (merge_config F M o) × IsCovered (whole o.wallets_target) (merge_config F M o)
  unfolding merge_config
  merge_config-HasRanges o active =
      let (remittances, wallets) = scenario-HasRanges (or_else o.scenario plain) in
      let c =
        with_overrides F o (with_scenario F (or_else o.scenario plain) (default_seed_config F)) in
      let r = whole o.remittances_target in
      let w = whole o.wallets_target in
      let there : active_currencies F M c ≢ [] = λ e. active (merge_config-active r w c ∙ e) in
      (
        with_remittances-HasRanges r _ (wallets_keep w c remittances),
        with_remittances-IsCovered r w _ (with_wallets-IsCovered w c wallets there),
      )
    where
      wallets_keep :
          (w : Option ℤ) (c : SeedConfig Float) → HasRanges c → HasRanges (with_wallets F M w c)
      wallets_keep none c h = h
      wallets_keep (some target) c h = h

  -- Where the targets that are given are integers, a configuration that the overrides resolve to
  -- gives every profile a range of remittances that starts at zero or more and is not reversed,
  -- and every customer a range of wallets that starts at one or more and is not reversed, which
  -- a target of wallets keeps within the number of the currencies that have a weight.
  pub resolve_seed_config_ranges :
      (o : SeedConfigOverrides) (c : SeedConfig Float)
      → is_whole o.wallets_target ≡ true
      → is_whole o.remittances_target ≡ true
      → resolve_seed_config F M o ≡ ok c
      → HasRanges c
        × IsRange (pos 1) c.wallets_per_customer
        × (o.wallets_target ≢ none
            → c.wallets_per_customer.max ≤ℤ pos (length (active_currencies F M c)))
  resolve_seed_config_ranges o c wallets remittances h =
      let (same, _, _, _, active) = resolve_seed_config_valid F M o c h in
      let there : active_currencies F M (merge_config F M o) ≢ [] =
        λ e. active (ap (active_currencies F M) same ∙ e) in
      let (sent, (range, top)) = merge_config-HasRanges o there in
      subst
        (λ x.
          HasRanges x
          × IsRange (pos 1) x.wallets_per_customer
          × (o.wallets_target ≢ none
              → x.wallets_per_customer.max ≤ℤ pos (length (active_currencies F M x))))
        (sym same) (sent, range, λ given. top (given_whole o.wallets_target wallets given))
    where
      given_whole : (n : Option Number) → is_whole n ≡ true → n ≢ none → whole n ≢ none
      given_whole none w given = absurd (given refl)
      given_whole (some (integer n)) w given = λ e. absurd (cc e)
      given_whole (some fractional) w given = absurd (cc w)

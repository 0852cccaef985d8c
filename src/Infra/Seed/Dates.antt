-- ===== src/Infra/Seed/Dates.antt =====
-- src/infra/seed/generators/temporal-distribution.ts
use money_across_borders.Base.{
  ℕ, ◌*◌, ℤ, pos, pos_part, ◌-ℤ◌, leb_ℤ, ltb_ℤ, List, [], ◌∷◌, if◌then◌else◌,
}
use money_across_borders.Domain.Numbers.{Floats}
use money_across_borders.Infra.Seed.Run.{Run, ◌>>=◌, pure}
use money_across_borders.Infra.Seed.Arithmetic.{Arithmetic}
use money_across_borders.Infra.Seed.Rng.{Weighted, next_int, range, weighted_pick}

-- A number of days, which is not negative, in milliseconds.
abbrev days_ms : ℤ → ℤ
days_ms d = pos (pos_part d * 86400000)

module _ (F : Floats) (M : Arithmetic F) (set_hours : ℤ → ℤ → ℤ → ℤ → ℤ) where
  open F use {Float, of_ℤ, decimal}
  open M use {add, floor}

  abbrev bucket : ℕ → ℕ → ℕ → Weighted Float (ℤ × ℤ)
  bucket from to percent = record { value = (pos from, pos to); weight = decimal percent 2 }

  abbrev hour_buckets : List (Weighted Float (ℤ × ℤ))
  hour_buckets =
      bucket 0 6 5
      ∷ bucket 7 8 10
      ∷ bucket 9 11 25
      ∷ bucket 12 13 10
      ∷ bucket 14 17 30
      ∷ bucket 18 21 15
      ∷ bucket 22 23 5
      ∷ []

  unfoldable pub weighted_hour : Run ℕ ℤ
  unfolding weighted_pick next_int
  weighted_hour = do hours ← weighted_pick F M hour_buckets; next_int F M hours.0 hours.1

  -- `set_hours date h m s` is `date.setHours(h, m, s, 0)`, in the zone of the machine.
  unfoldable pub random_timestamp_in_range : ℤ → ℤ → Run ℕ ℤ
  unfolding weighted_hour next_int
  random_timestamp_in_range now days = do
    day ← next_int F M (pos 0) days
    hour ← weighted_hour
    minute ← next_int F M (pos 0) (pos 59)
    second ← next_int F M (pos 0) (pos 59)
    let candidate = set_hours (now -ℤ days_ms day) hour minute second
    pure (if ltb_ℤ now candidate then now else candidate)

module _ (F : Floats) (M : Arithmetic F) where
  open F use {Float, of_ℤ}
  open M use {add, floor}

  -- A date drops the fraction of its milliseconds.
  unfoldable pub random_timestamp_between : ℤ → ℤ → Run ℕ ℤ
  unfolding range
  random_timestamp_between start end = if leb_ℤ end start then pure end else (do
    offset ← range F M (of_ℤ (pos 0)) (of_ℤ (end -ℤ start))
    pure (floor (add (of_ℤ start) offset)))

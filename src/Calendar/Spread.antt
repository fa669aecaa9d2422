-- ===== src/Calendar/Spread.antt =====
-- Where `_distribute` of app/agents/_calendar.py puts the touches.
use native.Mathlib.Nat.{div-le_of_le-mul, div-add-mod, mul-le-mul_right}
use marketing_agentic_system.Common.{
  ℕ, zero, suc, ◌+◌, ◌-◌, ◌*◌, ◌/◌, ◌%◌, ◌≤◌, ◌<◌, ◌≡◌, refl, sym, ap, subst, ◌∙◌, String, true,
  false, ◌&&◌, ◌||◌, List, [], ◌∷◌, arith, inl, inr, Bool-cases, ltb, ◌==◌, max, All, All-append,
  if-true, if-false,
}
use marketing_agentic_system.Common.Text.{clean}
use marketing_agentic_system.EmailDispatch.Footer.{is_empty}
use marketing_agentic_system.Calendar.{PlannedTouchpoint, HardCap}
use marketing_agentic_system.Calendar.Generation.{
  ChannelEntry, other, channel, Share, touch_count, round_half_even, offset_of, nine_o_clock,
  distribute_from, days_between, distribute, channel_touches, lay_out,
}

round_half_even-le : (n m k : ℕ) → 1 ≤ m → n ≤ m * k → round_half_even n m ≤ k
unfolding round_half_even
round_half_even-le n m k p h =
    let q : n / m ≤ k = div-le_of_le-mul m h in
    let test = ltb (2 * (n % m)) m || ((2 * (n % m) == m) && (n / m % 2 == 0)) in
    elim (Bool-cases test) [
      | inl t ↦ subst (λ x. x ≤ k) (sym (if-true (n / m) (n / m + 1) t)) q
      | inr f ↦ subst (λ x. x ≤ k) (sym (if-false (n / m) (n / m + 1) f)) (below q f)
    ]
  where
    below :
        n / m ≤ k
        → (ltb (2 * (n % m)) m || ((2 * (n % m) == m) && (n / m % 2 == 0))) ≡ false
        → n / m + 1 ≤ k
    below q f = elim (Bool-cases (n / m == k)) [
      | inr e ↦ ground (arith, q, e)
      | inl e ↦
          let same : n / m ≡ k = ground (arith, e) in
          let whole : m * k + n % m ≡ n =
            ap (λ (x : ℕ). m * x + n % m) (sym same) ∙ div-add-mod n m in
          let none_left : n % m ≡ 0 = omega (arith, whole, h) in
          let hit : ltb (2 * (n % m)) m ≡ true = ground (arith, none_left, p) in
          absurd (ground (arith, hit, f))
    ]

offset_of-le : (d count i : ℕ) → 1 ≤ d → i < count → offset_of d count i ≤ d - 1
unfolding offset_of
offset_of-le d count i p h = elim (Bool-cases (count == 1)) [
  | inl t ↦ rw t (half d p)
  | inr f ↦
      let many : 1 ≤ count - 1 = ground (arith, f, h) in
      let below : i ≤ count - 1 = omega (arith, h) in
      rw f
        (round_half_even-le (i * (d - 1)) (count - 1) (d - 1) many (mul-le-mul_right (d - 1) below))
]
  where
    half : (d : ℕ) → 1 ≤ d → d / 2 ≤ d - 1
    half d p = omega arith

-- The touch is at nine o'clock of a day from the start to the end.
abbrev pub InSpan : ℕ → ℕ → PlannedTouchpoint → Type 0
InSpan start_date end_date t =
    (day : ℕ) × (start_date ≤ day)
    × (day ≤ max start_date end_date)
    × (t.scheduled_at ≡ nine_o_clock day)

distribute_from-InSpan :
    (start_date end_date count : ℕ) (platform : String) (audience_id position i left : ℕ)
    → i + left ≡ count
    → All (InSpan start_date end_date) (
        distribute_from start_date
          (days_between start_date end_date)
          count
          platform
          audience_id
          position
          i
          left)
unfolding distribute_from
distribute_from-InSpan start_date end_date count platform audience_id position i zero h = tt
distribute_from-InSpan start_date end_date count platform audience_id position i (suc left) h =
    let offset = offset_of (days_between start_date end_date) count i in
    let small =
      offset_of-le (days_between start_date end_date) count i (omega arith) (omega (arith, h)) in
    (
      (start_date + offset, omega arith, omega (arith, small), refl),
      distribute_from-InSpan start_date end_date count platform audience_id position (i + 1) left
          (omega (arith, h)),
    )

channel_touches-InSpan :
    (share : Share) (caps : List HardCap) (start_date end_date audience_id : ℕ) (ch : ChannelEntry)
    (position : ℕ)
    → All
        (InSpan start_date end_date)
        (channel_touches share caps start_date end_date audience_id ch position)
unfolding channel_touches distribute
channel_touches-InSpan share caps start_date end_date audience_id other position = tt
channel_touches-InSpan share caps start_date end_date audience_id (channel platform pct) position =
    elim (Bool-cases (is_empty (clean platform) || (pct == 0))) [
      | inl t ↦ rw t tt
      | inr f ↦
          let count =
            touch_count share caps (days_between start_date end_date) (clean platform) pct in
          rw f (
            distribute_from-InSpan start_date end_date count (clean platform) audience_id position 0
              count (omega arith))
    ]

pub lay_out-InSpan :
    (share : Share) (caps : List HardCap) (start_date end_date audience_id : ℕ)
    (channels : List ChannelEntry) (position : ℕ)
    → All
        (InSpan start_date end_date)
        (lay_out share caps start_date end_date audience_id channels position)
unfolding lay_out
lay_out-InSpan share caps start_date end_date audience_id [] position = tt
lay_out-InSpan share caps start_date end_date audience_id (ch ∷ rest) position =
    All-append (InSpan start_date end_date)
      (channel_touches share caps start_date end_date audience_id ch position) _
      (channel_touches-InSpan share caps start_date end_date audience_id ch position)
      (lay_out-InSpan share caps start_date end_date audience_id rest _)

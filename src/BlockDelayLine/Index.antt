-- ===== src/BlockDelayLine/Index.antt =====
-- The indices of include/synthizer/block_delay_line.hpp: both producers find the same frame.
use synthizer.Base.{
  ℕ, suc, ◌+◌, ◌-◌, ◌*◌, ◌%◌, ◌^◌, ◌<◌, ◌≤◌, ◌≡◌, ◌≢◌, ap, sym, ◌∙◌, some, lt→ltb, le→leb, arith,
  dec_lt, dec_le,
}
use synthizer.Fader.{add32, sub32}
use synthizer.BlockDelayLine.{size, modulus_index_producer, identity_index_producer}
use native.Mathlib.Nat.{mod-eq_of_lt, add-mod_right, mul-le-mul_right}

-- The place of the frame that was current `delay` frames before `frame`.
abbrev pub slot : ℕ → ℕ → ℕ → ℕ
slot len frame delay = (frame + len - delay) % len

pub slot-before :
    (len frame delay : ℕ) → delay ≤ frame → frame < len → slot len frame delay ≡ frame - delay
slot-before len frame delay h k =
    let sum : frame + len - delay ≡ frame - delay + len = omega (arith, h) in
    ap (λ n. n % len) sum ∙ add-mod_right (frame - delay) len ∙ mod-eq_of_lt (omega arith)

slot-wrapped :
    (len frame delay : ℕ) → frame < delay → delay < len → slot len frame delay ≡ frame + len - delay
slot-wrapped len frame delay h k = mod-eq_of_lt (omega arith)

-- Only the current frame has its own place.
pub slot_self :
    (len frame delay : ℕ) → frame < len → delay < len → 0 < delay → slot len frame delay ≢ frame
slot_self len frame delay h k pos e = elim (dec_le delay frame) [
  | yes le ↦ absurd (omega (arith, slot-before len frame delay le h, e, pos, le))
  | no gt ↦ absurd (omega (arith, slot-wrapped len frame delay (omega (arith, gt)) k, e, k))
]

pub slot-current : (len frame : ℕ) → frame < len → slot len frame 0 ≡ frame
slot-current len frame h = slot-before len frame 0 (omega arith) h ∙ omega arith

-- A frame on, everything is a frame older, and the oldest frame is the current one.
pub slot-next : (len frame delay : ℕ) → slot len (suc frame) (suc delay) ≡ slot len frame delay
slot-next len frame delay = ap (λ n. n % len) (omega arith)

pub slot-oldest : (len frame : ℕ) → 0 < len → slot len (suc frame) 0 ≡ slot len frame (len - 1)
slot-oldest len frame h =
    let left : suc frame + len - 0 ≡ suc frame + len = omega arith in
    let right : frame + len - (len - 1) ≡ suc frame = omega (arith, h) in
    ap (λ n. n % len) left ∙ add-mod_right (suc frame) len ∙ sym (ap (λ n. n % len) right)

pub slot-around : (len delay : ℕ) → delay < len → slot len len delay ≡ slot len 0 delay
slot-around len delay h =
    let sum : len + len - delay ≡ 0 + len - delay + len = omega (arith, h) in
    ap (λ n. n % len) sum ∙ add-mod_right (0 + len - delay) len

-- Places of different frames or channels are different.
pub place_injective :
    (lanes a b c d : ℕ) → c < lanes → d < lanes → a * lanes + c ≡ b * lanes + d → (a ≡ b) × (c ≡ d)
place_injective lanes a b c d hc hd e = elim (dec_lt a b) [
  | yes lt ↦
      let step : suc a * lanes ≤ b * lanes = mul-le-mul_right lanes (omega (arith, lt)) in
      absurd (omega (arith, step, e, hc))
  | no ge ↦ elim (dec_lt b a) [
    | yes lt ↦
        let step : suc b * lanes ≤ a * lanes = mul-le-mul_right lanes (omega (arith, lt)) in
        absurd (omega (arith, step, e, hd))
    | no le ↦
        let same : a ≡ b = omega (arith, ge, le) in
        let scaled : a * lanes ≡ b * lanes = ap (λ k. k * lanes) same in
        (same, omega (arith, e, scaled))
  ]
]

module _ (lanes size_in_blocks : ℕ) where
  pub modulus-slot :
      (delay frame : ℕ)
      → delay < size lanes size_in_blocks
      → frame < size lanes size_in_blocks
      → size lanes size_in_blocks < 2 ^ 31
      → modulus_index_producer lanes size_in_blocks delay frame
        ≡ some (slot (size lanes size_in_blocks) frame delay)
  unfolding modulus_index_producer
  modulus-slot delay frame h k small =
      let len : ℕ = size lanes size_in_blocks in
      let whole : sub32 (add32 frame len) delay ≡ frame + len - delay =
        omega (arith, h, k, small) in
      rw (lt→ltb delay len h) (ap (λ n. some (n % len)) whole)

  pub identity-slot :
      (delay frame : ℕ)
      → delay < size lanes size_in_blocks
      → delay ≤ frame
      → frame < size lanes size_in_blocks
      → size lanes size_in_blocks < 2 ^ 31
      → identity_index_producer lanes size_in_blocks delay frame
        ≡ some (slot (size lanes size_in_blocks) frame delay)
  unfolding identity_index_producer
  identity-slot delay frame h le k small =
      let len : ℕ = size lanes size_in_blocks in
      let whole : sub32 frame delay ≡ frame - delay = omega (arith, le, k, small) in
      rw (lt→ltb delay len h)
        (rw (le→leb delay frame le) (ap some (whole ∙ sym (slot-before len frame delay le k))))

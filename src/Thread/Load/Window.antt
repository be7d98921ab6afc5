-- ===== src/Thread/Load/Window.antt =====
-- The windows of `load_t` in engin/chroutine.hpp.
use chroutine.Prelude.{
  ℕ, zero, suc, Bool-cases, inl, inr, ◌+◌, ◌*◌, ◌-◌, ◌≤◌, ◌≡◌, arith, ltb, ◌==◌, ==_iff,
}
use chroutine.Thread.Load.{initial, Load, update, close_window, load}

-- `load_t` while every round processes at most `k` events.
pub record IsLoad (k : ℕ) (l : Load) : Type 0 where
  pub some_left : 1 ≤ l.counting_left
  pub left_in : l.counting_left ≤ 1000
  pub counted : l.working + k * l.counting_left ≤ k * 1000
  pub load_in : load l ≤ k * 1000

mul-pred : (k n : ℕ) → 1 ≤ n → k * (n - 1) + k ≡ k * n
mul-pred k zero h = elim h [ ]
mul-pred k (suc n) h = let e : suc n - 1 ≡ n = omega arith in rw e (omega arith)

mul-sub-le : (k n m : ℕ) → k * (n - m) ≤ k * n
mul-sub-le k n m = grind arith

-- The end of a round: a window with no round left is closed.
close_window-IsLoad :
    (k : ℕ) (l : Load)
    → l.counting_left ≤ 1000
    → l.working + k * l.counting_left ≤ k * 1000
    → load l ≤ k * 1000
    → IsLoad k (close_window l)
unfolding close_window load
close_window-IsLoad k l left counted load_in = elim (Bool-cases (ltb l.counting_left 1)) [
  | inl ended ↦ rw ended (record {
    some_left = omega arith;
    left_in = omega arith;
    counted = omega arith;
    load_in = omega arith;
  })
  | inr goes_on ↦
      rw goes_on
        (record { some_left = ground arith; left_in = left; counted = counted; load_in = load_in })
]

pub initial-IsLoad : (k : ℕ) → IsLoad k initial
unfolding initial load
initial-IsLoad k = record {
  some_left = omega arith;
  left_in = omega arith;
  counted = omega arith;
  load_in = omega arith;
}

-- A round that processes at most `k` events, in a window of 1000 rounds where an idle one counts as
-- 100: the window goes on or starts anew with between 1 and 1000 rounds left, and the load that is
-- reported stays at most `k`, in thousandths.
pub update-IsLoad : (k worked : ℕ) (l : Load) → worked ≤ k → IsLoad k l → IsLoad k (update worked l)
unfolding update load
update-IsLoad k worked l h v = elim (Bool-cases (worked == 0)) [
  | inl idle ↦ rw idle (
      close_window-IsLoad k
        (record l { working = l.working + worked; counting_left = l.counting_left - 100 })
        (omega (arith, v.left_in))
        (omega (arith, (==_iff worked 0).0 idle, mul-sub-le k l.counting_left 100, v.counted))
        v.load_in)
  | inr busy ↦ rw busy (
      close_window-IsLoad k
        (record l { working = l.working + worked; counting_left = l.counting_left - 1 })
        (omega (arith, v.left_in))
        (omega (arith, mul-pred k l.counting_left v.some_left, v.counted)) v.load_in)
]

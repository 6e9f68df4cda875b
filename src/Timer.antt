-- ===== src/Timer.antt =====
-- src/Timer.cpp and include/Timer.hpp: the stop watch of src/KVServer.cpp and src/KVClient.cpp, whose
-- time is printed only. A time point is a number of ticks of the clock; the conversion to `double`
-- milliseconds and its text are parameters.
use hpe_distributed_key_valu.Prelude.{
  ℕ, ◌-◌, ◌≤◌, ◌≡◌, ltb, arith, ◌++◌, if◌then◌else◌, Text, codes, ℤ, pos, negsuc,
}

pub record Timer : Type 0 where
  pub start_time : ℕ
  pub end_time : ℕ

pub record Milliseconds : Type 1 where
  pub Double : Type 0
  pub of_ticks : ℤ → Double
  pub shown : Double → Text

unfoldable pub start : ℕ → Timer → Timer
start now t = record t { start_time = now }

unfoldable pub stop : ℕ → Timer → Timer
stop now t = record t { end_time = now }

-- `end_time - start_time`, which is signed.
unfoldable pub elapsed : Timer → ℤ
elapsed t =
    if ltb t.end_time t.start_time
    then negsuc (t.start_time - t.end_time - 1)
    else pos (t.end_time - t.start_time)

module _ (F : Milliseconds) where
  unfoldable pub elapsed_ms : Timer → F.Double
  elapsed_ms t = F.of_ticks (elapsed t)

  unfoldable pub print : Text → Timer → Text
  print label t =
      codes "[" ++ (label ++ (codes "] completed in " ++ (F.shown (elapsed_ms t) ++ codes " ms")))

-- A timer that is started and then stopped has measured the time between, if the clock does not go
-- back.
pub elapsed-stop :
    (earlier later : ℕ) (t : Timer)
    → earlier ≤ later
    → elapsed (stop later (start earlier t)) ≡ pos (later - earlier)
unfolding elapsed stop start
elapsed-stop earlier later t h = ground (arith, h)

-- ===== src/ServerMain/Signals.antt =====
-- The end of a server in src/main_server.cpp: `handleShutdownSignal`, the callback that the engine
-- calls before it is finalised, and the thread that watches `shutdown_signal`.
use hpe_distributed_key_valu.Prelude.{
  ◌≡◌, ◌≢◌, refl, Bool, true, false, not, List, [], ◌∷◌, any, arith, if◌then◌else◌, ℤ, pos, ◌==ℤ◌,
  ==ℤ_iff,
}

-- `waiting` and `stopping` hold the value of `shutdown_signal`; `stopping` is from the watcher's
-- leaving its loop to the end of `finalize`. `forced` is `_exit(0)`.
pub data Phase : Type 0 where
  waiting stopping : ℤ → Phase
  ended forced : Phase

pub data Happening : Type 0 where
  signal : ℤ → Happening
  prefinalize watcher_wakes finalized : Happening

abbrev none_yet : ℤ → Bool
none_yet shutdown_signal = shutdown_signal ==ℤ pos 0

abbrev handle_shutdown_signal : (ℤ → Phase) → ℤ → ℤ → Phase
handle_shutdown_signal phase n shutdown_signal =
    if not (none_yet shutdown_signal) then forced else phase n

abbrev or_one : ℤ → ℤ
or_one shutdown_signal = if none_yet shutdown_signal then pos 1 else shutdown_signal

unfoldable pub happens : Happening → Phase → Phase
happens (signal n) (waiting s) = handle_shutdown_signal waiting n s
happens (signal n) (stopping s) = handle_shutdown_signal stopping n s
happens prefinalize (waiting s) = waiting (or_one s)
happens prefinalize (stopping s) = stopping (or_one s)
happens watcher_wakes (waiting s) = if none_yet s then waiting s else stopping s
happens finalized (stopping s) = ended
happens other phase = phase

unfoldable pub happen : List Happening → Phase → Phase
happen [] phase = phase
happen (h ∷ hs) phase = happen hs (happens h phase)

-- The happenings that ask for the end.
abbrev pub asks : Happening → Bool
asks (signal n) = true
asks prefinalize = true
asks other = false

quiet : (h : Happening) → asks h ≡ false → happens h (waiting (pos 0)) ≡ waiting (pos 0)
unfolding happens
quiet (signal n) q = absurd (cc)
quiet prefinalize q = absurd (cc)
quiet watcher_wakes q = refl
quiet finalized q = refl

-- Without a signal and a finalisation from outside the watcher goes on waiting.
pub quiet_server :
    (hs : List Happening) → any asks hs ≡ false → happen hs (waiting (pos 0)) ≡ waiting (pos 0)
unfolding happen
quiet_server [] q = refl
quiet_server (h ∷ hs) q = rw (quiet h (ground (arith, q))) (quiet_server hs (ground (arith, q)))

-- A second signal, while the server waits for its watcher or stops, ends it at once.
pub second_signal :
    (s n : ℤ)
    → s ≢ pos 0
    → (happens (signal n) (waiting s) ≡ forced) × (happens (signal n) (stopping s) ≡ forced)
unfolding happens
second_signal s n set =
    (ground (arith, set, ==ℤ_iff s (pos 0)), ground (arith, set, ==ℤ_iff s (pos 0)))

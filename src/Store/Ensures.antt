-- ===== src/Store/Ensures.antt =====
-- What a step of the constructor of src/KVStore.cpp ensures when it returns, and when it throws.
use hpe_distributed_key_valu.Prelude.{Option, none, some, Text}
use hpe_distributed_key_valu.Store.Boost.{Segment}
use hpe_distributed_key_valu.Store.Platform.{Trouble, interprocess, foreign, Platform}
use hpe_distributed_key_valu.Store.Boot.{Boot, Act, and_then, handled}

module _ {S : Segment} {P : Platform S} where
  abbrev pub Ensures :
      (Boot S P → Type 0) → (Boot S P → Type 0) → Option Trouble × Boot S P → Type 0
  Ensures Q E (none, s) = Q s
  Ensures Q E (some x, s) = E s

  pub Ensures-and_then :
      (Q R E : Boot S P → Type 0) (next : Act S P) (r : Option Trouble × Boot S P)
      → Ensures Q E r
      → ((s : Boot S P) → Q s → Ensures R E (next s))
      → Ensures R E (and_then next r)
  Ensures-and_then Q R E next (none, s) h go = go s h
  Ensures-and_then Q R E next (some x, s) h go = h

  pub Ensures-handled :
      (Q E : Boot S P → Type 0) (handler : Text → Act S P) (r : Option Trouble × Boot S P)
      → Ensures Q E r
      → ((t : Text) (s : Boot S P) → E s → Ensures Q E (handler t s))
      → Ensures Q E (handled handler r)
  Ensures-handled Q E handler (none, s) h go = h
  Ensures-handled Q E handler (some (interprocess t), s) h go = go t s h
  Ensures-handled Q E handler (some (foreign t), s) h go = h

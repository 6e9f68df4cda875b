-- ===== src/Network.antt =====
-- What src/KVClient.cpp uses of Thallium: a remote call. `call` looks up an endpoint, sends a request
-- and waits for the response; `none` is the exception of a failed lookup, a failed send or a timeout.
use hpe_distributed_key_valu.Prelude.{ℕ, ◌≡◌, false, Option, some, Text, text_eq}
use hpe_distributed_key_valu.Store.{Segment}
use hpe_distributed_key_valu.Server.{Request, Response, KvServer, handle}

pub record Network : Type 1 where
  pub World : Type 0
  pub call : Text → Request → World → Option Response × World

-- The documented behaviour of a call: a response is that of the handler, which the server at the
-- endpoint has run once; and a call touches no server at another endpoint.
pub record IsRpc (S : Segment) (clock : ℕ → ℕ) (N : Network) : Type 0 where
  pub server : Text → N.World → Option (KvServer S.Mem)
  pub call-answered :
      (ep : Text) (q : Request) (w : N.World) (s : KvServer S.Mem) (r : Response)
      → server ep w ≡ some s
      → (N.call ep q w).0 ≡ some r
      → (r ≡ (handle S clock q s).1) × (server ep (N.call ep q w).1 ≡ some (handle S clock q s).0)
  pub call-elsewhere :
      (ep there : Text) (q : Request) (w : N.World)
      → text_eq ep there ≡ false
      → server there (N.call ep q w).1 ≡ server there w

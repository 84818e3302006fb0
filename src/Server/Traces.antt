-- ===== src/Server/Traces.antt =====
-- Every request is answered, and the answer names the request.
use be_py_eco.Prelude.{ℕ, ◌≡◌, ◌⊎◌, Option, some, Text, codes}
use be_py_eco.Schema.{num, str}
use be_py_eco.World.{World}
use be_py_eco.Common.RequestContext.{RequestMeta, request_id}
use be_py_eco.Common.RequestId.{UuidParser}
use be_py_eco.Server.Routes.{Route}
use be_py_eco.Server.Views.{Reply}
use be_py_eco.Server.Answers.{FrameworkErrors}
use be_py_eco.Server.Problems.{member}
use be_py_eco.Server.Documentation.{documented}
use be_py_eco.Server.Meets.{Meets}

-- A response that was made for the request with this id: as the route is documented, problem
-- details, or Django's page for what nobody handles.
pub data Traced (fe : FrameworkErrors) (route : Route) (meta : RequestMeta) (reply : Reply)
    : Type 0 where
  as_documented : Meets (documented route) meta reply.status reply.body → Traced fe route meta reply
  problem :
      member (codes "trace_id") reply.body ≡ some (str (request_id (some meta)))
      → member (codes "status") reply.body ≡ some (num reply.status)
      → Traced fe route meta reply
  unhandled : reply ≡ fe.server_error → Traced fe route meta reply

-- the id of a request: the one that it brings, or the next random one
abbrev pub RequestNumber : UuidParser → Option Text → World → ℕ → Type 0
RequestNumber up given w n =
    (n ≡ w.ids 0) ⊎ ((text : Text) × (given ≡ some text) × (up.parse_uuid text ≡ some n))

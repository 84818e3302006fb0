-- ===== src/Server/Meets.antt =====
-- A response that is as the documentation of the API has it.
use be_py_eco.Prelude.{ℕ, ◌≡◌, refl, none, some}
use be_py_eco.Common.Openapi.{Kind, Conforms}
use be_py_eco.Server.Documentation.{Documented, with_data, no_body}
use be_py_eco.Server.Conformance.{conform_rules}
use be_py_eco.Schema.{Json, null, Staff}
use be_py_eco.World.{Yields, yields_rules}
use be_py_eco.Common.Authentication.{Actor}
use be_py_eco.Common.Idempotency.{Response}
use be_py_eco.Common.RequestContext.{RequestMeta}
use be_py_eco.Common.Http.{Request, success_envelope, data_response, empty_response}
use be_py_eco.Accounts.Api.Routes.{View, open_view, user_view, staff_view}

-- The documented status, with data of the documented kind in the success envelope, which names the
-- request, or with no body.
pub data Meets (doc : Documented) (meta : RequestMeta) (status : ℕ) (body : Json) : Type 0 where
  meets_data :
      (kind : Kind) (d : Json)
      → doc ≡ with_data status kind
      → Conforms kind d
      → body ≡ success_envelope d (some meta) none
      → Meets doc meta status body
  meets_empty : doc ≡ no_body status → body ≡ null → Meets doc meta status body

-- a response to a request
abbrev pub MeetsFor : Documented → Request → Response → Type 0
MeetsFor doc request r = Meets doc request.meta r.status r.body

pub data-Meets :
    (status : ℕ) (kind : Kind) (d : Json) (request : Request)
    → Conforms kind d
    → MeetsFor (with_data status kind) request (data_response status d request)
unfolding data_response
data-Meets status kind d request c = meets_data kind d refl c refl

pub empty-Meets :
    (status : ℕ) (request : Request) → MeetsFor (no_body status) request (empty_response status)
empty-Meets status request = meets_empty refl refl

pub ruleset shape_rules = (yields_rules, conform_rules, data-Meets, empty-Meets)

abbrev pub ViewMeets : Documented → View → Type 0
ViewMeets doc (open_view post) = (request : Request) → Yields (MeetsFor doc request) (post request)
ViewMeets doc (user_view post) =
    (request : Request) (user : Actor) → Yields (MeetsFor doc request) (post request user)
ViewMeets doc (staff_view post) =
    (request : Request) (s : Staff) → Yields (MeetsFor doc request) (post request s)

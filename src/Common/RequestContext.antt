-- ===== src/Common/RequestContext.antt =====
-- src/common/observability/request_context.py. A request is what these functions read of it.
use be_py_eco.Prelude.{Option, none, some, [], Text}

pub record RequestMeta : Type 0 where
  pub remote_addr : Option Text
  -- the header `X-Forwarded-For`
  pub x_forwarded_for : Option Text
  -- `request.id`, when the middleware has set it
  pub id : Option Text

unfoldable pub client_ip : Option RequestMeta → Option Text
client_ip none = none
client_ip (some request) = request.remote_addr

abbrev id_text : Option Text → Text
id_text none = []
id_text (some i) = i

unfoldable pub request_id : Option RequestMeta → Text
request_id none = []
request_id (some request) = id_text request.id

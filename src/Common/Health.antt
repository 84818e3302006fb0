-- ===== src/Common/Health.antt =====
-- src/common/observability/health.py; whether the database can be reached is a parameter.
use be_py_eco.Prelude.{Bool, if◌then◌else◌, Text, codes}
use be_py_eco.Schema.{Json, str, obj, end, field}
use be_py_eco.Common.Idempotency.{Response}

abbrev status_body : Text → Json
status_body status = obj (field (codes "status") (str status) end)

unfoldable pub live : Response
live = record { status = 200; body = status_body (codes "ok") }

-- `ensure_connection` raises no `OperationalError`
unfoldable pub ready : Bool → Response
ready connected =
    if connected
    then record { status = 200; body = status_body (codes "ok") }
    else record { status = 503; body = status_body (codes "unavailable") }

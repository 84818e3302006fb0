-- ===== src/Common/Authentication.antt =====
-- src/common/auth/authentication.py: the actor that a validated access token stands for.
use be_py_eco.Prelude.{
  ℕ, ◌*◌, ◌&&◌, Option, none, some, ◌==◌, if◌then◌else◌, Text, codes, eq_text, first_row,
}
use be_py_eco.Schema.{Database, Customer, Staff}

-- `StaffRefreshToken.lifetime`: 7 days, in microseconds
abbrev pub staff_refresh_lifetime : ℕ
staff_refresh_lifetime = 7 * 24 * 3600 * 1000000

pub data Actor : Type 0 where
  customer_actor : Customer → Actor
  staff_actor : Staff → Actor

abbrev as_customer : Option Customer → Option Actor
as_customer none = none
as_customer (some c) = some (customer_actor c)

abbrev as_staff : Option Staff → Option Actor
as_staff none = none
as_staff (some s) = some (staff_actor s)

-- `InvalidToken` is `none`: simplejwt answers it with 401. `get` on a primary key finds one row
-- at most.
unfoldable pub get_user : Option Text → ℕ → Database → Option Actor
get_user none actor_id db = none
get_user (some actor_type) actor_id db =
    if eq_text actor_type (codes "customer")
    then as_customer (first_row (λ c. c.id == actor_id && c.is_active) db.customers)
    else if eq_text actor_type (codes "staff")
    then as_staff (first_row (λ s. s.id == actor_id && s.is_active) db.staff)
    else none

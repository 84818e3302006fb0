-- ===== src/Lib.antt =====
-- be-py-eco: the backend of a shop (Django and DRF), its services and its endpoints.
--
-- The program is a set of modules over one database. src/modules/accounts registers customers,
-- signs customers and staff in, keeps refresh sessions and runs the sensitive staff actions;
-- src/modules/catalog holds the category tree, products, variants and the storefront's reads;
-- src/modules/translation, media and localization give the catalog its texts, pictures and
-- locales; src/modules/audit writes the audit log; src/common holds permissions, idempotency keys,
-- the outbox, identifiers and the problem details of an error. The sensitive views call, in this
-- order, the permission policy, the device check, the idempotency key and then the service, which
-- writes an audit entry; publishing writes an outbox event and makes a product visible to the
-- storefront.
--
-- How it is modelled. Schema is the database: a list of rows for each model, with ids as numbers
-- and times in microseconds. World adds the clock, the random sources, the mails sent, the answers
-- of the mail server and the object storage; World/Monad is the monad of the services: an action
-- takes a world and gives a result or an error, and a world. `atomic` is transaction.atomic: an
-- error undoes the database only. Outside it what was written before an error stays. World/Create
-- and World/CreateContent are objects.create with the unique constraints and column lengths of the
-- models. World/External and the record MediaServices of Media hold what third-party code does
-- (hashing, signed tokens, one-time codes, Google's tokeninfo, file types, images, scans, storage
-- names) with the laws relied on. World/Invariants says how an invariant of the database passes
-- through an action. Common/Http is what the endpoints share: credentials and who they stand for,
-- the permission classes, the envelope, and the record Framework, the validation of single fields
-- by the REST framework with the laws relied on. Accounts/Api/Routes gives each route of accounts
-- its view. Server is the whole program: Server/Routes has every route with its path, Server/Views
-- runs authentication, permissions, throttles and the handler of a route, Server/Answers turns
-- what was raised into problem details inside the request id middleware, and Server/Events runs
-- requests, the upload task and the management commands one after another. Common/Openapi has
-- kinds of JSON data, and Server/Documentation what the documentation says of each route in them;
-- Server/Meets, Endpoints and Shapes hold the views against it. Config/Settings takes the
-- environment as a parameter, and the lifetimes of the tokens that the services issue stand there.
-- Accounts/Intact is the invariant of such a history and its proof for each operation, found by
-- the rules of Accounts/Intact/Rules and Elsewhere; World/Results does the same for what an action
-- returns.
--
--   Accounts/Tokens, Register, Password, EmailChange, Sessions, Login, Mfa, StaffActions:
--     src/modules/accounts/services, and the sensitive views of
--     src/modules/accounts/api/admin/views.py
--   Accounts/Api: the serializers, views and routes of src/modules/accounts/api, and
--     src/modules/accounts/management/commands/create_master_admin.py
--   Catalog/CategoryTree, Products, Attributes, Publish, Storefront, Api: src/modules/catalog
--   Translation, Media, Localization, Audit: the modules of these names; Media/Upload:
--     src/integrations/media_storage/client.py too
--   Integrations/GoogleOauth: src/integrations/google_oauth/client.py
--   Common/Permissions, Authentication, Idempotency, Outbox, RequestContext, RequestId,
--     Throttling, Health, Uuid7, Problem: src/common; Common/Render: str of a UUID and json.dumps
--     with sorted keys
--   Server: src/config/urls.py, the middleware and the exception handler around the views
--   Config: src/config/settings
--   Server/Documentation: the response serializers, and extend_schema of the views
--   Errors: the errors.py of each module, with status, code and texts
--   Prelude: Boolean tests, texts as lists of code points, and lists as tables with their laws
--   Tests: concrete services, worlds and runs
-- The functions and fields have the names of the source; a definition that the source has inline
-- is named for what it does. Each child module of a component holds proofs about it.
--
-- Bounds and fuel. Numbers are natural numbers; the columns whose bounds matter (reasons,
-- combination keys, SKUs, prices) are checked where a row is written. The walk up the category
-- tree has fuel for one round more than there are categories. Printing of a number has its value
-- as fuel.
--
-- Not modelled: templates, locales, static files and logging among the settings, the process entry
-- points, migrations, the texts of the documentation, the OpenSearch client and the fake Google
-- client, which are declarations, generated, for tests or called by nothing; the counting of the
-- throttles, unknown routes, wrong methods and the rendering of times, which are the framework's;
-- the two routes that serve the API's documentation; image encoding and the signing of a policy,
-- which are parameters; the isolation of concurrent transactions (an action runs from start to
-- end; Sessions/Race splits one action to interleave it); `int` of a code for non-ASCII digits, and
-- upper case and white space beyond ASCII; numbers of a body that are no natural numbers; an
-- Authorization header that simplejwt cannot read; the random id of an access token.
pub mod Prelude
pub mod Errors
pub mod Schema
pub mod World
pub mod Common
pub mod Config
pub mod Audit
pub mod Accounts
pub mod Localization
pub mod Translation
pub mod Catalog
pub mod Media
pub mod Integrations
pub mod Server
pub mod Tests

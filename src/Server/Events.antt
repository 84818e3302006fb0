-- ===== src/Server/Events.antt =====
-- Everything that acts on the database: requests, the worker's task (src/modules/media/tasks.py)
-- and the management commands.
use be_py_eco.Prelude.{ℕ, Option, List, [], ◌∷◌, Text}
use be_py_eco.World.{World, Services}
use be_py_eco.Common.RequestContext.{RequestMeta}
use be_py_eco.Common.RequestId.{UuidParser}
use be_py_eco.Common.Http.{Framework}
use be_py_eco.Accounts.Api.Admin.{create_master_admin}
use be_py_eco.Localization.{seed_supported_countries}
use be_py_eco.Media.{MediaServices, validate_upload}
use be_py_eco.Media.Upload.{ObjectStorage}
use be_py_eco.Server.Views.{Incoming}
use be_py_eco.Server.Answers.{FrameworkErrors, serve_request}

pub data Event : Type 0 where
  requested : Incoming → Event
  -- the storage's notice of an upload, which may come again
  upload_created : ℕ → Event
  countries_seeded : Event
  master_admin_wanted : Text → Option Text → Text → Event

-- the third-party code that the server runs on
pub record Platform : Type 0 where
  pub services : Services
  pub framework : Framework
  pub framework_errors : FrameworkErrors
  pub storage : ObjectStorage
  pub media_services : MediaServices
  pub uuid_parser : UuidParser
  pub get_ident : RequestMeta → Text

module _ (platform : Platform) where
  open platform use {
    services, framework, framework_errors, storage, media_services, uuid_parser, get_ident,
  }

  unfoldable pub happen : Event → World → World
  happen (requested incoming) w =
      (serve_request services framework framework_errors storage get_ident uuid_parser incoming w).1
  happen (upload_created id) w = (validate_upload media_services id w).1
  happen countries_seeded w = (seed_supported_countries w).1
  happen (master_admin_wanted email password prompted) w =
      (create_master_admin services framework email password prompted w).1

  -- the world after a history of events, the latest first
  unfoldable pub run_events : List Event → World → World
  unfolding happen
  run_events [] w = w
  run_events (event ∷ earlier) w = happen event (run_events earlier w)

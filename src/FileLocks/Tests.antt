-- ===== src/FileLocks/Tests.antt =====
-- internal/filelocks at concrete requests.
use osspilot_ops_api.Common.{String, ◌≡◌, refl, true, none, some, List, []}
use osspilot_ops_api.Common.Text.{trim_space, trim_left, trim_right, has_prefix, strip_prefix}
use osspilot_ops_api.Action.{ok, err}
use osspilot_ops_api.Database.{exec}
use osspilot_ops_api.Http.{json, error, reply}
use osspilot_ops_api.Auth.{Request}
use osspilot_ops_api.Auth.Accounts.{User}
use osspilot_ops_api.Audit.{insert_entry}
use osspilot_ops_api.Accounts.Tests.{tables, answering}
use osspilot_ops_api.Project.{Call, force_unlock, do_json, read_reply}
use osspilot_ops_api.Project.World.{World, on_db, on_remote}
use osspilot_ops_api.FileLocks.{LocksHandler, Unlock, read_unlock, unlock_file}

abbrev handler : LocksHandler (List Call)
handler = record {
  log = true;
  project = some (record { base = "http://t"; secret = "s" });
  net = answering 200;
  decode = λ body. some true;
}

abbrev asking : String → Request Unlock
asking key = record {
  path = "";
  authorization = "";
  path_value = λ name. "";
  body = some (record { bucket_name = "data"; object_key = key });
  origin = record { source_ip = none; user_agent = none };
  now = 50;
  salt = 0;
}

abbrev world : World (List Call)
world = record { db = record { tables = tables; faults = [] }; remote = [] }

code : Unit {0}
unfolding unlock_file read_unlock trim_space trim_left trim_right has_prefix strip_prefix on_db
    on_remote exec insert_entry force_unlock do_json read_reply
code = tt

module _ (user : User) where
  unlocked : (unlock_file handler (asking "a.txt") user world).0 ≡ ok (json 200 true)
  unfolding code
  unlocked = refl

  -- The lock of an object in the trash is not broken.
  in_trash :
      (unlock_file handler (asking ".trash/a.txt") user world).0
      ≡ err (reply (error 400 "Invalid object key"))
  unfolding code
  in_trash = refl

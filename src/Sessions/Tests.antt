-- ===== src/Sessions/Tests.antt =====
-- Runs of the session manager over a small Redis, and its theorems at concrete requests.
use fyer_webframe.Base.{◌≡◌, refl, Bool, true, false, List, [], ◌∷◌, Option, none, some}
use fyer_webframe.Base.Text.{Text, codes, text_dec}
use fyer_webframe.Base.Map.{Map, lookup, insert as put, delete as drop_key}
use fyer_webframe.Sessions.{
  Propagator, SessionContext, Outcome, returned, error, init_session, get_session, delete_session,
}
use fyer_webframe.Sessions.Redis.{
  Redis, Session, RedisStorage, create, find, refresh, delete, redis_storage,
}
use fyer_webframe.Sessions.Manager.{delete_session_stale}
use fyer_webframe.Sessions.Deletion.{get_session-delete_session}
use fyer_webframe.Sessions.Nil.{IsNilKept, init_session_nil}

-- What a run opens.
sessions : Unit {0}
unfolding text_dec lookup put drop_key init_session get_session delete_session create find refresh
    delete redis_storage
sessions = tt

abbrev has : Option (Unit {0}) → Bool
has none = false
has (some u) = true

-- A Redis that knows its keys, whose pool gives clients or not.
abbrev keys_only : Bool → Redis (Map (Unit {0}))
keys_only client = record {
  connects = λ r. true;
  is_client = λ r. client;
  put_fails = λ err r. err;
  exists = λ key r. some (has (lookup key r));
  hset_created = λ key r. (put key tt r, false);
  expire = λ key r. (r, false);
  del = λ key r. (drop_key key r, false);
}

-- The identifier travels as it is.
abbrev direct : Propagator Text (List Text)
direct = record {
  insert_id = λ id resp. (id ∷ resp, false);
  extract = λ req. some req;
  remove = λ resp. ([] ∷ resp, false);
}

abbrev key : Text
key = codes "session"

abbrev request : SessionContext Text (List Text) Session
request = record { req = codes "7"; resp = []; user_values = [] }

abbrev storage : RedisStorage (Map (Unit {0}))
storage = record { redis = []; prefix = codes "sess_"; expires = true; sessions = [] }

abbrev session : Session
session = record { id = codes "7"; prefix = codes "sess_"; expires = true }

abbrev begun :
    SessionContext Text (List Text) Session
    × RedisStorage (Map (Unit {0}))
    × Outcome (Option Session)
begun = init_session (redis_storage (keys_only true)) direct key (codes "7") request storage

begins : begun.2 ≡ returned (some session)
unfolding sessions
begins = refl

delete_session_stale_example :
    let after = delete_session (redis_storage (keys_only true)) direct key begun.0 begun.1 in
    get_session (redis_storage (keys_only true)) direct key after.0 after.1
    ≡ (after.0, after.1, returned (some session))
unfolding sessions
delete_session_stale_example =
    delete_session_stale (redis_storage (keys_only true)) direct key begun.0 begun.1 session refl

get_session-delete_session_example :
    let after = delete_session (redis_storage (keys_only true)) direct key begun.0 begun.1 in
    (get_session (redis_storage (keys_only true)) direct key request after.1).2 ≡ error
unfolding sessions
get_session-delete_session_example =
    get_session-delete_session (keys_only true) (λ r. refl) direct key begun.0 request begun.1
      (codes "7") refl refl refl refl refl

init_session_nil_example :
    IsNilKept
      (redis_storage (keys_only false))
      direct
      key
      (init_session (redis_storage (keys_only false)) direct key (codes "7") request storage)
init_session_nil_example =
    init_session_nil (keys_only false) direct key (codes "7") request storage refl refl refl refl

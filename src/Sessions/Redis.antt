-- ===== src/Sessions/Redis.antt =====
-- web/session/redissession: sessions in Redis, kept beside in a map of the process. go-redis and the
-- pool of connections are the parameter Redis.
use fyer_webframe.Base.{
  Bool, true, false, not, List, [], ◌∷◌, ◌++◌, Option, none, some, if◌then◌else◌,
}
use fyer_webframe.Base.Text.{Text}
use fyer_webframe.Base.Map.{Map, lookup, insert as put, delete as drop_key}
use fyer_webframe.Sessions.{Storage}

-- Get of the pool gives a connection or not, which holds a Redis client or not; Put returns an error
-- or not for the error that it is given; a command answers and says whether it failed. EXISTS is
-- none where it failed.
pub record Redis (R : Type 0) : Type 0 where
  pub connects : R → Bool
  pub is_client : R → Bool
  pub put_fails : Bool → R → Bool
  pub exists : Text → R → Option Bool
  pub hset_created : Text → R → R × Bool
  pub expire : Text → R → R × Bool
  pub del : Text → R → R × Bool

-- The fields of a session that the storage sets.
pub record Session : Type 0 where
  pub id : Text
  pub prefix : Text
  pub expires : Bool

pub record RedisStorage (R : Type 0) : Type 0 where
  pub redis : R
  pub prefix : Text
  pub expires : Bool
  pub sessions : Map Session

module _ {R : Type 0} (api : Redis R) where
  abbrev pub Found : Type 0
  Found = RedisStorage R × Option Session × Bool

  abbrev pub new_session : Text → RedisStorage R → Session
  new_session id s = record { id = id; prefix = s.prefix; expires = s.expires }

  abbrev pub key_of : Text → RedisStorage R → Text
  key_of id s = s.prefix ++ id

  -- nil, with what Put returns for the error.
  abbrev pub give_up : Bool → RedisStorage R → Found
  give_up err s = (s, none, api.put_fails err s.redis)

  -- A session that goes into the map and is returned, with what Put returns for nil.
  abbrev pub keep_new : Text → RedisStorage R → Found
  keep_new id s =
      let sess = new_session id s in
      (record s { sessions = put id sess s.sessions }, some sess, api.put_fails false s.redis)

  -- The connection, and the test of what it holds.
  abbrev pub with_client : RedisStorage R → Found → Found
  with_client s result =
      if not (api.connects s.redis)
      then (s, none, true)
      else if not (api.is_client s.redis)
      then give_up false s
      else result

  -- Create
  abbrev pub expired_set : Text → RedisStorage R → R × Bool → Found
  expired_set id s (r, true) = give_up true (record s { redis = r })
  expired_set id s (r, false) = keep_new id (record s { redis = r })

  abbrev pub hash_set : Text → RedisStorage R → R × Bool → Found
  hash_set id s (r, true) = give_up true (record s { redis = r })
  hash_set id s (r, false) =
      let t : RedisStorage R = record s { redis = r } in
      expired_set id t (api.expire (key_of id t) t.redis)

  unfoldable pub create : Text → RedisStorage R → Found
  create id s = with_client s (hash_set id s (api.hset_created (key_of id s) s.redis))

  -- Find, where the map has the session
  abbrev pub verified : Text → Session → RedisStorage R → Option Bool → Found
  verified id sess s none = give_up true s
  verified id sess s (some false) = (record s { sessions = drop_key id s.sessions }, none, true)
  verified id sess s (some true) = (s, some sess, false)

  -- and where it does not.
  abbrev pub loaded : Text → RedisStorage R → Option Bool → Found
  loaded id s none = give_up true s
  loaded id s (some false) = (s, none, true)
  loaded id s (some true) = keep_new id s

  abbrev pub find_from : Text → RedisStorage R → Option Session → Found
  find_from id s (some sess) = with_client s (verified id sess s (api.exists (key_of id s) s.redis))
  find_from id s none = with_client s (loaded id s (api.exists (key_of id s) s.redis))

  unfoldable pub find : Text → RedisStorage R → Found
  find id s = find_from id s (lookup id s.sessions)

  abbrev pub put_back : RedisStorage R → R × Bool → RedisStorage R × Bool
  put_back s (r, err) = (record s { redis = r }, api.put_fails err r)

  abbrev pub command : (R → R × Bool) → RedisStorage R → RedisStorage R × Bool
  command run s =
      if not (api.connects s.redis)
      then (s, true)
      else if not (api.is_client s.redis)
      then (s, api.put_fails false s.redis)
      else put_back s (run s.redis)

  -- Refresh
  unfoldable pub refresh : Text → RedisStorage R → RedisStorage R × Bool
  refresh id s = command (api.expire (key_of id s)) s

  -- Delete
  unfoldable pub delete : Text → RedisStorage R → RedisStorage R × Bool
  delete id s =
      let t : RedisStorage R = record s { sessions = drop_key id s.sessions } in
      command (api.del (key_of id t)) t

  -- The Range of GC, over the sessions in its order.
  abbrev pub is_gone : Option Bool → Bool
  is_gone none = true
  is_gone (some present) = not present

  unfoldable pub sweep : List Text → RedisStorage R → RedisStorage R
  sweep [] s = s
  sweep (id ∷ ids) s = sweep ids (
      if is_gone (api.exists (key_of id s) s.redis)
      then record s { sessions = drop_key id s.sessions }
      else s)

  -- GC, of the sessions that Range visits
  unfoldable pub gc : List Text → RedisStorage R → RedisStorage R × Bool
  gc visited s =
      if not (api.connects s.redis)
      then (s, true)
      else if not (api.is_client s.redis)
      then (s, api.put_fails false s.redis)
      else (let t = sweep visited s in (t, api.put_fails false t.redis))

  -- The storage as the manager sees it.
  unfoldable pub redis_storage : Storage (RedisStorage R) Session
  redis_storage = record {
    create = create;
    refresh = refresh;
    find = find;
    delete = delete;
    id_of = λ sess. sess.id;
  }

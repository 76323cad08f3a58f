-- ===== src/Sessions/Deletion.antt =====
-- web/session over redissession: a session that was deleted.
use fyer_webframe.Base.{
  ◌≡◌, refl, ap, ◌∙◌, Bool, true, false, not, none, some, arith, if◌then◌else◌,
}
use mathlib.Core.Bool.{false≢true}
use fyer_webframe.Base.Text.{Text}
use fyer_webframe.Base.Map.{lookup, delete as drop_key, lookup-delete}
use fyer_webframe.Sessions.{Propagator, SessionContext, error, get_session, delete_session}
use fyer_webframe.Sessions.Redis.{
  Redis, Session, RedisStorage, key_of, give_up, with_client, loaded, find_from, find, put_back,
  delete, redis_storage,
}
use fyer_webframe.Sessions.Manager.{delete_session-storage, get_session-find_error}

module _ {R : Type 0} (api : Redis R) (client : (r : R) → api.is_client r ≡ true) where
  -- Neither the map nor Redis has the session.
  find-gone :
      (id : Text) (s : RedisStorage R)
      → lookup id s.sessions ≡ none
      → api.exists (key_of api id s) s.redis ≡ some false
      → (find api id s).2 ≡ true
  unfolding find
  find-gone id s missing gone =
      ap (λ o. (find_from api id s o).2) missing
      ∙ ap (λ o. (with_client api s (loaded api id s o)).2) gone
      ∙ of_connection (api.connects s.redis) (api.is_client s.redis) (client s.redis)
    where
      of_connection :
          (connected is_client : Bool)
          → is_client ≡ true
          → (if not connected
              then (s, none, true)
              else if not is_client
              then give_up api false s
              else (s, none, true)).2
            ≡ true
      of_connection false is_client c = refl
      of_connection true false c = absurd (false≢true c)
      of_connection true true c = refl

  -- On a connection, Delete takes the session from the map and runs DEL, also behind an error.
  delete-storage :
      (id : Text) (s : RedisStorage R)
      → api.connects s.redis ≡ true
      → (delete api id s).0 ≡ record s {
        sessions = drop_key id s.sessions;
        redis = (api.del (key_of api id s) s.redis).0;
      }
  unfolding delete
  delete-storage id s connected =
      of_connection (api.connects s.redis) (api.is_client s.redis) connected (client s.redis)
    where
      dropped : RedisStorage R
      dropped = record s { sessions = drop_key id s.sessions }

      of_connection :
          (connects is_client : Bool)
          → connects ≡ true
          → is_client ≡ true
          → (if not connects
              then (dropped, true)
              else if not is_client
              then (dropped, api.put_fails false dropped.redis)
              else put_back api dropped (api.del (key_of api id dropped) dropped.redis)).0
            ≡ record dropped { redis = (api.del (key_of api id s) s.redis).0 }
      of_connection false is_client e c = absurd (false≢true e)
      of_connection true false e c = absurd (false≢true c)
      of_connection true true e c = refl

  module _ {Req Resp : Type 0} (propagator : Propagator Req Resp) (session_key : Text) where
    -- After DeleteSession, whatever it returned, GetSession of a request that has not read its
    -- session yet fails for the same identifier, also where the process still held the session.
    -- The pool gave DeleteSession a connection, behind its DEL Redis answers to EXISTS that the
    -- key is not there, and every connection of the pool holds a Redis client.
    pub get_session-delete_session :
        (ctx later : SessionContext Req Resp Session) (s : RedisStorage R) (id : Text)
        → propagator.extract ctx.req ≡ some id
        → propagator.extract later.req ≡ some id
        → lookup session_key later.user_values ≡ none
        → api.connects s.redis ≡ true
        → api.exists (key_of api id s) (api.del (key_of api id s) s.redis).0 ≡ some false
        → let after = delete_session (redis_storage api) propagator session_key ctx s in
          (get_session (redis_storage api) propagator session_key later after.1).2 ≡ error
    unfolding redis_storage
    get_session-delete_session ctx later s id named named_later unread connected gone =
        let left : RedisStorage R = record s {
          sessions = drop_key id s.sessions;
          redis = (api.del (key_of api id s) s.redis).0;
        } in
        let missing : lookup id left.sessions ≡ none =
          ground (arith, lookup-delete id id s.sessions) in
        get_session-find_error (redis_storage api) propagator session_key later
          (delete_session (redis_storage api) propagator session_key ctx s).1 id unread named_later
          (ap (λ t. (find api id t).2)
              (delete_session-storage (redis_storage api) propagator session_key ctx s id named
                ∙ delete-storage id s connected)
            ∙ find-gone id left missing gone)

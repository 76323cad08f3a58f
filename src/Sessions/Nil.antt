-- ===== src/Sessions/Nil.antt =====
-- web/session over redissession: a session that could not be made.
use fyer_webframe.Base.{◌≡◌, refl, sym, ap, Bool, true, false, not, Option, none, if◌then◌else◌}
use mathlib.Core.Path.{subst}
use mathlib.Core.Bool.{true≢false, false≢true}
use fyer_webframe.Base.Text.{Text}
use fyer_webframe.Base.Map.{insert as put, lookup-insert_self}
use fyer_webframe.Sessions.{
  Storage, Propagator, SessionContext, Outcome, returned, panicked, store, inserted, init_from,
  init_session, kept, get_session,
}
use fyer_webframe.Sessions.Redis.{Redis, Session, RedisStorage, with_client, create, redis_storage}

module _ {St Sess Req Resp : Type 0} (storage : Storage St Sess) (propagator : Propagator Req Resp)
    (session_key : Text) where
  -- A nil session was stored, and reading it panics.
  abbrev pub IsNilKept : SessionContext Req Resp Sess × St × Outcome (Option Sess) → Type 0
  IsNilKept after =
      (after.2 ≡ returned none)
      × ((get_session storage propagator session_key after.0 after.1).2 ≡ panicked)

  inserted-IsNilKept :
      (ctx : SessionContext Req Resp Sess) (s : St) (r : Resp × Bool)
      → r.1 ≡ false
      → IsNilKept (inserted storage propagator session_key ctx s none r)
  unfolding get_session
  inserted-IsNilKept ctx s (resp, true) e = absurd (true≢false e)
  inserted-IsNilKept ctx s (resp, false) e = (
    refl,
    ap
        (λ o.
          (kept storage propagator session_key
            (store storage propagator session_key none (record ctx { resp = resp })) s o).2)
        (lookup-insert_self session_key none ctx.user_values),
  )

  init_session-IsNilKept :
      (id : Text) (ctx : SessionContext Req Resp Sess) (s t : St)
      → storage.create id s ≡ (t, none, false)
      → (propagator.insert_id id ctx.resp).1 ≡ false
      → IsNilKept (init_session storage propagator session_key id ctx s)
  unfolding init_session
  init_session-IsNilKept id ctx s t e sent =
      subst (λ r. IsNilKept (init_from storage propagator session_key id ctx r)) (sym e)
        (inserted-IsNilKept ctx t (propagator.insert_id id ctx.resp) sent)

module _ {R : Type 0} (api : Redis R) where
  with_client-no_client :
      (s : RedisStorage R) (result : RedisStorage R × Option Session × Bool)
      → api.connects s.redis ≡ true
      → api.is_client s.redis ≡ false
      → api.put_fails false s.redis ≡ false
      → with_client api s result ≡ (s, none, false)
  with_client-no_client s result connected no_client put =
      of_connection (api.connects s.redis) (api.is_client s.redis) (api.put_fails false s.redis)
        connected no_client put
    where
      of_connection :
          (connects client fails : Bool)
          → connects ≡ true
          → client ≡ false
          → fails ≡ false
          → (if not connects
              then (s, none, true)
              else if not client
              then (s, none, fails)
              else result)
            ≡ (s, none, false)
      of_connection false client fails e f g = absurd (false≢true e)
      of_connection true true fails e f g = absurd (true≢false f)
      of_connection true false true e f g = absurd (true≢false g)
      of_connection true false false e f g = refl

  -- Where the connection of the pool holds no Redis client, Put returns nil for nil, and the
  -- propagator inserts the identifier without an error, InitSession returns a nil session without
  -- an error, and the next GetSession on the context panics.
  pub init_session_nil :
      {Req Resp : Type 0} (propagator : Propagator Req Resp) (session_key id : Text)
      (ctx : SessionContext Req Resp Session) (s : RedisStorage R)
      → api.connects s.redis ≡ true
      → api.is_client s.redis ≡ false
      → api.put_fails false s.redis ≡ false
      → (propagator.insert_id id ctx.resp).1 ≡ false
      → IsNilKept
          (redis_storage api)
          propagator
          session_key
          (init_session (redis_storage api) propagator session_key id ctx s)
  unfolding redis_storage create
  init_session_nil propagator session_key id ctx s connected no_client put sent =
      init_session-IsNilKept (redis_storage api) propagator session_key id ctx s s
        (with_client-no_client s _ connected no_client put) sent

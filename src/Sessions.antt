-- ===== src/Sessions.antt =====
-- web/session: the manager of sessions over its two interfaces, and web/session/cookiepropagator.
-- The values that handlers store in the context are the sessions here; a session that a storage
-- returns may be nil beside a nil error, and is then stored as nil.
pub mod Redis
pub mod Manager
pub mod Deletion
pub mod Nil
pub mod Tests
use fyer_webframe.Base.{
  ℕ, ◌≡◌, Bool, true, false, List, [], ◌∷◌, ◌++◌, Option, none, some, if◌then◌else◌, ite,
}
use fyer_webframe.Base.Text.{Text, text_dec}
use fyer_webframe.Base.Map.{Map, lookup, insert as put}

-- The interface Storage on a state `St` with sessions `Sess`: a session, nil or not, and whether an
-- error comes with it, or whether an error is returned.
pub record Storage (St Sess : Type 0) : Type 0 where
  pub create : Text → St → St × Option Sess × Bool
  pub refresh : Text → St → St × Bool
  pub find : Text → St → St × Option Sess × Bool
  pub delete : Text → St → St × Bool
  pub id_of : Sess → Text

-- The interface Propagator on the response `Resp` and the request `Req`.
pub record Propagator (Req Resp : Type 0) : Type 0 where
  pub insert_id : Text → Resp → Resp × Bool
  pub extract : Req → Option Text
  pub remove : Resp → Resp × Bool

-- What the manager uses of a context.
pub record SessionContext (Req Resp Sess : Type 0) : Type 0 where
  pub req : Req
  pub resp : Resp
  pub user_values : Map (Option Sess)

-- A call of the manager: it returns a session, an error, or panics at the type assertion of nil.
pub data Outcome (A : Type 0) : Type 0 where
  returned : A → Outcome A
  error : Outcome A
  panicked : Outcome A

module _ {St Sess Req Resp : Type 0} (storage : Storage St Sess) (propagator : Propagator Req Resp)
    (session_key : Text) where
  abbrev pub Call : Type 0 → Type 0
  Call A = SessionContext Req Resp Sess × St × Outcome A

  abbrev pub store : Option Sess → SessionContext Req Resp Sess → SessionContext Req Resp Sess
  store sess ctx = record ctx { user_values = put session_key sess ctx.user_values }

  -- InitSession
  abbrev pub inserted :
      SessionContext Req Resp Sess → St → Option Sess → Resp × Bool → Call (Option Sess)
  inserted ctx s sess (resp, true) = (record ctx { resp = resp }, s, error)
  inserted ctx s sess (resp, false) = (store sess (record ctx { resp = resp }), s, returned sess)

  abbrev pub init_from :
      Text → SessionContext Req Resp Sess → St × Option Sess × Bool → Call (Option Sess)
  init_from id ctx (s, sess, true) = (ctx, s, error)
  init_from id ctx (s, sess, false) = inserted ctx s sess (propagator.insert_id id ctx.resp)

  unfoldable pub init_session : Text → SessionContext Req Resp Sess → St → Call (Option Sess)
  init_session id ctx s = init_from id ctx (storage.create id s)

  -- GetSession
  abbrev pub get_from : SessionContext Req Resp Sess → St × Option Sess × Bool → Call (Option Sess)
  get_from ctx (s, sess, true) = (ctx, s, error)
  get_from ctx (s, sess, false) = (store sess ctx, s, returned sess)

  abbrev pub extracted : SessionContext Req Resp Sess → St → Option Text → Call (Option Sess)
  extracted ctx s none = (ctx, s, error)
  extracted ctx s (some id) = get_from ctx (storage.find id s)

  abbrev pub kept : SessionContext Req Resp Sess → St → Option (Option Sess) → Call (Option Sess)
  kept ctx s (some (some sess)) = (ctx, s, returned (some sess))
  kept ctx s (some none) = (ctx, s, panicked)
  kept ctx s none = extracted ctx s (propagator.extract ctx.req)

  unfoldable pub get_session : SessionContext Req Resp Sess → St → Call (Option Sess)
  get_session ctx s = kept ctx s (lookup session_key ctx.user_values)

  -- RefreshSession; the method ID of a nil session panics.
  abbrev pub done_with : SessionContext Req Resp Sess → St × Bool → Call Unit
  done_with ctx (s, true) = (ctx, s, error)
  done_with ctx (s, false) = (ctx, s, returned tt)

  abbrev pub refresh_from : Call (Option Sess) → Call Unit
  refresh_from (ctx, s, returned (some sess)) =
      done_with ctx (storage.refresh (storage.id_of sess) s)
  refresh_from (ctx, s, returned none) = (ctx, s, panicked)
  refresh_from (ctx, s, error) = (ctx, s, error)
  refresh_from (ctx, s, panicked) = (ctx, s, panicked)

  unfoldable pub refresh_session : SessionContext Req Resp Sess → St → Call Unit
  refresh_session ctx s = refresh_from (get_session ctx s)

  -- DeleteSession
  abbrev pub removed : SessionContext Req Resp Sess → St → Resp × Bool → Call Unit
  removed ctx s (resp, true) = (record ctx { resp = resp }, s, error)
  removed ctx s (resp, false) = (record ctx { resp = resp }, s, returned tt)

  abbrev pub delete_from : SessionContext Req Resp Sess → St × Bool → Call Unit
  delete_from ctx (s, true) = (ctx, s, error)
  delete_from ctx (s, false) = removed ctx s (propagator.remove ctx.resp)

  abbrev pub delete_extracted : SessionContext Req Resp Sess → St → Option Text → Call Unit
  delete_extracted ctx s none = (ctx, s, error)
  delete_extracted ctx s (some id) = delete_from ctx (storage.delete id s)

  unfoldable pub delete_session : SessionContext Req Resp Sess → St → Call Unit
  delete_session ctx s = delete_extracted ctx s (propagator.extract ctx.req)

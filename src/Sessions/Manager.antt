-- ===== src/Sessions/Manager.antt =====
-- web/session/manager.go over any storage: what DeleteSession leaves of a session.
use fyer_webframe.Base.{◌≡◌, refl, ap, ◌∙◌, Bool, true, false, Option, none, some}
use mathlib.Core.Bool.{false≢true}
use fyer_webframe.Base.Text.{Text}
use fyer_webframe.Base.Map.{lookup}
use fyer_webframe.Sessions.{
  Storage, Propagator, SessionContext, returned, error, get_from, extracted, kept, get_session,
  removed, delete_from, delete_extracted, delete_session,
}

module _ {St Sess Req Resp : Type 0} (storage : Storage St Sess) (propagator : Propagator Req Resp)
    (session_key : Text) where
  delete_session-user_values :
      (ctx : SessionContext Req Resp Sess) (s : St)
      → (delete_session storage propagator session_key ctx s).0.user_values ≡ ctx.user_values
  unfolding delete_session
  delete_session-user_values ctx s = of_id (propagator.extract ctx.req)
    where
      of_resp :
          (t : St) (r : Resp × Bool)
          → (removed storage propagator session_key ctx t r).0.user_values ≡ ctx.user_values
      of_resp t (resp, true) = refl
      of_resp t (resp, false) = refl

      of_deleted :
          (r : St × Bool)
          → (delete_from storage propagator session_key ctx r).0.user_values ≡ ctx.user_values
      of_deleted (t, true) = refl
      of_deleted (t, false) = of_resp t (propagator.remove ctx.resp)

      of_id :
          (o : Option Text)
          → (delete_extracted storage propagator session_key ctx s o).0.user_values
            ≡ ctx.user_values
      of_id none = refl
      of_id (some id) = of_deleted (storage.delete id s)

  -- What DeleteSession leaves of the storage is what Delete leaves, also behind an error.
  pub delete_session-storage :
      (ctx : SessionContext Req Resp Sess) (s : St) (id : Text)
      → propagator.extract ctx.req ≡ some id
      → (delete_session storage propagator session_key ctx s).1 ≡ (storage.delete id s).0
  unfolding delete_session
  delete_session-storage ctx s id named =
      ap (λ o. (delete_extracted storage propagator session_key ctx s o).1) named
      ∙ of_deleted (storage.delete id s)
    where
      of_resp : (t : St) (r : Resp × Bool) → (removed storage propagator session_key ctx t r).1 ≡ t
      of_resp t (resp, true) = refl
      of_resp t (resp, false) = refl

      of_deleted : (r : St × Bool) → (delete_from storage propagator session_key ctx r).1 ≡ r.0
      of_deleted (t, true) = refl
      of_deleted (t, false) = of_resp t (propagator.remove ctx.resp)

  pub get_session-find_error :
      (ctx : SessionContext Req Resp Sess) (s : St) (id : Text)
      → lookup session_key ctx.user_values ≡ none
      → propagator.extract ctx.req ≡ some id
      → (storage.find id s).2 ≡ true
      → (get_session storage propagator session_key ctx s).2 ≡ error
  unfolding get_session
  get_session-find_error ctx s id unread named e =
      ap (λ o. (kept storage propagator session_key ctx s o).2) unread
      ∙ ap (λ o. (extracted storage propagator session_key ctx s o).2) named
      ∙ of_found (storage.find id s) e
    where
      of_found :
          (r : St × Option Sess × Bool)
          → r.2 ≡ true
          → (get_from storage propagator session_key ctx r).2 ≡ error
      of_found (t, sess, true) q = refl
      of_found (t, sess, false) q = absurd (false≢true q)

  -- A request that has read its session goes on to read it: after DeleteSession, GetSession on the
  -- same context answers with the session that was read, without asking the storage.
  pub delete_session_stale :
      (ctx : SessionContext Req Resp Sess) (s : St) (sess : Sess)
      → lookup session_key ctx.user_values ≡ some (some sess)
      → let after = delete_session storage propagator session_key ctx s in
        get_session storage propagator session_key after.0 after.1
        ≡ (after.0, after.1, returned (some sess))
  unfolding get_session
  delete_session_stale ctx s sess e =
      let after = delete_session storage propagator session_key ctx s in
      ap (kept storage propagator session_key after.0 after.1)
        (ap (lookup session_key) (delete_session-user_values ctx s) ∙ e)

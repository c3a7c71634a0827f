-- ===== src/Routes/Serving.antt =====
-- The answers of src/routes/mod.rs to administrative requests.
use update_delivery_system.Prelude.{
  ℕ, ◌≡◌, refl, String, Bool, true, false, not, Option, str_eq, if◌then◌else◌,
}
use update_delivery_system.Errors.{UdsError, Result, ok, err}
use update_delivery_system.Auth.{ActorIdentity}
use update_delivery_system.Storage.{Libraries}
use update_delivery_system.Routes.Releases.{MutationResponse, AppState}
use update_delivery_system.Routes.Requests.{
  AdminRequest, Response, unavailable, answered, reject_during_shutdown, admitted, serve, action_of,
}
use update_delivery_system.Routes.Audits.{IsAudited, dispatch-IsAudited}

-- What an answer stands for: before a shutdown, and for an admitted request, its audit; an error of
-- the extractor changes nothing, and neither does a request that arrives during a shutdown.
abbrev pub IsServed :
    Result ActorIdentity
    → String
    → AppState
    → Response (Result MutationResponse) × AppState
    → Type 0
IsServed auth action st (unavailable text, st') = (st.shutdown.draining ≡ true) × (st' ≡ st)
IsServed (err e) action st (answered r, st') =
    (st.shutdown.draining ≡ false) × (r ≡ err e) × (st' ≡ st)
IsServed (ok actor) action st (answered r, st') =
    (st.shutdown.draining ≡ false) × IsAudited action st (r, st')

-- Whether the last call of the file system, which makes a changed manifest visible, fails or not, when
-- the others succeed: a request that arrives during a shutdown is answered with 503, and
-- one that the extractor refuses with its error, and both change nothing. Of the others each one
-- that is answered with success is for a configured channel, and leaves one new audit event, which
-- names its action and the answer's channel and version; each one that fails leaves none.
pub serve-IsServed :
    (lib : Libraries) (io : Option UdsError) (now : ℕ) (path : String) (auth : Result ActorIdentity)
    (request : AdminRequest) (st : AppState)
    → IsServed auth (action_of request) st (serve lib io now path auth request st)
unfolding serve reject_during_shutdown
serve-IsServed lib io now path auth request st = go st.shutdown.draining refl auth
  where
    go :
        (t : Bool)
        → st.shutdown.draining ≡ t
        → (auth : Result ActorIdentity)
        → IsServed auth (action_of request) st (
            if not t
            then (
              answered (admitted lib io now request st auth).0,
              (admitted lib io now request st auth).1,
            )
            else (
              unavailable (if str_eq path "/health" then "draining" else "service_unavailable"),
              st,
            ))
    go true e auth = (e, refl)
    go false e (err x) = (e, refl, refl)
    go false e (ok actor) = (e, dispatch-IsAudited lib io now request st)

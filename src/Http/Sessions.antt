-- ===== src/Http/Sessions.antt =====
-- src/routes/v1/auth.routes.ts, src/controllers/auth.controller.ts and src/utils/cookies.ts. The
-- rate limiter before the routes is a library's.
use hr_booking_server.Base.{ℕ, Option, none, some, String}
use hr_booking_server.Errors.{not_found}
use hr_booking_server.Store.{M, ◌>>=◌, ◌>>◌, pure, or_throw}
use hr_booking_server.Auth.{RegisterInput, LoginInput, DeviceContext, login, refresh}
use hr_booking_server.Auth.Account.{
  RegisterHrInput, register, register_hr, verify_email, forgot_password, reset_password, logout,
}
use hr_booking_server.Lookup.{PublicUser, to_public_user, get_user_by_id}
use hr_booking_server.Http.{Platform, Request, Parsed, authenticate, load_user, validate}

pub data SessionRoute : Type 0 where
  register_route : RegisterInput → SessionRoute
  register_hr_route : RegisterHrInput → SessionRoute
  login_route : LoginInput → SessionRoute
  refresh_route logout_route : SessionRoute
  verify_email_route : String → SessionRoute
  forgot_password_route : String → SessionRoute
  reset_password_route : String → String → SessionRoute

-- `setAuthCookies` and `clearAuthCookies`; all are `httpOnly`.
pub data AuthCookies : Type 0 where
  untouched cleared : AuthCookies
  set_tokens : String → String → AuthCookies

pub record SessionAnswer : Type 0 where
  pub status_code : ℕ
  pub user : Option PublicUser
  pub message : Option String
  pub cookies : AuthCookies

abbrev pub get_device_context : Request → DeviceContext
get_device_context req = record { ip = req.ip; user_agent = req.user_agent }

abbrev tells : String → M SessionAnswer
tells message =
    pure (record { status_code = 200; user = none; message = some message; cookies = untouched })

module _ (platform : Platform) where
  unfoldable pub register_handler : RegisterInput → M SessionAnswer
  unfolding register to_public_user
  register_handler input = do
    user ← register platform.crypto platform.now input
    pure (record {
      status_code = 201;
      user = some (to_public_user user);
      message = some "Registration successful. Please verify your email.";
      cookies = untouched;
    })

  unfoldable pub register_hr_handler : RegisterHrInput → M SessionAnswer
  unfolding register_hr to_public_user
  register_hr_handler input = do
    user ← register_hr platform.crypto platform.now input
    pure (record {
      status_code = 201;
      user = some (to_public_user user);
      message = some "Registration successful. You can log in right away.";
      cookies = untouched;
    })

  unfoldable pub login_handler : Request → LoginInput → M SessionAnswer
  unfolding login to_public_user
  login_handler req input = do
    result ← login platform.crypto platform.now input (get_device_context req) platform.fresh_token
    pure (record {
      status_code = 200;
      user = some (to_public_user result.user);
      message = none;
      cookies = set_tokens result.access_token result.refresh_token;
    })

  unfoldable pub refresh_handler : Request → M SessionAnswer
  unfolding refresh to_public_user
  refresh_handler req = do
    result ←
        refresh platform.crypto platform.now req.refresh_cookie (get_device_context req)
          platform.fresh_token
    pure (record {
      status_code = 200;
      user = some (to_public_user result.user);
      message = none;
      cookies = set_tokens result.access_token result.refresh_token;
    })

  unfoldable pub logout_handler : Request → M SessionAnswer
  unfolding logout
  logout_handler req = do
    logout platform.crypto platform.now req.refresh_cookie
    pure (record {
      status_code = 200;
      user = none;
      message = some "Logged out successfully.";
      cookies = cleared;
    })

  unfoldable pub verify_email_handler : String → M SessionAnswer
  unfolding verify_email to_public_user
  verify_email_handler token = do
    user ← verify_email platform.crypto platform.now token
    pure (record {
      status_code = 200;
      user = some (to_public_user user);
      message = some "Email verified successfully. You can now log in.";
      cookies = untouched;
    })

  unfoldable pub forgot_password_handler : String → M SessionAnswer
  unfolding forgot_password
  forgot_password_handler address = do
    forgot_password platform.crypto platform.now address
    tells "If an account exists for that email, a reset link has been sent."

  unfoldable pub reset_password_handler : String → String → M SessionAnswer
  unfolding reset_password
  reset_password_handler token password = do
    reset_password platform.crypto platform.now token password
    tells "Password reset successfully. You can now log in."

  unfoldable pub session_handler : SessionRoute → Request → M SessionAnswer
  session_handler (register_route input) req = register_handler input
  session_handler (register_hr_route input) req = register_hr_handler input
  session_handler (login_route input) req = login_handler req input
  session_handler refresh_route req = refresh_handler req
  session_handler logout_route req = logout_handler req
  session_handler (verify_email_route token) req = verify_email_handler token
  session_handler (forgot_password_route address) req = forgot_password_handler address
  session_handler (reset_password_route token password) req = reset_password_handler token password

  unfoldable pub auth_router : Parsed SessionRoute → Request → M SessionAnswer
  unfolding session_handler
  auth_router input req = do route ← validate input; session_handler route req

  unfoldable pub me_handler : Request → M SessionAnswer
  unfolding get_user_by_id to_public_user
  me_handler req = do
    actor ← or_throw req.user (not_found "Account not found.")
    user ← get_user_by_id actor.id
    pure (record {
      status_code = 200;
      user = some (to_public_user user);
      message = none;
      cookies = untouched;
    })

  -- `authRouter.get('/me', authenticate, loadUser, meHandler)`.
  unfoldable pub me_route : Request → M SessionAnswer
  unfolding authenticate load_user me_handler
  me_route req = do
    authenticated ← authenticate platform.verify_access_token req
    loaded ← load_user authenticated
    me_handler loaded
